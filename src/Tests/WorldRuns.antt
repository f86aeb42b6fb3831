-- ===== src/Tests/WorldRuns.antt =====
-- Runs of the node of a cluster of three and of one, and instances of the theorems on them.
use raft_based_mysql_cluster.Prelude.{
  ◌+◌, ◌*◌, ◌<◌, ◌≤◌, pos, int64, ◌+ℤ◌, lit, str_eq, true, [], ◌∷◌, ◌≡◌, ◌≢◌, ◌↔◌, refl, arith, In,
  length, suc, Distinct, Str,
}
use raft_based_mysql_cluster.Prelude.Decimal.{show_ℕ}
use raft_based_mysql_cluster.Api.{MysqlCluster, leader}
use raft_based_mysql_cluster.Raft.Node.{
  node_name, names_from, get_cluster_nodes, others, new_raft_manager,
}
use raft_based_mysql_cluster.Raft.Node.Names.{get_cluster_nodes_lem}
use raft_based_mysql_cluster.Raft.Election.{
  election_due, start_election, vote_request_sent, become_leader,
}
use raft_based_mysql_cluster.Raft.Election.Tally.{count_sent}
use raft_based_mysql_cluster.Raft.Steps.{force_election}
use raft_based_mysql_cluster.Raft.World.{
  World, Poll, Move, elect, ended, fail_over, Run, begin, then_move, poll_started, goroutine_ended,
}
use raft_based_mysql_cluster.Raft.World.Leader.{none_yet, one_more, LeadsIn, leads_forever}
use raft_based_mysql_cluster.Raft.World.Alone.{alone_never_leads}
use raft_based_mysql_cluster.Raft.World.Count.{leader_counted}
use raft_based_mysql_cluster.Raft.World.Stale.{stale_node, stale_poll_elects}
use raft_based_mysql_cluster.Raft.World.Unused.{IsUnused, run-IsUnused}
use raft_based_mysql_cluster.Tests.Data.{three, node0}

abbrev pub first_world : MysqlCluster → World
first_world cluster = record {
  node = new_raft_manager (node_name cluster.name 0) cluster 7 1000;
  polls = [];
}

due_three : election_due 9000000000 (first_world three).node ≡ true
unfolding election_due
due_three = refl

-- db-0 holds an election, and db-1 is reached.
abbrev pub asked : World
asked = poll_started 9000000000 9 (first_world three)

pub asked_poll : Poll
asked_poll = record {
  ballot = (start_election 9000000000 9 (first_world three).node).1;
  unsent = lit "db-1" ∷ lit "db-2" ∷ [];
  reached = [];
}

abbrev pub led : World
led = goroutine_ended true [] asked_poll [] (lit "db-1") (lit "db-2" ∷ []) asked.node

reached : Move asked led
unfolding poll_started others get_cluster_nodes names_from node_name show_ℕ str_eq asked_poll
reached = ended true [] [] asked_poll [] (lit "db-2" ∷ []) (lit "db-1") refl refl

pub leading : Run (node_name (lit "db") 0) three led
leading = then_move (then_move (begin 7 1000) (elect 9000000000 9 due_three)) reached

leads : led.node.state ≡ leader
unfolding asked_poll poll_started goroutine_ended vote_request_sent start_election become_leader
    get_cluster_nodes names_from
leads = refl

led_term : led.node.current_term ≡ pos 1
unfolding asked_poll poll_started goroutine_ended vote_request_sent start_election become_leader
    get_cluster_nodes names_from
led_term = refl

leader_counted_example :
    (p : Poll) × In p led.polls
    × (p.ballot.votes ≡ suc (length p.reached))
    × Distinct p.reached
    × ((x : Str) → In x p.reached → In x (get_cluster_nodes led.node) × (x ≢ lit "db-0"))
    × (3 < 2 * p.ballot.votes)
    × (p.ballot.votes ≤ 3)
unfolding node_name show_ℕ
leader_counted_example = leader_counted (omega arith) leading leads

-- The other request of the election is answered, and the monitor asks for a failover.
abbrev late_poll : Poll
late_poll = record {
  ballot = (vote_request_sent true asked_poll.ballot asked.node).1;
  unsent = lit "db-2" ∷ [];
  reached = lit "db-1" ∷ [];
}

abbrev later : World
later = goroutine_ended true [] late_poll [] (lit "db-2") [] led.node

answered : Move led later
unfolding goroutine_ended asked_poll
answered = ended true [] [] late_poll [] [] (lit "db-2") refl refl

leads_forever_example : LeadsIn (pos 1) (force_election later.node)
leads_forever_example =
    leads_forever (one_more (one_more none_yet answered) fail_over) (leads, led_term)

-- A cluster of one replica, whose node has held an election.
abbrev one_node : MysqlCluster
one_node = record three { spec = record three.spec { replicas = pos 1 } }

due_one : election_due 9000000000 (first_world one_node).node ≡ true
unfolding election_due
due_one = refl

alone_never_leads_example : (poll_started 9000000000 9 (first_world one_node)).node.state ≢ leader
alone_never_leads_example =
    alone_never_leads (omega arith) (then_move (begin 7 1000) (elect 9000000000 9 due_one))

stale_poll_elects_example :
    (((stale_node 9000000000 18000000000 9 4 node0 (true ∷ [])).state ≡ leader)
      ↔ (length (get_cluster_nodes node0) < 2 * (1 + count_sent (true ∷ []))))
    × ((stale_node 9000000000 18000000000 9 4 node0 (true ∷ [])).current_term
        ≡ int64 (int64 (node0.current_term +ℤ pos 1) +ℤ pos 1))
    × ((start_election 18000000000 4 (start_election 9000000000 9 node0).0).1.votes ≡ 1)
stale_poll_elects_example =
    stale_poll_elects 9000000000 18000000000 9 4 node0 (true ∷ [])
      (omega (arith, (get_cluster_nodes_lem node0).0))

run-IsUnused_example : IsUnused led.node
run-IsUnused_example = run-IsUnused leading
