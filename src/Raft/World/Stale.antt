-- ===== src/Raft/World/Stale.antt =====
-- A poll of an earlier term.
use raft_based_mysql_cluster.Prelude.{
  ℕ, ◌+◌, ◌*◌, ◌≤◌, ◌<◌, pos, int64, ◌+ℤ◌, Bool, List, ◌↔◌, ◌≡◌, refl, arith, length,
}
use raft_based_mysql_cluster.Api.{leader}
use raft_based_mysql_cluster.Raft.Clock.{Time}
use raft_based_mysql_cluster.Raft.Node.{RaftManager, get_cluster_nodes}
use raft_based_mysql_cluster.Raft.Election.{start_election}
use raft_based_mysql_cluster.Raft.Election.Tally.{tally, count_sent, tally-candidate}
use raft_based_mysql_cluster.Raft.Election.Conflict.{term-tally}

-- The node after a second election, once the goroutines of the first have ended with `replies`.
abbrev pub stale_node : Time → Time → ℕ → ℕ → RaftManager → List Bool → RaftManager
stale_node now later r r' rm replies =
    let first = start_election now r rm in tally replies first.1 (start_election later r' first.0).0

-- If a node holds a second election while the goroutines of the first are still sending, then the
-- requests that they get sent count in the first poll and make the node the leader of the second
-- term, exactly if with the node they are more than half of the nodes; the poll of the second term
-- has then counted the node alone.
pub stale_poll_elects :
    (now later : Time) (r r' : ℕ) (rm : RaftManager) (replies : List Bool)
    → 2 ≤ length (get_cluster_nodes rm)
    → (((stale_node now later r r' rm replies).state ≡ leader)
        ↔ (length (get_cluster_nodes rm) < 2 * (1 + count_sent replies)))
      × ((stale_node now later r r' rm replies).current_term
          ≡ int64 (int64 (rm.current_term +ℤ pos 1) +ℤ pos 1))
      × ((start_election later r' (start_election now r rm).0).1.votes ≡ 1)
unfolding start_election get_cluster_nodes
stale_poll_elects now later r r' rm replies two =
    let (wins, won) =
      tally-candidate replies (start_election now r rm).1
        (start_election later r' (start_election now r rm).0).0 refl (omega arith) in
    ((λ e. omega (arith, wins e), λ lt. won (omega arith)), term-tally replies _ _, refl)
