-- ===== src/Raft/World.antt =====
-- The one node that the repository runs, with the goroutines that its elections have started.
-- Nothing in the repository reads a message, so no vote request and no append reaches a node: the
-- steps are those of its timers, its goroutines, its monitor and the failover.
pub mod Leader
pub mod Alone
pub mod Fair
pub mod Count
pub mod Stale
pub mod Unused
use raft_based_mysql_cluster.Prelude.{
  ℕ, Str, Bool, true, false, List, [], ◌∷◌, ◌++◌, ◌≡◌, refl, if◌then◌else◌,
}
use raft_based_mysql_cluster.Api.{MysqlCluster, MysqlClusterStatus}
use raft_based_mysql_cluster.Raft.Clock.{Time}
use raft_based_mysql_cluster.Raft.Node.{RaftManager, new_raft_manager, get_cluster_nodes, others}
use raft_based_mysql_cluster.Raft.Election.{Ballot, election_due, start_election, vote_request_sent}
use raft_based_mysql_cluster.Raft.Steps.{force_election, write_status, Step, Reach}

-- One call of startElection: its shared variables, and the nodes whose goroutines have not ended.
-- `reached` is no variable of the code: it records the nodes whose goroutines have ended with a
-- request that was sent.
pub record Poll : Type 0 where
  pub ballot : Ballot
  pub unsent : List Str
  pub reached : List Str

pub record World : Type 0 where
  pub node : RaftManager
  pub polls : List Poll

-- What startElection leaves: a goroutine for each other node.
unfoldable pub poll_started : Time → ℕ → World → World
poll_started now r w = record {
  node = (start_election now r w.node).0;
  polls =
      record {
        ballot = (start_election now r w.node).1;
        unsent = others w.node.node_id (get_cluster_nodes w.node);
        reached = [];
      }
      ∷ w.polls;
}

-- The goroutine of `to` in the poll between `before` and `after` ends, with the result of
-- sendVoteRequest; `rest` are the goroutines of the poll that go on.
unfoldable pub goroutine_ended :
    Bool → List Poll → Poll → List Poll → Str → List Str → RaftManager → World
goroutine_ended ok before poll after to rest rm = record {
  node = (vote_request_sent ok poll.ballot rm).0;
  polls =
      before
      ++ record {
        ballot = (vote_request_sent ok poll.ballot rm).1;
        unsent = rest;
        reached = if ok then to ∷ poll.reached else poll.reached;
      }
        ∷ after;
}

pub data Move (w : World) : World → Type 0 where
  elect : (now : Time) (r : ℕ) → election_due now w.node ≡ true → Move w (poll_started now r w)
  ended :
      (ok : Bool) (before after : List Poll) (poll : Poll) (front back : List Str) (to : Str)
      → w.polls ≡ before ++ poll ∷ after
      → poll.unsent ≡ front ++ to ∷ back
      → Move w (goroutine_ended ok before poll after to (front ++ back) w.node)
  fail_over : Move w (record w { node = force_election w.node })
  publish : (status : MysqlClusterStatus) → Move w (record w { node = write_status status w.node })

pub data Run (node_id : Str) (cluster : MysqlCluster) : World → Type 0 where
  begin :
      (r : ℕ) (now : Time)
      → Run node_id cluster (record { node = new_raft_manager node_id cluster r now; polls = [] })
  then_move : {w w' : World} → Run node_id cluster w → Move w w' → Run node_id cluster w'

Move-Step : {w w' : World} → Move w w' → Step w.node w'.node
unfolding poll_started goroutine_ended
Move-Step (elect now r due) = Step.time_out now r due
Move-Step (ended ok before after poll front back to at left) = Step.sent ok poll.ballot
Move-Step fail_over = Step.forced
Move-Step (publish status) = Step.published status

-- The node of a run is one that the steps of a node reach.
pub Run-Reach :
    {me : Str} {cluster : MysqlCluster} {w : World} → Run me cluster w → Reach me cluster w.node
Run-Reach (begin r now) = Reach.start r now
Run-Reach (then_move run move) = Reach.next (Run-Reach run) (Move-Step move)
