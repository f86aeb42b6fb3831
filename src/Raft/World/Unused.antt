-- ===== src/Raft/World/Unused.antt =====
-- The log of the node that the repository runs.
use raft_based_mysql_cluster.Prelude.{
  ℕ, ℤ, pos, int64, IsInt64, ◌+ℤ◌, Str, Bool, true, false, [], ◌≡◌, ◌⊎◌, inl, inr, refl, arith,
}
use raft_based_mysql_cluster.Api.{candidate, leader, MysqlCluster}
use raft_based_mysql_cluster.Raft.Clock.{Time}
use raft_based_mysql_cluster.Raft.Node.{RaftManager}
use raft_based_mysql_cluster.Raft.Election.{
  Ballot, start_election, become_leader, vote_request_sent,
}
use raft_based_mysql_cluster.Raft.Steps.{force_election}
use raft_based_mysql_cluster.Raft.World.{
  World, Move, elect, ended, fail_over, publish, Run, begin, then_move, poll_started,
  goroutine_ended,
}

-- The node has no entries and has committed none, its term is a value of int64, and whoever was
-- elected or asked in it voted for itself.
pub record IsUnused (rm : RaftManager) : Type 0 where
  pub no_entries : rm.log ≡ []
  pub nothing_committed : rm.commit_index ≡ pos 0
  pub typed : IsInt64 rm.current_term
  pub own_vote : (rm.voted_for ≡ []) ⊎ (rm.voted_for ≡ rm.node_id)
  pub voted_first : rm.state ≡ leader → rm.voted_for ≡ rm.node_id
  pub candidate_votes : rm.state ≡ candidate → rm.voted_for ≡ rm.node_id

int64-IsInt64 : (z : ℤ) → IsInt64 (int64 z)
int64-IsInt64 z = ground arith

elect-IsUnused :
    (now : Time) (r : ℕ) (rm : RaftManager) → IsUnused rm → IsUnused (start_election now r rm).0
unfolding start_election
elect-IsUnused now r rm h = record {
  no_entries = h.no_entries;
  nothing_committed = h.nothing_committed;
  typed = int64-IsInt64 (rm.current_term +ℤ pos 1);
  own_vote = inr refl;
  voted_first = λ e. refl;
  candidate_votes = λ e. refl;
}

sent-IsUnused :
    (ok : Bool) (ballot : Ballot) (rm : RaftManager)
    → IsUnused rm
    → IsUnused (vote_request_sent ok ballot rm).0
unfolding vote_request_sent become_leader
sent-IsUnused false ballot rm h = h
sent-IsUnused true ballot rm h = ground arith

Move-IsUnused : {w w' : World} → Move w w' → IsUnused w.node → IsUnused w'.node
unfolding poll_started goroutine_ended
Move-IsUnused {w} (elect now r due) h = elect-IsUnused now r w.node h
Move-IsUnused {w} (ended ok before after poll front back to at left) h =
    sent-IsUnused ok poll.ballot w.node h
Move-IsUnused {w} fail_over h = unfold force_election in ground arith
Move-IsUnused {w} (publish status) h = ground arith

-- Whatever moves the program makes, its node never has an entry in its log or an index committed:
-- nothing is ever replicated by Raft. Its term is a value of int64, its vote in the term is its
-- own or none, and its own whenever it is a candidate or leads.
pub run-IsUnused :
    {me : Str} {cluster : MysqlCluster} {w : World} → Run me cluster w → IsUnused w.node
run-IsUnused (begin r now) = record {
  no_entries = refl;
  nothing_committed = refl;
  typed = (omega arith, omega arith);
  own_vote = inl refl;
  voted_first = λ e. absurd (cc e);
  candidate_votes = λ e. absurd (cc e);
}
run-IsUnused (then_move run move) = Move-IsUnused move (run-IsUnused run)
