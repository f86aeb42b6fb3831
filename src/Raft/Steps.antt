-- ===== src/Raft/Steps.antt =====
-- A node over time: whatever may change it, as a step relation, and what no step changes.
use raft_based_mysql_cluster.Prelude.{
  ℕ, ℤ, pos, ◌≤ℤ◌, int64-succ, Str, Bool, true, false, [], ◌≡◌, inl, inr, refl, arith,
  if◌then◌else◌,
}
use raft_based_mysql_cluster.Api.{follower, MysqlCluster, MysqlClusterSpec, MysqlClusterStatus}
use raft_based_mysql_cluster.Raft.Clock.{Time, zero_time}
use raft_based_mysql_cluster.Raft.Node.{RaftManager, new_raft_manager}
use raft_based_mysql_cluster.Raft.Vote.{VoteRequest, handle_vote_request}
use raft_based_mysql_cluster.Raft.Append.{AppendRequest, handle_append_entries, advance_commit}
use raft_based_mysql_cluster.Raft.Append.Accept.{
  handle-stale, handle-broken, handle-inconsistent, handle-cases, handle-accepted, handle-fresh,
}
use raft_based_mysql_cluster.Raft.Append.Check.{ℤ-cases}
use raft_based_mysql_cluster.Raft.Election.Conflict.{term-vote_request_sent}
use raft_based_mysql_cluster.Raft.Vote.Once.{IsOpen}
use raft_based_mysql_cluster.Raft.Election.{
  Ballot, election_due, start_election, become_leader, vote_request_sent, is_leader,
}

-- The first part of HandleRaftBasedFailover of raft_mysql_integration.go: a node that does not lead
-- is made to start an election at the next round of its timer.
unfoldable pub force_election : RaftManager → RaftManager
force_election rm =
    if is_leader rm.state then rm else record rm { state = follower; last_heartbeat = zero_time }

-- A write to the status of the cluster that the node shares with its monitor.
abbrev pub write_status : MysqlClusterStatus → RaftManager → RaftManager
write_status status rm = record rm { cluster = record rm.cluster { status = status } }

-- A goroutine of any ballot may end at any time.
pub data Step (rm : RaftManager) : RaftManager → Type 0 where
  time_out : (now : Time) (r : ℕ) → election_due now rm ≡ true → Step rm (start_election now r rm).0
  sent : (ok : Bool) (ballot : Ballot) → Step rm (vote_request_sent ok ballot rm).0
  asked : (now : Time) (req : VoteRequest) → Step rm (handle_vote_request now req rm).0
  told : (now : Time) (req : AppendRequest) → Step rm (handle_append_entries now req rm).0
  forced : Step rm (force_election rm)
  published : (status : MysqlClusterStatus) → Step rm (write_status status rm)

-- The node after any number of steps.
pub data Reach (node_id : Str) (cluster : MysqlCluster) : RaftManager → Type 0 where
  start : (r : ℕ) (now : Time) → Reach node_id cluster (new_raft_manager node_id cluster r now)
  next : {rm rm' : RaftManager} → Reach node_id cluster rm → Step rm rm' → Reach node_id cluster rm'

-- The fields that only the constructor writes.
pub record IsUntouched (me : Str) (wanted : MysqlClusterSpec) (rm : RaftManager) : Type 0 where
  pub id : rm.node_id ≡ me
  pub spec : rm.cluster.spec ≡ wanted
  pub no_leader_id : rm.leader_id ≡ []
  pub no_peers : rm.peers ≡ []
  pub no_interval : rm.heartbeat_interval ≡ pos 0
  pub no_applied : rm.last_applied ≡ pos 0

module _ {me : Str} {wanted : MysqlClusterSpec} where
  start_election-IsUntouched :
      (now : Time) (r : ℕ) (rm : RaftManager)
      → IsUntouched me wanted rm
      → IsUntouched me wanted (start_election now r rm).0
  unfolding start_election
  start_election-IsUntouched now r rm h = ground arith

  become_leader-IsUntouched :
      (rm : RaftManager) → IsUntouched me wanted rm → IsUntouched me wanted (become_leader rm).0
  unfolding become_leader
  become_leader-IsUntouched rm h = ground arith

  sent-IsUntouched :
      (ok : Bool) (ballot : Ballot) (rm : RaftManager)
      → IsUntouched me wanted rm
      → IsUntouched me wanted (vote_request_sent ok ballot rm).0
  unfolding vote_request_sent
  sent-IsUntouched true ballot rm h = ground (arith, become_leader-IsUntouched rm)
  sent-IsUntouched false ballot rm h = h

  asked-IsUntouched :
      (now : Time) (req : VoteRequest) (rm : RaftManager)
      → IsUntouched me wanted rm
      → IsUntouched me wanted (handle_vote_request now req rm).0
  unfolding handle_vote_request
  asked-IsUntouched now req rm h = ground arith

  advance_commit-IsUntouched :
      (c : ℤ) (rm : RaftManager)
      → IsUntouched me wanted rm
      → IsUntouched me wanted (advance_commit c rm)
  unfolding advance_commit
  advance_commit-IsUntouched c rm h = ground arith

  told-IsUntouched :
      (now : Time) (req : AppendRequest) (rm : RaftManager)
      → IsUntouched me wanted rm
      → IsUntouched me wanted (handle_append_entries now req rm).0
  told-IsUntouched now req rm h = elim (handle-cases now req rm) [
    | inl is ↦ rw (handle-accepted now req rm is) (advance_commit-IsUntouched _ _ (ground arith))
    | inr (inl stale) ↦ rw (handle-stale now req rm stale) (ground arith)
    | inr (inr (inl (fresh, broken))) ↦ rw (handle-broken now req rm fresh broken) (ground arith)
    | inr (inr (inr (fresh, differs))) ↦
        rw (handle-inconsistent now req rm fresh differs) (ground arith)
  ]

  Step-IsUntouched :
      {rm rm' : RaftManager} → Step rm rm' → IsUntouched me wanted rm → IsUntouched me wanted rm'
  Step-IsUntouched {rm} (time_out now r due) h = start_election-IsUntouched now r rm h
  Step-IsUntouched {rm} (sent ok ballot) h = sent-IsUntouched ok ballot rm h
  Step-IsUntouched {rm} (asked now req) h = asked-IsUntouched now req rm h
  Step-IsUntouched {rm} (told now req) h = told-IsUntouched now req rm h
  Step-IsUntouched {rm} forced h = unfold force_election in ground arith
  Step-IsUntouched {rm} (published status) h = ground arith

-- Whatever happens to a node, its name, the cluster's specification, the leader that it knows, its
-- peers, the interval of heartbeats and the index of the last applied entry are as the constructor
-- left them: the last four empty or 0.
pub Reach-IsUntouched :
    {me : Str} {cluster : MysqlCluster} {rm : RaftManager}
    → Reach me cluster rm
    → IsUntouched me cluster.spec rm
Reach-IsUntouched (start r now) = record {
  id = refl;
  spec = refl;
  no_leader_id = refl;
  no_peers = refl;
  no_interval = refl;
  no_applied = refl;
}
Reach-IsUntouched (next reach step) = Step-IsUntouched step (Reach-IsUntouched reach)

asked-term :
    (now : Time) (req : VoteRequest) (rm : RaftManager)
    → rm.current_term ≤ℤ (handle_vote_request now req rm).0.current_term
unfolding handle_vote_request
asked-term now req rm = ground arith

told-term :
    (now : Time) (req : AppendRequest) (rm : RaftManager)
    → rm.current_term ≤ℤ (handle_append_entries now req rm).0.current_term
told-term now req rm = elim (ℤ-cases req.term rm.current_term) [
  | inl stale ↦ rw (handle-stale now req rm stale) (omega arith)
  | inr fresh ↦ rw (handle-fresh now req rm fresh).0 fresh
]

-- No step takes a node back to an earlier term, as long as its counter of terms is below its bound.
pub Step-term :
    {rm rm' : RaftManager} → Step rm rm' → IsOpen rm → rm.current_term ≤ℤ rm'.current_term
Step-term {rm} (time_out now r due) room =
    unfold start_election in omega (arith, int64-succ rm.current_term room.0 room.1)
Step-term {rm} (sent ok ballot) room = rw (term-vote_request_sent ok ballot rm) (omega arith)
Step-term {rm} (asked now req) room = asked-term now req rm
Step-term {rm} (told now req) room = told-term now req rm
Step-term forced room = unfold force_election in ground arith
Step-term (published status) room = omega arith
