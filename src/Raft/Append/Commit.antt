-- ===== src/Raft/Append/Commit.antt =====
-- The commit index.
use raft_based_mysql_cluster.Prelude.{
  ◌+◌, ◌≤◌, ℤ, pos, pos_part, ◌≤ℤ◌, ◌<ℤ◌, true, List, [], ◌∷◌, length, ◌≡◌, ◌≢◌, ◌⊎◌, inl, inr,
  arith,
}
use raft_based_mysql_cluster.Api.{LogEntry}
use raft_based_mysql_cluster.Raft.Clock.{Time}
use raft_based_mysql_cluster.Raft.Node.{RaftManager, min}
use raft_based_mysql_cluster.Raft.Append.{
  AppendRequest, replied, advance_commit, handle_append_entries,
}
use raft_based_mysql_cluster.Raft.Append.Check.{IsConsistent-le, stored}
use raft_based_mysql_cluster.Raft.Append.Accept.{
  accept_iff, handle-accepted, accepted_or_not, refused_keeps,
}
use raft_based_mysql_cluster.Raft.Append.Store.{log-handle, stored_shape}

-- The commit index lies within the log.
abbrev pub IsCommitted : RaftManager → Type 0
IsCommitted rm = rm.commit_index ≤ℤ pos (length rm.log)

-- The entries sent reach as far as the node has committed.
abbrev pub ReachesCommit : AppendRequest → RaftManager → Type 0
ReachesCommit req rm =
    (req.entries ≡ []) ⊎ (rm.commit_index ≤ℤ pos (pos_part req.prev_log_index + length req.entries))

advance_commit-IsCommitted :
    (c : ℤ) (rm : RaftManager)
    → IsCommitted rm
    → IsCommitted (advance_commit c rm) × (rm.commit_index ≤ℤ (advance_commit c rm).commit_index)
unfolding advance_commit min
advance_commit-IsCommitted c rm h = ground arith

stored-length-ge :
    (i c : ℤ) (es log : List LogEntry)
    → pos_part i ≤ length log
    → c ≤ℤ pos (length log)
    → (es ≡ []) ⊎ (c ≤ℤ pos (pos_part i + length es))
    → c ≤ℤ pos (length (stored i es log))
stored-length-ge i c [] log h within reach = within
stored-length-ge i c (e ∷ es) log h within (inl none_sent) = cc
stored-length-ge i c (e ∷ es) log h within (inr reach) =
    omega (arith, (stored_shape i (e ∷ es) log (λ e. cc) h).0)

-- If the commit index lies within the log, and the entries of the request, if it has any, reach as
-- far as the commit index, then after the request, accepted or not, the commit index still lies
-- within the log and has not gone back.
pub commit_kept :
    (now : Time) (req : AppendRequest) (rm : RaftManager)
    → IsCommitted rm
    → ReachesCommit req rm
    → IsCommitted (handle_append_entries now req rm).0
      × (rm.commit_index ≤ℤ (handle_append_entries now req rm).0.commit_index)
commit_kept now req rm within reach = elim (accepted_or_not now req rm) [
  | inl is ↦ rw (handle-accepted now req rm is) (
      advance_commit-IsCommitted req.leader_commit _ (
        stored-length-ge req.prev_log_index rm.commit_index req.entries rm.log
          (IsConsistent-le _ _ _ is.1) within reach))
  | inr not_accepted ↦
      let (same_log, same_commit) = refused_keeps now req rm not_accepted in
      (rw (same_log, same_commit) within, rw same_commit (omega arith))
]

advance_commit-stale :
    (c : ℤ) (rm : RaftManager)
    → c ≤ℤ rm.commit_index
    → (advance_commit c rm).commit_index ≡ rm.commit_index
unfolding advance_commit
advance_commit-stale c rm h = ground arith

-- An accepted request whose entries end before the commit index, and whose leader has committed no
-- more than the node, leaves a log that is shorter than the node's commit index.
pub committed_lost :
    (now : Time) (req : AppendRequest) (rm : RaftManager)
    → (handle_append_entries now req rm).1 ≡ replied true
    → req.entries ≢ []
    → pos (pos_part req.prev_log_index + length req.entries) <ℤ rm.commit_index
    → req.leader_commit ≤ℤ rm.commit_index
    → pos (length (handle_append_entries now req rm).0.log)
      <ℤ (handle_append_entries now req rm).0.commit_index
committed_lost now req rm h ne short old =
    let is = (accept_iff now req rm).0 h in
    let shape =
      stored_shape req.prev_log_index req.entries rm.log ne (IsConsistent-le _ _ _ is.1) in
    let commit : (handle_append_entries now req rm).0.commit_index ≡ rm.commit_index =
      rw (handle-accepted now req rm is) (advance_commit-stale req.leader_commit _ old) in
    rw (log-handle now req rm h, commit) (omega (arith, shape.0))
