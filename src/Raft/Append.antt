-- ===== src/Raft/Append.antt =====
-- HandleAppendEntries. The modules below prove when it accepts, what it leaves in the log, how it
-- moves the commit index, and what it does to the vote.
pub mod Check
pub mod Accept
pub mod Store
pub mod Commit
pub mod Revote
use raft_based_mysql_cluster.Prelude.{
  ℕ, ◌-◌, ℤ, pos, negsuc, pos_part, ltb_ℤ, leb_ℤ, eqb_ℤ, Str, Bool, true, false, not, ◌&&◌, List,
  [], ◌∷◌, ◌++◌, Option, none, some, length, get_elem?, take, ltb, leb, if◌then◌else◌,
}
use raft_based_mysql_cluster.Api.{follower, LogEntry}
use raft_based_mysql_cluster.Raft.Clock.{Time}
use raft_based_mysql_cluster.Raft.Node.{RaftManager, min}

-- The arguments of the handler.
pub record AppendRequest : Type 0 where
  pub leader_id : Str
  pub term : ℤ
  pub prev_log_index : ℤ
  pub prev_log_term : ℤ
  pub entries : List LogEntry
  pub leader_commit : ℤ

-- What a handler comes to: its Boolean result, or a panic by an index out of range.
pub data Outcome : Type 0 where
  replied : Bool → Outcome
  panicked : Outcome

-- The consistency check of the log, which ends the handler unless it is `replied true`.
unfoldable pub check_log : ℤ → ℤ → List LogEntry → Outcome
check_log prev_log_index prev_log_term log =
    if ltb_ℤ (pos 0) prev_log_index
    then (if ltb_ℤ (pos (length log)) prev_log_index
        then replied false
        else elim (get_elem? log (pos_part prev_log_index - 1)) [
          | none ↦ panicked
          | some e ↦
              if ltb_ℤ (pos 0) prev_log_index && not (eqb_ℤ e.term prev_log_term)
              then replied false
              else replied true
        ])
    else replied true

-- log[:i] for an index that the check of the request has let pass; `none` is the panic of a negative
-- one. Go also takes an index up to the capacity of the slice, and no such index passes the check.
unfoldable pub slice_to : List LogEntry → ℤ → Option (List LogEntry)
slice_to log (pos i) = if leb i (length log) then some (take i log) else none
slice_to log (negsuc i) = none

-- `if len(entries) > 0 { rm.log = append(rm.log[:prevLogIndex], entries...) }`
unfoldable pub store_entries : ℤ → List LogEntry → List LogEntry → Option (List LogEntry)
store_entries prev_log_index [] log = some log
store_entries prev_log_index (e ∷ entries) log = elim (slice_to log prev_log_index) [
  | none ↦ none
  | some kept ↦ some (kept ++ (e ∷ entries))
]

unfoldable pub advance_commit : ℤ → RaftManager → RaftManager
advance_commit leader_commit rm =
    if ltb_ℤ rm.commit_index leader_commit
    then record rm { commit_index = min leader_commit (pos (length rm.log)) }
    else rm

-- The part of the handler after the consistency check.
unfoldable pub append_entries : AppendRequest → RaftManager → RaftManager × Outcome
append_entries req rm = elim (store_entries req.prev_log_index req.entries rm.log) [
  | none ↦ (rm, panicked)
  | some log ↦ (advance_commit req.leader_commit (record rm { log = log }), replied true)
]

-- The second comparison of the terms.
unfoldable pub follow : ℤ → RaftManager → RaftManager
follow term rm =
    if leb_ℤ rm.current_term term
    then record rm { current_term = term; state = follower; voted_for = [] }
    else rm

-- What the check of the log leads to.
unfoldable pub after_check : AppendRequest → RaftManager → Outcome → RaftManager × Outcome
after_check req rm (replied true) = append_entries req rm
after_check req rm (replied false) = (rm, replied false)
after_check req rm panicked = (rm, panicked)

-- HandleAppendEntries, at the time `now`.
unfoldable pub handle_append_entries : Time → AppendRequest → RaftManager → RaftManager × Outcome
unfolding follow after_check
handle_append_entries now req rm =
    let rm1 = record rm { last_heartbeat = now } in
    if ltb_ℤ req.term rm1.current_term
    then (rm1, replied false)
    else let rm2 = follow req.term rm1 in
      after_check req rm2 (check_log req.prev_log_index req.prev_log_term rm2.log)
