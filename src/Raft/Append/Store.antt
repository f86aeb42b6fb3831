-- ===== src/Raft/Append/Store.antt =====
-- What an accepted request leaves in the log.
use raft_based_mysql_cluster.Prelude.{
  ℕ, ◌+◌, ◌-◌, ◌≤◌, ◌<◌, ℤ, pos_part, true, List, [], ◌∷◌, ◌++◌, length, length-append,
  length-take_le, get_elem?, get_elem?-take, get_elem?-append_left, take, take-append_take, ◌≡◌,
  ◌≢◌, inl, inr, refl, arith, ap, ◌∙◌,
}
use raft_based_mysql_cluster.Api.{LogEntry}
use raft_based_mysql_cluster.Raft.Clock.{Time}
use raft_based_mysql_cluster.Raft.Node.{RaftManager}
use raft_based_mysql_cluster.Raft.Append.{
  AppendRequest, replied, advance_commit, handle_append_entries,
}
use raft_based_mysql_cluster.Raft.Append.Check.{IsConsistent, IsConsistent-le, stored}
use raft_based_mysql_cluster.Raft.Append.Accept.{accept_iff, handle-accepted, IsAccepted}

pub log-advance_commit : (c : ℤ) (rm : RaftManager) → (advance_commit c rm).log ≡ rm.log
unfolding advance_commit
log-advance_commit c rm = ground arith

pub term-advance_commit :
    (c : ℤ) (rm : RaftManager) → (advance_commit c rm).current_term ≡ rm.current_term
unfolding advance_commit
term-advance_commit c rm = ground arith

-- The log behind an accepted request is the log before it up to the named index, and then the
-- entries sent; without entries it is the log before it.
pub log-handle :
    (now : Time) (req : AppendRequest) (rm : RaftManager)
    → (handle_append_entries now req rm).1 ≡ replied true
    → (handle_append_entries now req rm).0.log ≡ stored req.prev_log_index req.entries rm.log
log-handle now req rm h =
    rw (handle-accepted now req rm ((accept_iff now req rm).0 h)) (log-advance_commit _ _)

-- Below the index nothing changes, and the length is the index and the number of entries.
pub stored_shape :
    (i : ℤ) (es log : List LogEntry)
    → es ≢ []
    → pos_part i ≤ length log
    → (length (stored i es log) ≡ pos_part i + length es)
      × ((j : ℕ) → j < pos_part i → get_elem? (stored i es log) j ≡ get_elem? log j)
stored_shape i [] log ne h = absurd (ne refl)
stored_shape i (e ∷ es) log ne h = (
  omega (
    arith,
    length-append {0} (take (pos_part i) log) (e ∷ es),
    length-take_le {0} (pos_part i) log h,
  ),
  λ j lt.
      get_elem?-append_left (take (pos_part i) log) (e ∷ es) j
        (omega (arith, length-take_le {0} (pos_part i) log h))
      ∙ get_elem?-take (pos_part i) log j lt,
)

stored-stored :
    (i : ℤ) (es log : List LogEntry)
    → pos_part i ≤ length log
    → stored i es (stored i es log) ≡ stored i es log
stored-stored i [] log h = refl
stored-stored i (e ∷ es) log h =
    ap (λ l. l ++ (e ∷ es)) (take-append_take (pos_part i) log (e ∷ es) h)

stored-IsConsistent :
    (i t : ℤ) (es log : List LogEntry) → IsConsistent i t log → IsConsistent i t (stored i es log)
stored-IsConsistent i t [] log h = h
stored-IsConsistent i t (e ∷ es) log (inl le) = inl le
stored-IsConsistent i t (e ∷ es) log (inr (x, p, at, term)) = inr (
  x,
  p,
  (stored_shape i (e ∷ es) log (λ h. cc) (IsConsistent-le i t log (inr (x, p, at, term)))).1
        (pos_part i - 1) (omega arith)
      ∙ at,
  term,
)

term-handle :
    (now : Time) (req : AppendRequest) (rm : RaftManager)
    → IsAccepted now req rm
    → (handle_append_entries now req rm).0.current_term ≡ req.term
term-handle now req rm is = rw (handle-accepted now req rm is) (term-advance_commit _ _)

-- An accepted request is acceptable to the node that it leaves.
IsAccepted-handle :
    (now later : Time) (req : AppendRequest) (rm : RaftManager)
    → IsAccepted now req rm
    → IsAccepted later req (handle_append_entries now req rm).0
IsAccepted-handle now later req rm is = (
  rw (term-handle now req rm is) (omega arith),
  rw (log-handle now req rm ((accept_iff now req rm).1 is))
      (stored-IsConsistent req.prev_log_index req.prev_log_term req.entries rm.log is.1),
  is.2,
)

-- A request that is accepted is accepted when it comes again, at any later time, and then leaves the
-- log as it is.
pub append_twice :
    (now later : Time) (req : AppendRequest) (rm : RaftManager)
    → (handle_append_entries now req rm).1 ≡ replied true
    → ((handle_append_entries later req (handle_append_entries now req rm).0).1 ≡ replied true)
      × ((handle_append_entries later req (handle_append_entries now req rm).0).0.log
          ≡ (handle_append_entries now req rm).0.log)
append_twice now later req rm h =
    let is = (accept_iff now req rm).0 h in
    let again = (accept_iff later req _).1 (IsAccepted-handle now later req rm is) in
    (
      again,
      log-handle later req _ again
          ∙ rw (log-handle now req rm h)
              (stored-stored req.prev_log_index req.entries rm.log (IsConsistent-le _ _ _ is.1)),
    )
