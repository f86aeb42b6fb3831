-- ===== src/Raft/Append/Check.antt =====
-- The consistency check of the log, and the log after entries are stored.
use raft_based_mysql_cluster.Prelude.{
  ℕ, zero, suc, ◌-◌, ◌≤◌, ◌<◌, ℤ, pos, negsuc, pos_part, ◌≤ℤ◌, ◌<ℤ◌, eqb_ℤ_iff, true, false, List,
  [], ◌∷◌, ◌++◌, none, some, length, get_elem?, get_elem?-some, take, ◌≡◌, ◌≢◌, ◌⊎◌, inl, inr, refl,
  arith, Option-cases,
}
use raft_based_mysql_cluster.Api.{LogEntry}
use raft_based_mysql_cluster.Raft.Node.{RaftManager}
use raft_based_mysql_cluster.Raft.Append.{
  AppendRequest, Outcome, replied, panicked, check_log, slice_to, store_entries, append_entries,
  advance_commit, after_check,
}

-- The log has an entry of the given term at a positive index; at no other is one asked for.
abbrev pub IsConsistent : ℤ → ℤ → List LogEntry → Type 0
IsConsistent prev_index prev_term log =
    (prev_index ≤ℤ pos 0)
    ⊎ ((e : LogEntry) × (pos 0 <ℤ prev_index)
        × (get_elem? log (pos_part prev_index - 1) ≡ some e)
        × (e.term ≡ prev_term))

-- The index fits where entries are stored.
abbrev pub CanStore : ℤ → List LogEntry → Type 0
CanStore i es = (es ≡ []) ⊎ (pos 0 ≤ℤ i)

get_elem?-lt {ℓ} :
    {A : Type ℓ} (xs : List A) (i : ℕ) (x : A) → get_elem? xs i ≡ some x → i < length xs
get_elem?-lt [] i x h = cc
get_elem?-lt (y ∷ ys) zero x h = omega arith
get_elem?-lt (y ∷ ys) (suc i) x h = omega (arith, get_elem?-lt ys i x h)

pub check_log_pass :
    (i t : ℤ) (log : List LogEntry) → check_log i t log ≡ replied true → IsConsistent i t log
unfolding check_log
check_log_pass (negsuc n) t log h = inl (omega arith)
check_log_pass (pos zero) t log h = inl (omega arith)
check_log_pass (pos (suc n)) t log h = elim (Option-cases (get_elem? log n)) [
  | inl e ↦ ground (arith, get_elem?-some log n)
  | inr (x, e) ↦ inr (x, omega arith, ground arith, ground (arith, eqb_ℤ_iff x.term t))
]

pub check_log_accepts :
    (i t : ℤ) (log : List LogEntry) → IsConsistent i t log → check_log i t log ≡ replied true
unfolding check_log
check_log_accepts i t log (inl le) = ground arith
check_log_accepts i t log (inr (x, p, e, te)) =
    ground (arith, get_elem?-lt log (pos_part i - 1) x, eqb_ℤ_iff x.term t)

check_log_total : (i t : ℤ) (log : List LogEntry) → check_log i t log ≢ panicked
unfolding check_log
check_log_total (negsuc n) t log h = ground arith
check_log_total (pos zero) t log h = ground arith
check_log_total (pos (suc n)) t log h = ground (arith, get_elem?-some log n)

-- A consistent index lies within the log.
pub IsConsistent-le :
    (i t : ℤ) (log : List LogEntry) → IsConsistent i t log → pos_part i ≤ length log
IsConsistent-le (pos n) t log (inl le) = omega arith
IsConsistent-le (negsuc n) t log (inl le) = omega arith
IsConsistent-le i t log (inr (x, p, e, te)) = omega (arith, get_elem?-lt log (pos_part i - 1) x e)

-- The log after the entries are stored behind the index.
abbrev pub stored : ℤ → List LogEntry → List LogEntry → List LogEntry
stored i [] log = log
stored i (e ∷ es) log = take (pos_part i) log ++ (e ∷ es)

pub store_entries-stored :
    (i : ℤ) (es log : List LogEntry)
    → CanStore i es
    → pos_part i ≤ length log
    → store_entries i es log ≡ some (stored i es log)
unfolding store_entries slice_to
store_entries-stored i [] log c h = refl
store_entries-stored (pos n) (e ∷ es) log c h = ground arith
store_entries-stored (negsuc n) (e ∷ es) log c h = ground arith

pub store_entries-none :
    (i : ℤ) (es log : List LogEntry) → es ≢ [] → i <ℤ pos 0 → store_entries i es log ≡ none
unfolding store_entries slice_to
store_entries-none i [] log ne h = absurd (ne refl)
store_entries-none (pos n) (e ∷ es) log ne h = absurd (omega arith)
store_entries-none (negsuc n) (e ∷ es) log ne h = refl

pub ℤ-cases : (a b : ℤ) → (a <ℤ b) ⊎ (b ≤ℤ a)
ℤ-cases a b = omega arith

pub CanStore-cases : (i : ℤ) (es : List LogEntry) → CanStore i es ⊎ ((es ≢ []) × (i <ℤ pos 0))
CanStore-cases i [] = inl (inl refl)
CanStore-cases (pos n) (e ∷ es) = inl (inr (omega arith))
CanStore-cases (negsuc n) (e ∷ es) = inr (λ h. cc, omega arith)

pub append_entries-some :
    (req : AppendRequest) (rm : RaftManager) (log : List LogEntry)
    → store_entries req.prev_log_index req.entries rm.log ≡ some log
    → after_check req rm (replied true)
      ≡ (advance_commit req.leader_commit (record rm { log = log }), replied true)
unfolding after_check append_entries
append_entries-some req rm log e = rw (e, after_check, append_entries)

pub append_entries-none :
    (req : AppendRequest) (rm : RaftManager)
    → store_entries req.prev_log_index req.entries rm.log ≡ none
    → after_check req rm (replied true) ≡ (rm, panicked)
unfolding after_check append_entries
append_entries-none req rm e = rw (e, after_check, append_entries)

pub after_check-refused :
    (req : AppendRequest) (rm : RaftManager)
    → after_check req rm (replied false) ≡ (rm, replied false)
unfolding after_check
after_check-refused req rm = refl

pub check_log-cases :
    (i t : ℤ) (log : List LogEntry)
    → (check_log i t log ≡ replied true) ⊎ (check_log i t log ≡ replied false)
check_log-cases i t log = go (check_log i t log) refl
  where
    go :
        (o : Outcome)
        → check_log i t log ≡ o
        → (check_log i t log ≡ replied true) ⊎ (check_log i t log ≡ replied false)
    go (replied true) e = inl e
    go (replied false) e = inr e
    go panicked e = absurd (check_log_total i t log e)
