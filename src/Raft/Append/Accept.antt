-- ===== src/Raft/Append/Accept.antt =====
-- When HandleAppendEntries accepts, refuses and panics.
use raft_based_mysql_cluster.Prelude.{
  ℤ, pos, ◌≤ℤ◌, ◌<ℤ◌, true, false, [], ◌≡◌, ◌≢◌, ◌⊎◌, inl, inr, ◌↔◌, refl, arith, ap,
}
use raft_based_mysql_cluster.Api.{RaftState}
use raft_based_mysql_cluster.Raft.Clock.{Time}
use raft_based_mysql_cluster.Raft.Node.{RaftManager}
use raft_based_mysql_cluster.Raft.Append.{
  AppendRequest, Outcome, replied, panicked, check_log, advance_commit, after_check,
  handle_append_entries,
}
use raft_based_mysql_cluster.Raft.Append.Check.{
  IsConsistent, CanStore, IsConsistent-le, check_log_pass, check_log_accepts, check_log-cases,
  stored, store_entries-stored, store_entries-none, CanStore-cases, ℤ-cases, append_entries-some,
  append_entries-none, after_check-refused,
}

-- The node after the second comparison of the terms, in a term that is not stale.
abbrev pub following : Time → AppendRequest → RaftManager → RaftManager
following now req rm = record rm {
  last_heartbeat = now;
  current_term = req.term;
  state = RaftState.follower;
  voted_for = [];
}

module _ (now : Time) (req : AppendRequest) (rm : RaftManager) where
  -- A request of a stale term only notes the time.
  pub handle-stale :
      req.term <ℤ rm.current_term
      → handle_append_entries now req rm ≡ (record rm { last_heartbeat = now }, replied false)
  unfolding handle_append_entries
  handle-stale h = ground arith

  pub handle-check :
      rm.current_term ≤ℤ req.term
      → handle_append_entries now req rm
        ≡ after_check req
            (following now req rm)
            (check_log req.prev_log_index req.prev_log_term rm.log)
  unfolding handle_append_entries
  handle-check h = ground arith

  abbrev pub IsAccepted : Type 0
  IsAccepted =
      (rm.current_term ≤ℤ req.term)
      × IsConsistent req.prev_log_index req.prev_log_term rm.log
      × CanStore req.prev_log_index req.entries

  -- What an accepted request leaves.
  abbrev pub accepted : RaftManager
  accepted =
      advance_commit req.leader_commit
        (record (following now req rm) { log = stored req.prev_log_index req.entries rm.log })

  pub handle-accepted : IsAccepted → handle_append_entries now req rm ≡ (accepted, replied true)
  handle-accepted (fresh, same, fits) =
      rw (handle-check fresh, check_log_accepts _ _ _ same)
        (append_entries-some req (following now req rm) _
          (store_entries-stored _ _ _ fits (IsConsistent-le _ _ _ same)))

  -- The request breaks the log's bounds: it names a negative index and has entries.
  abbrev pub IsBroken : Type 0
  IsBroken = (req.entries ≢ []) × (req.prev_log_index <ℤ pos 0)

  IsBroken-IsConsistent : IsBroken → IsConsistent req.prev_log_index req.prev_log_term rm.log
  IsBroken-IsConsistent (ne, neg) = inl (omega arith)

  pub handle-broken :
      rm.current_term ≤ℤ req.term
      → IsBroken
      → handle_append_entries now req rm ≡ (following now req rm, panicked)
  handle-broken fresh broken =
      rw (handle-check fresh, check_log_accepts _ _ _ (IsBroken-IsConsistent broken))
        (append_entries-none req (following now req rm)
          (store_entries-none _ _ _ broken.0 broken.1))

  pub handle-inconsistent :
      rm.current_term ≤ℤ req.term
      → (¬ IsConsistent req.prev_log_index req.prev_log_term rm.log)
      → handle_append_entries now req rm ≡ (following now req rm, replied false)
  handle-inconsistent fresh differs =
      elim (check_log-cases req.prev_log_index req.prev_log_term rm.log) [
        | inl passed ↦ absurd (differs (check_log_pass _ _ _ passed))
        | inr refused ↦ rw (handle-check fresh, refused) (after_check-refused req _)
      ]

  pub handle-cases :
      IsAccepted
      ⊎ ((req.term <ℤ rm.current_term)
          ⊎ (((rm.current_term ≤ℤ req.term) × IsBroken)
              ⊎ ((rm.current_term ≤ℤ req.term)
                  × (¬ IsConsistent req.prev_log_index req.prev_log_term rm.log))))
  handle-cases = elim (ℤ-cases req.term rm.current_term) [
    | inl stale ↦ inr (inl stale)
    | inr fresh ↦ elim (check_log-cases req.prev_log_index req.prev_log_term rm.log) [
      | inl passed ↦ elim (CanStore-cases req.prev_log_index req.entries) [
        | inl fits ↦ inl (fresh, check_log_pass _ _ _ passed, fits)
        | inr broken ↦ inr (inr (inl (fresh, broken)))
      ]
      | inr refused ↦ inr (inr (inr (fresh, λ same. cc (check_log_accepts _ _ _ same))))
    ]
  ]

  -- A reply, and the one that a case gives.
  reply :
      {rm' : RaftManager} {o : Outcome}
      → handle_append_entries now req rm ≡ (rm', o)
      → (handle_append_entries now req rm).1 ≡ o
  reply e = ap (λ (p : RaftManager × Outcome). p.1) e

  -- HandleAppendEntries answers true exactly if the request's term is not stale, the log has an
  -- entry of the named term at the named index where that is positive, and the index is not
  -- negative where entries are sent.
  pub accept_iff : ((handle_append_entries now req rm).1 ≡ replied true) ↔ IsAccepted
  accept_iff = (
    λ h. elim handle-cases [
      | inl is ↦ is
      | inr (inl stale) ↦ cc (h, reply (handle-stale stale))
      | inr (inr (inl (fresh, broken))) ↦ cc (h, reply (handle-broken fresh broken))
      | inr (inr (inr (fresh, differs))) ↦ cc (h, reply (handle-inconsistent fresh differs))
    ],
    λ is. reply (handle-accepted is),
  )

  -- HandleAppendEntries panics exactly if the term is not stale, entries are sent and their index
  -- is negative.
  pub panic_iff :
      ((handle_append_entries now req rm).1 ≡ panicked) ↔ ((rm.current_term ≤ℤ req.term) × IsBroken)
  panic_iff = (
    λ h. elim handle-cases [
      | inl is ↦ cc (h, reply (handle-accepted is))
      | inr (inl stale) ↦ cc (h, reply (handle-stale stale))
      | inr (inr (inl broken)) ↦ broken
      | inr (inr (inr (fresh, differs))) ↦ cc (h, reply (handle-inconsistent fresh differs))
    ],
    λ h. reply (handle-broken h.0 h.1),
  )

  -- Whatever the request, the log after it is the log before it, unless the request is accepted.
  pub refused_keeps :
      ¬ IsAccepted
      → ((handle_append_entries now req rm).0.log ≡ rm.log)
        × ((handle_append_entries now req rm).0.commit_index ≡ rm.commit_index)
  refused_keeps not_accepted = elim handle-cases [
    | inl is ↦ absurd (not_accepted is)
    | inr (inl stale) ↦ rw (handle-stale stale) (refl, refl)
    | inr (inr (inl (fresh, broken))) ↦ rw (handle-broken fresh broken) (refl, refl)
    | inr (inr (inr (fresh, differs))) ↦ rw (handle-inconsistent fresh differs) (refl, refl)
  ]

pub accepted_or_not :
    (now : Time) (req : AppendRequest) (rm : RaftManager)
    → IsAccepted now req rm ⊎ (¬ IsAccepted now req rm)
accepted_or_not now req rm = go (handle_append_entries now req rm).1 refl
  where
    go :
        (o : Outcome)
        → (handle_append_entries now req rm).1 ≡ o
        → IsAccepted now req rm ⊎ (¬ IsAccepted now req rm)
    go (replied true) e = inl ((accept_iff now req rm).0 e)
    go (replied false) e = inr (λ is. cc ((accept_iff now req rm).1 is))
    go panicked e = inr (λ is. cc ((accept_iff now req rm).1 is))

advance_commit-kept :
    (c : ℤ) (rm : RaftManager)
    → ((advance_commit c rm).current_term ≡ rm.current_term)
      × ((advance_commit c rm).voted_for ≡ rm.voted_for)
      × ((advance_commit c rm).state ≡ rm.state)
unfolding advance_commit
advance_commit-kept c rm = ground arith

-- A request of a term that is not stale makes the node a follower of that term without a vote,
-- whether it is accepted, refused or panics.
pub handle-fresh :
    (now : Time) (req : AppendRequest) (rm : RaftManager)
    → rm.current_term ≤ℤ req.term
    → ((handle_append_entries now req rm).0.current_term ≡ req.term)
      × ((handle_append_entries now req rm).0.voted_for ≡ [])
      × ((handle_append_entries now req rm).0.state ≡ RaftState.follower)
handle-fresh now req rm fresh = elim (handle-cases now req rm) [
  | inl is ↦ rw (handle-accepted now req rm is) (advance_commit-kept _ _)
  | inr (inl stale) ↦ absurd (omega arith)
  | inr (inr (inl (_, broken))) ↦ rw (handle-broken now req rm fresh broken) (refl, refl, refl)
  | inr (inr (inr (_, differs))) ↦
      rw (handle-inconsistent now req rm fresh differs) (refl, refl, refl)
]
