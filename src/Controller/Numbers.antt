-- ===== src/Controller/Numbers.antt =====
-- The numbers of the loops of init.
use raft_based_mysql_cluster.Prelude.{ℕ, zero, suc, ◌+◌, ◌≤◌, ◌<◌, inl, inr, arith, In, ℕ_discrete}
use raft_based_mysql_cluster.Controller.{count_up}

pub In-count_up : (first n i : ℕ) → first ≤ i → i < first + n → In i (count_up first n)
unfolding count_up
In-count_up first zero i lo hi = absurd (omega arith)
In-count_up first (suc n) i lo hi = elim (ℕ_discrete i first) [
  | yes e ↦ inl e
  | no ne ↦ inr (In-count_up (suc first) n i (omega arith) (omega arith))
]

pub count_up-le : (first n i : ℕ) → In i (count_up first n) → first ≤ i
unfolding count_up
count_up-le first zero i m = elim m [ ]
count_up-le first (suc n) i (inl e) = omega (arith, e)
count_up-le first (suc n) i (inr m) = omega (arith, count_up-le (suc first) n i m)

pub count_up-lt : (first n i : ℕ) → In i (count_up first n) → i < first + n
unfolding count_up
count_up-lt first zero i m = elim m [ ]
count_up-lt first (suc n) i (inl e) = omega (arith, e)
count_up-lt first (suc n) i (inr m) = omega (arith, count_up-lt (suc first) n i m)
