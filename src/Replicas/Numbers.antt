-- ===== src/Replicas/Numbers.antt =====
-- The number in the name of a pod, and the expected numbers.
use raft_based_mysql_cluster.Prelude.{
  ℕ, zero, suc, ◌+◌, ◌≤◌, ◌<◌, ℤ, pos_part, Str, List, [], ◌∷◌, some, ◌≡◌, ◌≢◌, inl, inr, ◌↔◌, refl,
  ap, ◌∙◌, arith, length, In, All, Distinct, ℕ_discrete,
}
use raft_based_mysql_cluster.Prelude.Decimal.{
  IsDigit, show_02, show_02-All, show_02-ne, show_02-injective,
}
use raft_based_mysql_cluster.Replicas.{
  leading_digits, nonempty, match_here, find_submatch, extract_pod_numbers, numbers_from,
  generate_expected_pod_numbers, pod_name,
}

leading_digits-All : (s : Str) → All IsDigit s → leading_digits s ≡ s
unfolding leading_digits
leading_digits-All [] h = refl
leading_digits-All (c ∷ s) (d, ds) = rw (d, leading_digits-All s ds)

nonempty-some : (s : Str) → s ≢ [] → nonempty s ≡ some s
nonempty-some [] h = absurd (h refl)
nonempty-some (c ∷ s) h = refl

match_here-pod_name : (s : Str) → match_here (pod_name s) ≡ nonempty (leading_digits s)
unfolding match_here pod_name
match_here-pod_name s = refl

find_submatch-here :
    (c : ℕ) (s d : Str) → match_here (c ∷ s) ≡ some d → find_submatch (c ∷ s) ≡ some d
unfolding find_submatch
find_submatch-here c s d e = rw (e, find_submatch)

find_submatch-pod :
    (s : Str) → match_here (pod_name s) ≡ some s → find_submatch (pod_name s) ≡ some s
unfolding pod_name
find_submatch-pod s e = find_submatch-here b'm' _ s e

-- The name of a pod gives back the number that it is made from.
pub find_submatch-pod_name : (n : ℕ) → find_submatch (pod_name (show_02 n)) ≡ some (show_02 n)
find_submatch-pod_name n = find_submatch-pod (show_02 n) (
    match_here-pod_name (show_02 n)
    ∙ ap nonempty (leading_digits-All (show_02 n) (show_02-All n))
    ∙ nonempty-some (show_02 n) (show_02-ne n))

abbrev pub pod_names : List ℕ → List Str
pod_names [] = []
pod_names (n ∷ ns) = pod_name (show_02 n) ∷ pod_names ns

abbrev pub numbers : List ℕ → List Str
numbers [] = []
numbers (n ∷ ns) = show_02 n ∷ numbers ns

-- The numbers extracted from the names of pods are the numbers that the names are made from, in the
-- same order.
pub extract_pod_numbers-pod_names : (ns : List ℕ) → extract_pod_numbers (pod_names ns) ≡ numbers ns
unfolding extract_pod_numbers
extract_pod_numbers-pod_names [] = refl
extract_pod_numbers-pod_names (n ∷ ns) =
    rw (find_submatch-pod_name n, extract_pod_numbers)
      (ap (λ l. show_02 n ∷ l) (extract_pod_numbers-pod_names ns))

length-numbers_from : (i n : ℕ) → length (numbers_from i n) ≡ n
unfolding numbers_from
length-numbers_from i zero = refl
length-numbers_from i (suc n) = ap suc (length-numbers_from (suc i) n)

pub In-numbers_from :
    (x : Str) (i n : ℕ)
    → In x (numbers_from i n) ↔ ((k : ℕ) × (i ≤ k) × (k < i + n) × (x ≡ show_02 k))
unfolding numbers_from
In-numbers_from x i zero = (λ m. elim m [ ], λ (k, lo, hi, e). absurd (omega arith))
In-numbers_from x i (suc n) = (
  λ m. elim m [
    | inl e ↦ (i, omega arith, omega arith, e)
    | inr later ↦
        let (k, lo, hi, e) = (In-numbers_from x (suc i) n).0 later in
        (k, omega arith, omega arith, e)
  ],
  λ (k, lo, hi, e). elim (ℕ_discrete i k) [
    | yes same ↦ inl (rw same e)
    | no differ ↦ inr ((In-numbers_from x (suc i) n).1 (k, omega arith, omega arith, e))
  ],
)

Distinct-numbers_from : (i n : ℕ) → Distinct (numbers_from i n)
unfolding numbers_from
Distinct-numbers_from i zero = tt
Distinct-numbers_from i (suc n) = (
  λ m.
      let (k, lo, hi, e) = (In-numbers_from (show_02 i) (suc i) n).0 m in
      absurd (omega (arith, show_02-injective i k e)),
  Distinct-numbers_from (suc i) n,
)

-- The expected numbers are the numerals of 1 up to the count, all different; none for a negative
-- count.
pub generate_expected_lem :
    (count : ℤ)
    → (length (generate_expected_pod_numbers count) ≡ pos_part count)
      × Distinct (generate_expected_pod_numbers count)
      × ((x : Str)
          → In x (generate_expected_pod_numbers count)
            ↔ ((k : ℕ) × (1 ≤ k) × (k ≤ pos_part count) × (x ≡ show_02 k)))
unfolding generate_expected_pod_numbers
generate_expected_lem count = (
  length-numbers_from 1 (pos_part count),
  Distinct-numbers_from 1 (pos_part count),
  λ x. (
    λ m. let (k, lo, hi, e) = (In-numbers_from x 1 (pos_part count)).0 m in (k, lo, omega arith, e),
    λ (k, lo, hi, e). (In-numbers_from x 1 (pos_part count)).1 (k, lo, omega arith, e),
  ),
)
