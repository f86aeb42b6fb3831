-- ===== src/Controller/Repair.antt =====
-- What reconcileReplicas promises of the set of the cluster's pods.
use mathlib.Core.Quot
use raft_based_mysql_cluster.Prelude.{
  ℕ, ℤ, pos, pos_part, eqb_ℤ, Str, List, [], ◌∷◌, ◌++◌, ◌≡◌, ◌⊎◌, inl, inr, ◌↔◌, refl, ap, ◌∙◌,
  arith, In, contains, contains_iff, Bool-cases, if◌then◌else◌, int32, ◌≤◌, Distinct, length, subst,
  suc,
}
use raft_based_mysql_cluster.Prelude.Decimal.{show_02}
use raft_based_mysql_cluster.Replicas.{
  pod_name, find_missing_pod_numbers, generate_expected_pod_numbers, extract_pod_numbers,
}
use raft_based_mysql_cluster.Replicas.Numbers.{
  pod_names, numbers, extract_pod_numbers-pod_names, generate_expected_lem,
}
use raft_based_mysql_cluster.Replicas.Missing.{IsVisit, find_missing_lem, In-numbers}
use raft_based_mysql_cluster.Raft.Node.{others}
use raft_based_mysql_cluster.Raft.Node.Names.{In-others, Distinct-others, length-others}
use raft_based_mysql_cluster.Replicas.View.{SameNames, View, of_list, with_names, In-append}
use raft_based_mysql_cluster.Controller.{count_up}
use raft_based_mysql_cluster.Controller.Numbers.{In-count_up, count_up-le, count_up-lt}

-- Unless there are as many pods as replicas, the pods of the numbers 1 up to the replica count are
-- there afterwards, beside those that were. The number of the pods is an int32.
unfoldable pub repaired : ℤ → ℕ → View → View
repaired replicas actual v =
    if eqb_ℤ (int32 (pos actual)) replicas
    then v
    else with_names (pod_names (count_up 1 (pos_part replicas))) v

-- The pods after those of the numbers are added, the last number first.
abbrev pub added : List Str → List Str → List Str
added [] xs = xs
added (number ∷ rest) xs = added rest (pod_name number ∷ xs)

In-added :
    (xs ys : List Str) (x : Str)
    → In x (added xs ys) ↔ (In x ys ⊎ ((number : Str) × In number xs × (x ≡ pod_name number)))
In-added [] ys x = (inl, λ h. elim h [ inl m ↦ m | inr (number, m, e) ↦ elim m [ ] ])
In-added (n ∷ xs) ys x =
    let (there, back) = In-added xs (pod_name n ∷ ys) x in
    (
      λ m. elim (there m) [
        | inl (inl e) ↦ inr (n, inl refl, e)
        | inl (inr old) ↦ inl old
        | inr (number, later, e) ↦ inr (number, inr later, e)
      ],
      λ h. elim h [
        | inl old ↦ back (inl (inr old))
        | inr (number, inl e, e') ↦ back (inl (inl (e' ∙ ap pod_name e)))
        | inr (number, inr later, e) ↦ back (inr (number, later, e))
      ],
    )

pub In-pod_names :
    (x : Str) (ns : List ℕ) → In x (pod_names ns) ↔ ((k : ℕ) × In k ns × (x ≡ pod_name (show_02 k)))
In-pod_names x [] = (λ m. elim m [ ], λ (k, m, e). elim m [ ])
In-pod_names x (n ∷ ns) = (
  λ m. elim m [
    | inl e ↦ (n, inl refl, e)
    | inr later ↦ let (k, m', e) = (In-pod_names x ns).0 later in (k, inr m', e)
  ],
  λ (k, m, e). elim m [
    | inl e' ↦ inl (e ∙ ap (λ j. pod_name (show_02 j)) e')
    | inr later ↦ inr ((In-pod_names x ns).1 (k, later, e))
  ],
)

-- A list of pods whose names are those of numbers is one of numbers.
pub named_pods :
    (l : List Str) (ns : List ℕ)
    → ((x : Str) → In x l → In x (pod_names ns))
    → (ks : List ℕ) × (l ≡ pod_names ks)
named_pods [] ns h = ([], refl)
named_pods (x ∷ l) ns h =
    let (k, m, e) = (In-pod_names x ns).0 (h x (inl refl)) in
    let (ks, rest) = named_pods l ns (λ y i. h y (inr i)) in (k ∷ ks, cc (e, rest))

length-sub :
    (l m : List Str) → Distinct l → Distinct m → ((x : Str) → In x l → In x m) → length l ≤ length m
length-sub [] m d e sub = omega arith
length-sub (x ∷ l) m (new, d) e sub =
    let shorter = length-others x m e (sub x (inl refl)) in
    let ih =
      length-sub l (others x m) d (Distinct-others x m e)
        (λ y i. (In-others x y m).1 (sub y (inr i), λ same. new (subst (λ z. In z l) same i))) in
    omega (arith, shorter, ih)

pub length-same : (l m : List Str) → Distinct l → Distinct m → SameNames l m → length l ≡ length m
length-same l m d e same =
    let le = length-sub l m d e (λ x. (same x).0) in
    let ge = length-sub m l e d (λ x. (same x).1) in omega (arith, le, ge)

pub length-pod_names : (ns : List ℕ) → length (pod_names ns) ≡ length ns
length-pod_names [] = refl
length-pod_names (n ∷ ns) = ap suc (length-pod_names ns)

-- The numbers that reconcileReplicas finds missing beside the pods of `ns`.
abbrev pub missing_of : (List Str → List Str) → ℤ → List ℕ → List Str
missing_of order replicas ns =
    find_missing_pod_numbers order (generate_expected_pod_numbers replicas)
      (extract_pod_numbers (pod_names ns))

module _ (order : List Str → List Str) (visit : IsVisit order) (replicas : ℤ) (ns : List ℕ) where
  abbrev wanted : List Str
  wanted = pod_names (count_up 1 (pos_part replicas))

  pub In-missing :
      (x : Str)
      → In x (missing_of order replicas ns)
        ↔ (In x (generate_expected_pod_numbers replicas) × (¬ In x (numbers ns)))
  In-missing x = rw (← extract_pod_numbers-pod_names ns) (
      (find_missing_lem order (generate_expected_pod_numbers replicas)
          (extract_pod_numbers (pod_names ns)) visit).1
        x)

  added-wanted :
      (x : Str)
      → In x (added (missing_of order replicas ns) (pod_names ns))
      → In x (wanted ++ pod_names ns)
  added-wanted x m = elim ((In-added (missing_of order replicas ns) (pod_names ns) x).0 m) [
    | inl old ↦ (In-append x wanted (pod_names ns)).1 (inr old)
    | inr (number, m', e) ↦
        let (k, lo, hi, e') =
          ((generate_expected_lem replicas).2 number).0 ((In-missing number).0 m').0 in
        (In-append x wanted (pod_names ns)).1 (
          inl (
            (In-pod_names x (count_up 1 (pos_part replicas))).1
              (k, In-count_up 1 (pos_part replicas) k lo (omega arith), e ∙ ap pod_name e')))
  ]

  wanted-added :
      (x : Str)
      → In x (wanted ++ pod_names ns)
      → In x (added (missing_of order replicas ns) (pod_names ns))
  wanted-added x m =
      (In-added (missing_of order replicas ns) (pod_names ns) x).1
        (elim ((In-append x wanted (pod_names ns)).0 m) [
          | inr old ↦ inl old
          | inl new ↦
              let (k, m', e) = (In-pod_names x (count_up 1 (pos_part replicas))).0 new in
              elim (Bool-cases (contains (numbers ns) (show_02 k))) [
                | inl there ↦ inl (
                    (In-pod_names x ns).1
                      (k, (In-numbers k ns).0 ((contains_iff (numbers ns) (show_02 k)).0 there), e))
                | inr new ↦ inr (
                  show_02 k,
                  (In-missing (show_02 k)).1 (
                    ((generate_expected_lem replicas).2 (show_02 k)).1 (
                      k,
                      count_up-le 1 (pos_part replicas) k m',
                      omega (arith, count_up-lt 1 (pos_part replicas) k m'),
                      refl,
                    ),
                    λ i. cc (new, (contains_iff (numbers ns) (show_02 k)).1 i),
                  ),
                  e,
                )
              ]
        ])

  -- Adding the missing pods gives the set of the expected ones and the old ones.
  pub of_list-added :
      of_list (added (missing_of order replicas ns) (pod_names ns))
      ≡ with_names wanted (of_list (pod_names ns))
  unfolding with_names
  of_list-added = Quot.sound (λ x. (added-wanted x, wanted-added x))
