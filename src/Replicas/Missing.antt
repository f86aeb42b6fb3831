-- ===== src/Replicas/Missing.antt =====
-- The missing numbers are the expected ones without the actual ones.
use raft_based_mysql_cluster.Prelude.{
  ℕ, ◌≤◌, ℤ, pos_part, Str, str_eq, str_eq_iff, contains, contains_iff, List, [], ◌∷◌, ◌≡◌, ◌≢◌,
  ◌⊎◌, inl, inr, ◌↔◌, refl, ap, sym, ◌∙◌, arith, In, Distinct, Bool-cases,
}
use raft_based_mysql_cluster.Prelude.Decimal.{show_02, show_02-injective}
use raft_based_mysql_cluster.Replicas.{
  add_key, add_keys, delete, delete_all, find_missing_pod_numbers, extract_pod_numbers,
  generate_expected_pod_numbers,
}
use raft_based_mysql_cluster.Replicas.Numbers.{
  pod_names, numbers, extract_pod_numbers-pod_names, generate_expected_lem,
}

-- A visit of the keys of a map meets each of them once.
pub record IsVisit (order : List Str → List Str) : Type 0 where
  pub same : (l : List Str) (x : Str) → In x (order l) ↔ In x l
  pub once : (l : List Str) → Distinct l → Distinct (order l)

In-add_key : (k x : Str) (set : List Str) → In x (add_key k set) ↔ ((x ≡ k) ⊎ In x set)
unfolding add_key
In-add_key k x set = elim (Bool-cases (contains set k)) [
  | inl old ↦ rw old (inr, λ m. elim m [ inl e ↦ rw e ((contains_iff set k).0 old) | inr m' ↦ m' ])
  | inr new ↦ rw new (λ m. m, λ m. m)
]

In-add_keys : (ks set : List Str) (x : Str) → In x (add_keys ks set) ↔ (In x ks ⊎ In x set)
unfolding add_keys
In-add_keys [] set x = (inr, λ m. elim m [ inl m' ↦ elim m' [ ] | inr m' ↦ m' ])
In-add_keys (k ∷ ks) set x =
    let (there, back) = In-add_keys ks (add_key k set) x in
    let (open_it, close_it) = In-add_key k x set in
    (
      λ m. elim (there m) [
        | inl later ↦ inl (inr later)
        | inr now ↦ elim (open_it now) [ inl e ↦ inl (inl e) | inr old ↦ inr old ]
      ],
      λ m. elim m [
        | inl (inl e) ↦ back (inr (close_it (inl e)))
        | inl (inr later) ↦ back (inl later)
        | inr old ↦ back (inr (close_it (inr old)))
      ],
    )

Distinct-add_key : (k : Str) (set : List Str) → Distinct set → Distinct (add_key k set)
unfolding add_key
Distinct-add_key k set d = elim (Bool-cases (contains set k)) [
  | inl old ↦ rw old d
  | inr new ↦ rw new (λ m. cc (new, (contains_iff set k).1 m), d)
]

Distinct-add_keys : (ks set : List Str) → Distinct set → Distinct (add_keys ks set)
unfolding add_keys
Distinct-add_keys [] set d = d
Distinct-add_keys (k ∷ ks) set d = Distinct-add_keys ks _ (Distinct-add_key k set d)

In-delete : (k x : Str) (set : List Str) → In x (delete k set) ↔ (In x set × (x ≢ k))
unfolding delete
In-delete k x [] = (λ m. elim m [ ], λ h. elim h.0 [ ])
In-delete k x (j ∷ set) = elim (Bool-cases (str_eq j k)) [
  | inl same ↦ rw same (
    λ m. let (m', ne) = (In-delete k x set).0 m in (inr m', ne),
    λ (m, ne). elim m [
      | inl e ↦ absurd (ne (e ∙ (str_eq_iff j k).0 same))
      | inr m' ↦ (In-delete k x set).1 (m', ne)
    ],
  )
  | inr differ ↦ rw differ (
    λ m. elim m [
      | inl e ↦ (inl e, λ e'. cc (differ, (str_eq_iff j k).1 (sym e ∙ e')))
      | inr m' ↦ let (m'', ne) = (In-delete k x set).0 m' in (inr m'', ne)
    ],
    λ (m, ne). elim m [ inl e ↦ inl e | inr m' ↦ inr ((In-delete k x set).1 (m', ne)) ],
  )
]

Distinct-delete : (k : Str) (set : List Str) → Distinct set → Distinct (delete k set)
unfolding delete
Distinct-delete k [] d = tt
Distinct-delete k (j ∷ set) (fresh, d) = elim (Bool-cases (str_eq j k)) [
  | inl same ↦ rw same (Distinct-delete k set d)
  | inr differ ↦ rw differ (λ m. fresh ((In-delete k j set).0 m).0, Distinct-delete k set d)
]

In-delete_all : (ks set : List Str) (x : Str) → In x (delete_all ks set) ↔ (In x set × (¬ In x ks))
unfolding delete_all
In-delete_all [] set x = (λ m. (m, λ h. elim h [ ]), λ h. h.0)
In-delete_all (k ∷ ks) set x =
    let (there, back) = In-delete_all ks (delete k set) x in
    let (open_it, close_it) = In-delete k x set in
    (
      λ m.
          let (m', fresh) = there m in
          let (m'', ne) = open_it m' in
          (m'', λ h. elim h [ inl e ↦ ne e | inr later ↦ fresh later ]),
      λ (m, fresh). back (close_it (m, λ e. fresh (inl e)), λ later. fresh (inr later)),
    )

Distinct-delete_all : (ks set : List Str) → Distinct set → Distinct (delete_all ks set)
unfolding delete_all
Distinct-delete_all [] set d = d
Distinct-delete_all (k ∷ ks) set d = Distinct-delete_all ks _ (Distinct-delete k set d)

-- In whatever order the map is visited, the missing numbers are the expected numbers that are not
-- among the actual ones, each once, even if a number stands twice among the expected.
pub find_missing_lem :
    (order : List Str → List Str) (expected actual : List Str)
    → IsVisit order
    → Distinct (find_missing_pod_numbers order expected actual)
      × ((x : Str)
          → In x (find_missing_pod_numbers order expected actual)
            ↔ (In x expected × (¬ In x actual)))
unfolding find_missing_pod_numbers
find_missing_lem order expected actual visit = (
  visit.once _ (Distinct-delete_all actual _ (Distinct-add_keys expected [] tt)),
  λ x.
      let (open_it, close_it) = In-delete_all actual (add_keys expected []) x in
      let (there, back) = In-add_keys expected [] x in
      (
        λ m.
            let (m', fresh) = open_it ((visit.same _ x).0 m) in
            (elim (there m') [ inl e ↦ e | inr n ↦ elim n [ ] ], fresh),
        λ (m, fresh). (visit.same _ x).1 (close_it (back (inl m), fresh)),
      ),
)

pub In-numbers : (k : ℕ) (ns : List ℕ) → In (show_02 k) (numbers ns) ↔ In k ns
In-numbers k [] = (λ m. m, λ m. m)
In-numbers k (n ∷ ns) = (
  λ m. elim m [ inl e ↦ inl (show_02-injective k n e) | inr m' ↦ inr ((In-numbers k ns).0 m') ],
  λ m. elim m [ inl e ↦ inl (ap show_02 e) | inr m' ↦ inr ((In-numbers k ns).1 m') ],
)

-- For pods that have the operator's names of the numbers `ns`, the numeral of `k` is missing
-- exactly if `k` lies between 1 and the expected count and is none of `ns`.
pub missing_iff :
    (order : List Str → List Str) (count : ℤ) (ns : List ℕ) (k : ℕ)
    → IsVisit order
    → In (show_02 k) (
        find_missing_pod_numbers order
          (generate_expected_pod_numbers count)
          (extract_pod_numbers (pod_names ns)))
      ↔ ((1 ≤ k) × (k ≤ pos_part count) × (¬ In k ns))
missing_iff order count ns k visit =
    let (there, back) =
      (find_missing_lem order (generate_expected_pod_numbers count)
          (extract_pod_numbers (pod_names ns)) visit).1
        (show_02 k) in
    let (wanted, listed) = (generate_expected_lem count).2 (show_02 k) in
    (
      λ m.
          let (m', fresh) = there m in
          let (j, lo, hi, e) = wanted m' in
          let same : k ≡ j = show_02-injective k j e in
          (
            omega (arith, same),
            omega (arith, same),
            λ i. fresh (rw extract_pod_numbers-pod_names ((In-numbers k ns).1 i)),
          ),
      λ (lo, hi, fresh). back (
        listed (k, lo, hi, refl),
        λ m. fresh ((In-numbers k ns).0 (rw extract_pod_numbers-pod_names at m)),
      ),
    )
