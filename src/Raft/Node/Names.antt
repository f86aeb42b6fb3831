-- ===== src/Raft/Node/Names.antt =====
-- The names of the cluster's nodes: how many there are, and that no two are alike.
use raft_based_mysql_cluster.Prelude.{
  ℕ, zero, suc, ◌+◌, ◌≤◌, ◌<◌, pos_part, Str, str_eq, str_eq_iff, List, [], ◌∷◌, ◌++◌, ◌≡◌, ◌≢◌,
  inl, inr, ◌↔◌, refl, ap, sym, ◌∙◌, arith, length, In, Distinct, Bool-cases, ℕ_discrete,
}
use raft_based_mysql_cluster.Prelude.Decimal.{show_ℕ, show_ℕ-injective}
use raft_based_mysql_cluster.Raft.Node.{
  RaftManager, node_name, names_from, get_cluster_nodes, others,
}

tail-injective : {x : ℕ} {xs ys : Str} → ◌≡◌ {A = Str} (x ∷ xs) (x ∷ ys) → xs ≡ ys
tail-injective h = cc

append-injective : (front xs ys : Str) → front ++ xs ≡ front ++ ys → xs ≡ ys
append-injective [] xs ys h = h
append-injective (c ∷ front) xs ys h = append-injective front xs ys (tail-injective h)

pub node_name-injective : (name : Str) (i j : ℕ) → node_name name i ≡ node_name name j → i ≡ j
unfolding node_name
node_name-injective name i j h =
    show_ℕ-injective i j
      (tail-injective (append-injective name (b'-' ∷ show_ℕ i) (b'-' ∷ show_ℕ j) h))

length-names_from : (name : Str) (i n : ℕ) → length (names_from name i n) ≡ n
unfolding names_from
length-names_from name i zero = refl
length-names_from name i (suc n) = ap suc (length-names_from name (suc i) n)

In-names_from :
    (name x : Str) (i n : ℕ)
    → In x (names_from name i n) ↔ ((k : ℕ) × (i ≤ k) × (k < i + n) × (x ≡ node_name name k))
unfolding names_from
In-names_from name x i zero = (λ m. elim m [ ], λ (k, lo, hi, e). absurd (omega arith))
In-names_from name x i (suc n) = (
  λ m. elim m [
    | inl e ↦ (i, omega arith, omega arith, e)
    | inr later ↦
        let (k, lo, hi, e) = (In-names_from name x (suc i) n).0 later in
        (k, omega arith, omega arith, e)
  ],
  λ (k, lo, hi, e). elim (ℕ_discrete i k) [
    | yes same ↦ inl (rw same e)
    | no differ ↦ inr ((In-names_from name x (suc i) n).1 (k, omega arith, omega arith, e))
  ],
)

Distinct-names_from : (name : Str) (i n : ℕ) → Distinct (names_from name i n)
unfolding names_from
Distinct-names_from name i zero = tt
Distinct-names_from name i (suc n) = (
  λ m.
      let (k, lo, hi, e) = (In-names_from name (node_name name i) (suc i) n).0 m in
      absurd (omega (arith, node_name-injective name i k e)),
  Distinct-names_from name (suc i) n,
)

-- The cluster's nodes are as many as its replicas (none, if the count is negative), no two have
-- the same name, and they are the names `<cluster>-k` for k below the number of replicas.
pub get_cluster_nodes_lem :
    (rm : RaftManager)
    → (length (get_cluster_nodes rm) ≡ pos_part rm.cluster.spec.replicas)
      × Distinct (get_cluster_nodes rm)
      × ((x : Str)
          → In x (get_cluster_nodes rm) ↔ (
              (k : ℕ) × (k < pos_part rm.cluster.spec.replicas)
              × (x ≡ node_name rm.cluster.name k)))
unfolding get_cluster_nodes
get_cluster_nodes_lem rm = (
  length-names_from rm.cluster.name 0 (pos_part rm.cluster.spec.replicas),
  Distinct-names_from rm.cluster.name 0 (pos_part rm.cluster.spec.replicas),
  λ x. (
    λ m.
        let (k, lo, hi, e) =
          (In-names_from rm.cluster.name x 0 (pos_part rm.cluster.spec.replicas)).0 m in
        (k, omega arith, e),
    λ (k, hi, e).
        (In-names_from rm.cluster.name x 0 (pos_part rm.cluster.spec.replicas)).1
          (k, omega arith, omega arith, e),
  ),
)

-- The other nodes are the nodes that are not `me`.
pub In-others : (me x : Str) (nodes : List Str) → In x (others me nodes) ↔ (In x nodes × (x ≢ me))
unfolding others
In-others me x [] = (λ m. elim m [ ], λ h. elim h.0 [ ])
In-others me x (node ∷ nodes) = elim (Bool-cases (str_eq node me)) [
  | inl same ↦ rw same (
    λ m. let (m', ne) = (In-others me x nodes).0 m in (inr m', ne),
    λ (m, ne). elim m [
      | inl e ↦ absurd (ne (e ∙ (str_eq_iff node me).0 same))
      | inr m' ↦ (In-others me x nodes).1 (m', ne)
    ],
  )
  | inr differ ↦ rw differ (
    λ m. elim m [
      | inl e ↦ (inl e, λ e'. cc (differ, (str_eq_iff node me).1 (sym e ∙ e')))
      | inr m' ↦ let (m'', ne) = (In-others me x nodes).0 m' in (inr m'', ne)
    ],
    λ (m, ne). elim m [ inl e ↦ inl e | inr m' ↦ inr ((In-others me x nodes).1 (m', ne)) ],
  )
]

pub Distinct-others : (me : Str) (nodes : List Str) → Distinct nodes → Distinct (others me nodes)
unfolding others
Distinct-others me [] d = tt
Distinct-others me (node ∷ nodes) (new, d) = elim (Bool-cases (str_eq node me)) [
  | inl same ↦ rw same (Distinct-others me nodes d)
  | inr differ ↦ rw differ (λ m. new ((In-others me node nodes).0 m).0, Distinct-others me nodes d)
]

others-none : (me : Str) (nodes : List Str) → (¬ In me nodes) → others me nodes ≡ nodes
unfolding others
others-none me [] h = refl
others-none me (node ∷ nodes) h = elim (Bool-cases (str_eq node me)) [
  | inl same ↦ absurd (h (inl (sym ((str_eq_iff node me).0 same))))
  | inr differ ↦ rw differ (ap (λ l. node ∷ l) (others-none me nodes (λ m. h (inr m))))
]

-- A node that is one of them has one less beside it.
pub length-others :
    (me : Str) (nodes : List Str)
    → Distinct nodes
    → In me nodes
    → suc (length (others me nodes)) ≡ length nodes
unfolding others
length-others me [] d m = elim m [ ]
length-others me (node ∷ nodes) d m = elim (Bool-cases (str_eq node me)) [
  | inl same ↦ rw same (rw (others-none me nodes (rw (← (str_eq_iff node me).0 same) d.0)))
  | inr differ ↦ rw differ (elim m [
    | inl e ↦ cc (differ, (str_eq_iff node me).1 (sym e))
    | inr m' ↦ ap suc (length-others me nodes d.1 m')
  ])
]
