-- ===== src/Tests/ListRuns.antt =====
-- The store as an API server that lists its pods, and an instance of the refinement theorem on it.
use raft_based_mysql_cluster.Prelude.{
  ℕ, Str, lit, str_eq, Bool, List, [], ◌∷◌, ◌≡◌, inl, inr, refl, ap, In, Bool-cases, if◌then◌else◌,
  contains, contains_iff, Distinct,
}
use raft_based_mysql_cluster.Prelude.Decimal.{show_02}
use raft_based_mysql_cluster.Go.Keeps.{Ensures, Keeps}
use raft_based_mysql_cluster.Kube.{Pod}
use raft_based_mysql_cluster.Kube.Client.{Client}
use raft_based_mysql_cluster.Kube.Client.Listing.{Listing, names_of}
use raft_based_mysql_cluster.Replicas.{pod_name}
use raft_based_mysql_cluster.Replicas.View.{SameNames}
use raft_based_mysql_cluster.Tests.Store.{
  Key, Objects, has, has-In, read, pod_of, meta_of, store_by,
}

abbrev is_pod : Str → Bool
is_pod kind = str_eq kind (lit "pod")

-- The pods of all namespaces, each name once.
abbrev pods_of : Objects → List Str
pods_of [] = []
pods_of ((kind, n, x) ∷ s) =
    let rest = pods_of s in
    if is_pod kind then (if contains rest x then rest else x ∷ rest) else rest

abbrev pods_at : Str → List Str → List Pod
pods_at n [] = []
pods_at n (x ∷ xs) = pod_of n x ∷ pods_at n xs

abbrev lister : Client Objects
lister = store_by (λ n s. pods_at n (pods_of s)) (lit "40")

pods_of-made :
    (n x : Str) (s : Objects) → SameNames (pods_of ((lit "pod", n, x) ∷ s)) (x ∷ pods_of s)
unfolding str_eq
pods_of-made n x s y = elim (Bool-cases (contains (pods_of s) x)) [
  | inl e ↦
      rw e (λ m. inr m, λ m. elim m [ inl f ↦ rw f ((contains_iff (pods_of s) x).0 e) | inr i ↦ i ])
  | inr e ↦ rw e (λ m. m, λ m. m)
]

In-pods_of : (n x : Str) (s : Objects) → In (lit "pod", n, x) s → In x (pods_of s)
unfolding str_eq
In-pods_of n x [] m = elim m [ ]
In-pods_of n x ((kind, n', x') ∷ s) (inl e) =
    rw (← ap (λ (k : Key). k.0) e) ((pods_of-made n' x' s x).1 (inl (ap (λ (k : Key). k.2) e)))
In-pods_of n x ((kind, n', x') ∷ s) (inr m) = elim (Bool-cases (is_pod kind)) [
  | inl e ↦ rw e (elim (Bool-cases (contains (pods_of s) x')) [
    | inl f ↦ rw f (In-pods_of n x s m)
    | inr f ↦ rw f (inr (In-pods_of n x s m))
  ])
  | inr e ↦ rw e (In-pods_of n x s m)
]

Distinct-pods_of : (s : Objects) → Distinct (pods_of s)
Distinct-pods_of [] = tt
Distinct-pods_of ((kind, n, x) ∷ s) = elim (Bool-cases (is_pod kind)) [
  | inl e ↦ rw e (elim (Bool-cases (contains (pods_of s) x)) [
    | inl f ↦ rw f (Distinct-pods_of s)
    | inr f ↦ rw f (λ m. cc (f, (contains_iff (pods_of s) x).1 m), Distinct-pods_of s)
  ])
  | inr e ↦ rw e (Distinct-pods_of s)
]

names-pods_at : (n : Str) (xs : List Str) → names_of (pods_at n xs) ≡ xs
names-pods_at n [] = refl
names-pods_at n (x ∷ xs) = ap (λ l. x ∷ l) (names-pods_at n xs)

Keeps-read_of :
    {A : Type 0} (xs : List Str) (kind n x : Str) (a : A)
    → Keeps (λ s. SameNames (pods_of s) xs) (read kind n x a)
Keeps-read_of xs kind n x a = record {
  at = λ s p. elim (Bool-cases (has (kind, n, x) s)) [ inl e ↦ rw e (p, tt) | inr e ↦ rw e p ];
}

read_pod_of :
    (xs : List Str) (n x : Str)
    → Ensures (λ s. SameNames (pods_of s) xs) (λ _ s. In x (pods_of s)) (lister.get_pod n x)
read_pod_of xs n x = record {
  at = λ s p. elim (Bool-cases (has (lit "pod", n, x) s)) [
    | inl e ↦ rw e (p, In-pods_of n x s (has-In (lit "pod", n, x) s e))
    | inr e ↦ rw e p
  ];
}

abbrev listing : Listing lister (lit "default") (λ _. Unit)
unfolding str_eq
listing = record {
  pods = pods_of;
  listed = λ s up. (
    pods_at (lit "default") (pods_of s),
    refl,
    rw (names-pods_at (lit "default") (pods_of s)) (λ x. (λ m. m, λ m. m)),
    rw (names-pods_at (lit "default") (pods_of s)) (Distinct-pods_of s),
  );
  read_config_map = λ xs x.
      Keeps-read_of xs (lit "configmap") (lit "default") x
        (record { meta = meta_of (lit "default") x; content = [] });
  made_config_map = λ xs o. record { at = λ s p. (p, tt) };
  read_claim = λ xs x. Keeps-read_of xs (lit "claim") (lit "default") x (record {
    meta = meta_of (lit "default") x;
    access_modes = [];
    storage = [];
    storage_class_name = [];
  });
  made_claim = λ xs o. record { at = λ s p. (p, tt) };
  read_pod = λ xs x. read_pod_of xs (lit "default") x;
  made_pod = λ xs o e a. record {
    at = λ s p. (
      tt,
      λ y. (
        λ m. (p y).0 ((pods_of-made o.meta.namespace o.meta.name s y).0 m),
        λ m. (pods_of-made o.meta.namespace o.meta.name s y).1 ((p y).1 m),
      ),
    );
  };
}

abbrev key_of : Str → ℕ → Key
key_of kind i = (kind, lit "default", pod_name (show_02 i))

-- Of the three pods, the second is there.
abbrev before : Objects
before = key_of (lit "pod") 2 ∷ []
