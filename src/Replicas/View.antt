-- ===== src/Replicas/View.antt =====
-- The pods of a cluster as the operator should see them: a set of names. The order in which the API
-- server lists them, and how often a name is written down, are forgotten.
use mathlib.Core.Quot
use mathlib.Core.Quot.{Quot, Quot-set}
use raft_based_mysql_cluster.Prelude.{Str, List, [], ◌∷◌, ◌++◌, ◌⊎◌, inl, inr, ◌↔◌, In}

abbrev pub SameNames : List Str → List Str → Type 0
SameNames xs ys = (x : Str) → In x xs ↔ In x ys

abbrev pub View : Type 0
View = Quot SameNames

abbrev pub of_list : List Str → View
of_list = Quot.mk

pub In-append : (x : Str) (xs ys : List Str) → In x (xs ++ ys) ↔ (In x xs ⊎ In x ys)
In-append x [] ys = (inr, λ h. elim h [ inl m ↦ elim m [ ] | inr m ↦ m ])
In-append x (y ∷ xs) ys = (
  λ h. elim h [
    | inl e ↦ inl (inl e)
    | inr m ↦ elim ((In-append x xs ys).0 m) [ inl a ↦ inl (inr a) | inr b ↦ inr b ]
  ],
  λ h. elim h [
    | inl (inl e) ↦ inl e
    | inl (inr a) ↦ inr ((In-append x xs ys).1 (inl a))
    | inr b ↦ inr ((In-append x xs ys).1 (inr b))
  ],
)

pub SameNames-append : (zs xs ys : List Str) → SameNames xs ys → SameNames (zs ++ xs) (zs ++ ys)
SameNames-append [] xs ys h = h
SameNames-append (z ∷ zs) xs ys h = λ x. (
  λ m. elim m [ inl e ↦ inl e | inr n ↦ inr ((SameNames-append zs xs ys h x).0 n) ],
  λ m. elim m [ inl e ↦ inl e | inr n ↦ inr ((SameNames-append zs xs ys h x).1 n) ],
)

-- The set with the names added.
unfoldable pub with_names : List Str → View → View
with_names zs =
    Quot.lift Quot-set (λ xs. of_list (zs ++ xs))
      (λ xs ys h. Quot.sound (SameNames-append zs xs ys h))
