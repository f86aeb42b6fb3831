-- ===== src/Prelude/Assoc.antt =====
-- Go maps with string keys, as association lists with one entry for a key.
use mathlib.Core.Path.{◌≡◌, refl}
use mathlib.Core.Option.{Option, none, some}
use mathlib.Core.List.{List, [], ◌∷◌}
use native.Mathlib.Omega.{arith}
use raft_based_mysql_cluster.Prelude.Tests.{if◌then◌else◌}
use raft_based_mysql_cluster.Prelude.Text.{Str, str_eq, str_eq_iff}

abbrev pub Assoc : Type 0 → Type 0
Assoc V = List (Str × V)

module _ {V : Type 0} where
  -- v, ok := m[k]
  unfoldable pub lookup : Str → Assoc V → Option V
  lookup k [] = none
  lookup k ((j, v) ∷ m) = if str_eq j k then some v else lookup k m

  -- m[k] = v
  unfoldable pub insert : Str → V → Assoc V → Assoc V
  insert k v [] = (k, v) ∷ []
  insert k v ((j, w) ∷ m) = if str_eq j k then (k, v) ∷ m else (j, w) ∷ insert k v m

  -- m[k], with the zero value of the type for a missing key.
  unfoldable pub index : V → Assoc V → Str → V
  unfolding lookup
  index zero_value m k = elim (lookup k m) [ none ↦ zero_value | some v ↦ v ]

  abbrev pub keys : Assoc V → List Str
  keys [] = []
  keys ((k, v) ∷ m) = k ∷ keys m

  pub lookup-insert :
      (k j : Str) (v : V) (m : Assoc V)
      → lookup j (insert k v m) ≡ (if str_eq k j then some v else lookup j m)
  unfolding lookup insert
  lookup-insert k j v [] = refl
  lookup-insert k j v ((i, w) ∷ m) =
      ground (arith, str_eq_iff k j, str_eq_iff i k, str_eq_iff i j, lookup-insert k j v m)

  pub index-insert :
      (z : V) (k j : Str) (v : V) (m : Assoc V)
      → index z (insert k v m) j ≡ (if str_eq k j then v else index z m j)
  unfolding index
  index-insert z k j v m = ground (arith, lookup-insert k j v m)
