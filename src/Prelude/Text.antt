-- ===== src/Prelude/Text.antt =====
-- Go strings as the list of their bytes, with the tests and functions of package strings that the
-- program calls.
use Prim.Native.Nat.{ℕ}
use Prim.Native.Char.{code}
use Prim.Native.String.{String}
use mathlib.Core.Path.{◌≡◌, refl}
use mathlib.Core.Logic.{◌↔◌}
use mathlib.Core.Bool.{Bool, true, false, ◌&&◌, ◌||◌}
use mathlib.Core.List.{List, [], ◌∷◌}
use native.Mathlib.Omega.{arith}
use raft_based_mysql_cluster.Prelude.Tests.{◌==◌}
use raft_based_mysql_cluster.Prelude.Lists.{In}

abbrev pub Str : Type 0
Str = List ℕ

-- A literal of the source, by its characters, which are its bytes where they are ASCII.
abbrev pub lit : String → Str
lit String.[] = []
lit (String.◌∷◌ c s) = code c ∷ lit s

-- `==` on strings.
unfoldable pub str_eq : Str → Str → Bool
str_eq [] [] = true
str_eq (x ∷ xs) (y ∷ ys) = x == y && str_eq xs ys
str_eq _ _ = false

pub str_eq_sound : (s t : Str) → str_eq s t ≡ true → s ≡ t
unfolding str_eq
str_eq_sound [] [] h = refl
str_eq_sound [] (y ∷ ys) h = cc
str_eq_sound (x ∷ xs) [] h = cc
str_eq_sound (x ∷ xs) (y ∷ ys) h = ground (arith, str_eq_sound xs ys)

pub str_eq_refl : (s : Str) → str_eq s s ≡ true
unfolding str_eq
str_eq_refl [] = refl
str_eq_refl (x ∷ xs) = ground (arith, str_eq_refl xs)

pub str_eq_iff : (s t : Str) → (str_eq s t ≡ true) ↔ (s ≡ t)
str_eq_iff s t = (str_eq_sound s t, λ e. rw e (str_eq_refl t))

-- Does a string stand among others?
abbrev pub contains : List Str → Str → Bool
contains [] s = false
contains (x ∷ xs) s = str_eq s x || contains xs s

pub contains_iff : (xs : List Str) (s : Str) → (contains xs s ≡ true) ↔ In s xs
contains_iff [] s = (λ h. cc, λ h. elim h [ ])
contains_iff (x ∷ xs) s = ground (arith, str_eq_iff s x, contains_iff xs s)

starts : Str → Str → Bool
starts [] s = true
starts (c ∷ prefix) [] = false
starts (c ∷ prefix) (d ∷ s) = c == d && starts prefix s

-- strings.Contains(s, part)
unfoldable pub contains_text : Str → Str → Bool
unfolding starts
contains_text [] part = starts part []
contains_text (c ∷ s) part = starts part (c ∷ s) || contains_text s part
