-- ===== src/Prelude/Decimal.antt =====
-- Decimal numerals: the verbs %d and %02d of package fmt, and reading a numeral back.
use Prim.Native.Nat.{ℕ, zero, suc, ◌+◌, ◌-◌, ◌*◌, ◌/◌, ◌%◌, ◌<◌}
use mathlib.Core.Path.{◌≡◌, refl, sym, ap, ◌∙◌}
use mathlib.Core.Logic.{inl, inr, ◌≢◌}
use mathlib.Core.Bool.{Bool, true, ◌&&◌}
use mathlib.Core.List.{[], ◌∷◌, ◌++◌}
use native.Mathlib.Omega.{arith}
use raft_based_mysql_cluster.Prelude.Tests.{ltb, leb, if◌then◌else◌, Bool-cases}
use raft_based_mysql_cluster.Prelude.Lists.{All}
use raft_based_mysql_cluster.Prelude.Int.{ℤ, pos, negsuc}
use raft_based_mysql_cluster.Prelude.Text.{Str}

-- The digits of `n`, most significant first; one round for each digit.
digits : ℕ → ℕ → Str
digits zero n = []
digits (suc f) n =
    let front = digits f (n / 10) in (if ltb n 10 then [] else front) ++ (48 + n % 10) ∷ []

-- fmt.Sprintf("%d", n) for n ≥ 0: `n` has at most n + 1 digits.
unfoldable pub show_ℕ : ℕ → Str
unfolding digits
show_ℕ n = digits (suc n) n

-- fmt.Sprintf("%d", z).
unfoldable pub show_ℤ : ℤ → Str
unfolding show_ℕ
show_ℤ (pos n) = show_ℕ n
show_ℤ (negsuc n) = b'-' ∷ show_ℕ (suc n)

-- fmt.Sprintf("%02d", n) for n ≥ 0.
unfoldable pub show_02 : ℕ → Str
show_02 n = if ltb n 10 then b'0' ∷ show_ℕ n else show_ℕ n

abbrev pub is_digit : ℕ → Bool
is_digit c = leb b'0' c && leb c b'9'

abbrev pub IsDigit : ℕ → Type 0
IsDigit c = is_digit c ≡ true

-- The number that digits spell, after `acc`.
unfoldable pub value : ℕ → Str → ℕ
value acc [] = acc
value acc (c ∷ cs) = value (acc * 10 + (c - 48)) cs

value-append : (acc : ℕ) (xs ys : Str) → value acc (xs ++ ys) ≡ value (value acc xs) ys
unfolding value
value-append acc [] ys = refl
value-append acc (c ∷ cs) ys = value-append (acc * 10 + (c - 48)) cs ys

value-digits : (f n : ℕ) → n < f → value 0 (digits f n) ≡ n
unfolding digits
value-digits zero n h = absurd (omega arith)
value-digits (suc f) n h = elim (Bool-cases (ltb n 10)) [
  | inl small ↦ rw small (unfold value in ground arith)
  | inr big ↦
      rw big (
        rw value-append (rw (value-digits f (n / 10) (ground arith)) (unfold value in omega arith)))
]

-- A printed number reads back.
pub value-show_ℕ : (n : ℕ) → value 0 (show_ℕ n) ≡ n
unfolding show_ℕ
value-show_ℕ n = value-digits (suc n) n (omega arith)

pub value-show_02 : (n : ℕ) → value 0 (show_02 n) ≡ n
unfolding show_02
value-show_02 n = elim (Bool-cases (ltb n 10)) [
  | inl small ↦ rw small (unfold value in value-show_ℕ n)
  | inr big ↦ rw big (value-show_ℕ n)
]

pub show_ℕ-injective : (m n : ℕ) → show_ℕ m ≡ show_ℕ n → m ≡ n
show_ℕ-injective m n e = sym (value-show_ℕ m) ∙ ap (value 0) e ∙ value-show_ℕ n

pub show_02-injective : (m n : ℕ) → show_02 m ≡ show_02 n → m ≡ n
show_02-injective m n e = sym (value-show_02 m) ∙ ap (value 0) e ∙ value-show_02 n

All-digits-append : (xs ys : Str) → All IsDigit xs → All IsDigit ys → All IsDigit (xs ++ ys)
All-digits-append [] ys hx hy = hy
All-digits-append (x ∷ xs) ys hx hy = (hx.0, All-digits-append xs ys hx.1 hy)

digits-All : (f n : ℕ) → All IsDigit (digits f n)
unfolding digits
digits-All zero n = tt
digits-All (suc f) n = elim (Bool-cases (ltb n 10)) [
  | inl small ↦ rw small (ground arith, tt)
  | inr big ↦ rw big (All-digits-append _ _ (digits-All f (n / 10)) (ground arith, tt))
]

-- What is printed are digits, and at least one.
pub show_ℕ-All : (n : ℕ) → All IsDigit (show_ℕ n)
unfolding show_ℕ
show_ℕ-All n = digits-All (suc n) n

pub show_02-All : (n : ℕ) → All IsDigit (show_02 n)
unfolding show_02
show_02-All n = elim (Bool-cases (ltb n 10)) [
  | inl small ↦ rw small (refl, show_ℕ-All n)
  | inr big ↦ rw big (show_ℕ-All n)
]

append-ne : (xs : Str) (y : ℕ) → xs ++ y ∷ [] ≢ []
append-ne [] y h = cc
append-ne (x ∷ xs) y h = cc

show_ℕ-ne : (n : ℕ) → show_ℕ n ≢ []
unfolding show_ℕ
show_ℕ-ne n = append-ne _ (48 + n % 10)

pub show_02-ne : (n : ℕ) → show_02 n ≢ []
unfolding show_02
show_02-ne n h = ground (arith, show_ℕ-ne n)
