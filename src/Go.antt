-- ===== src/Go.antt =====
-- Go functions that call the API server and may return an error: a value, an error, or the
-- observation that a loop without a bound is still waiting after the rounds that were looked at, or
-- that the call has panicked.
-- What was written before an error stays written.
pub mod Keeps
pub mod Rules
pub mod Returns
pub mod Turns
pub mod Ends
use raft_based_mysql_cluster.Prelude.{
  Str, Bool, true, false, List, [], ◌∷◌, ◌++◌, ◌≡◌, refl, if◌then◌else◌,
}

-- An error by its text, and whether errors.IsNotFound recognises it.
pub record Error : Type 0 where
  pub text : Str
  pub not_found : Bool

-- fmt.Errorf("<text>%v", err), whose result is of no kind that the program tests for.
abbrev pub errorf : Str → Error
errorf text = record { text = text; not_found = false }

abbrev pub wrap : Str → Error → Error
wrap text e = errorf (text ++ e.text)

pub data Result (A : Type 0) : Type 0 where
  ok : A → Result A
  err : Error → Result A
  waiting : Result A
  panic : Result A

abbrev pub rewrap : {A : Type 0} → (Error → Error) → Result A → Result A
rewrap f (ok a) = ok a
rewrap f (err e) = err (f e)
rewrap f waiting = waiting
rewrap f panic = panic

abbrev pub Go : Type 0 → Type 0 → Type 0
Go S A = S → Result A × S

module _ {S A : Type 0} where
  unfoldable pub pure : A → Go S A
  pure a s = (ok a, s)

  unfoldable pub raise : Error → Go S A
  raise e s = (err e, s)

  unfoldable pub lift : Result A → Go S A
  lift r s = (r, s)

  -- `if err != nil { return …, f(err) }`
  unfoldable pub map_err : (Error → Error) → Go S A → Go S A
  map_err f m s = let (r, s') = m s in (rewrap f r, s')

module _ {S A B : Type 0} where
  abbrev pub continue : Result A → (A → Go S B) → Go S B
  continue (ok a) f s = f a s
  continue (err e) f s = (err e, s)
  continue waiting f s = (waiting, s)
  continue panic f s = (panic, s)

  infixl 10 ◌>>=◌ ◌>>◌
  unfoldable pub ◌>>=◌ : Go S A → (A → Go S B) → Go S B
  ◌>>=◌ m f s = let (r, s') = m s in continue r f s'

  abbrev pub ◌>>◌ : Go S A → Go S B → Go S B
  m >> n = m >>= λ _. n

  -- Both outcomes of a call whose error the caller inspects itself.
  abbrev pub branch : Result A → (A → Go S B) → (Error → Go S B) → Go S B
  branch (ok a) f g s = f a s
  branch (err e) f g s = g e s
  branch waiting f g s = (waiting, s)
  branch panic f g s = (panic, s)

  unfoldable pub try : Go S A → (A → Go S B) → (Error → Go S B) → Go S B
  try m f g s = let (r, s') = m s in branch r f g s'

-- A loop whose body may return an error, which ends it.
unfoldable pub for_each : {S A : Type 0} → (A → Go S (Unit {0})) → List A → Go S (Unit {0})
for_each body [] = pure tt
for_each body (x ∷ xs) = body x >> for_each body xs
