-- ===== src/Go/Keeps.antt =====
-- What every run of a function keeps, and what holds when it returns without an error.
use raft_based_mysql_cluster.Go.{
  Error, Result, ok, err, waiting, panic, Go, pure, raise, map_err, rewrap, continue, branch, ◌>>=◌,
  try,
}

-- What holds of a result and the state behind it.
abbrev pub Holds : {S A : Type 0} → (S → Type 0) → (A → S → Type 0) → Result A → S → Type 0
Holds P Q (ok a) s = P s × Q a s
Holds P Q (err e) s = P s
Holds P Q waiting s = P s
Holds P Q panic s = P s

-- From a state with `P` every run ends in a state with `P`, and with `Q` of its value if it returns
-- one without an error.
pub record Ensures {S A : Type 0} (P : S → Type 0) (Q : A → S → Type 0) (m : Go S A) : Type 0 where
  pub at : (s : S) → P s → Holds P Q (m s).0 (m s).1

abbrev pub Always : {S A : Type 0} → A → S → Type 0
Always a s = Unit

-- From a state with `P` every run ends in a state with `P`.
abbrev pub Keeps : {S A : Type 0} → (S → Type 0) → Go S A → Type 0
Keeps P m = Ensures P Always m

rewrap-Holds :
    {S A : Type 0} (P : S → Type 0) (Q : A → S → Type 0) (f : Error → Error) (r : Result A) (s : S)
    → Holds P Q r s
    → Holds P Q (rewrap f r) s
rewrap-Holds P Q f (ok a) s h = h
rewrap-Holds P Q f (err e) s h = h
rewrap-Holds P Q f waiting s h = h
rewrap-Holds P Q f panic s h = h

module _ {S A : Type 0} {P : S → Type 0} where
  pub Ensures-pure : (Q : A → S → Type 0) (a : A) → ((s : S) → P s → Q a s) → Ensures P Q (pure a)
  unfolding pure
  Ensures-pure Q a h = record { at = λ s p. (p, h s p) }

  pub Ensures-raise : (Q : A → S → Type 0) (e : Error) → Ensures P Q (raise e)
  unfolding raise
  Ensures-raise Q e = record { at = λ s p. p }

  pub Ensures-map_err :
      (Q : A → S → Type 0) (f : Error → Error) (m : Go S A)
      → Ensures P Q m
      → Ensures P Q (map_err f m)
  unfolding map_err
  Ensures-map_err Q f m h = record { at = λ s p. rewrap-Holds P Q f (m s).0 (m s).1 (h.at s p) }

  pub Ensures-weaken :
      (Q R : A → S → Type 0) (m : Go S A)
      → ((a : A) (s : S) → P s → Q a s → R a s)
      → Ensures P Q m
      → Ensures P R m
  Ensures-weaken Q R m f h = record { at = λ s p. go (m s).0 (m s).1 (h.at s p) }
    where
      go : (r : Result A) (s : S) → Holds P Q r s → Holds P R r s
      go (ok a) s (p, q) = (p, f a s p q)
      go (err e) s p = p
      go waiting s p = p
      go panic s p = p

module _ {S A B : Type 0} {P : S → Type 0} where
  -- The rest of a block starts where the call has returned, with what the call ensures.
  pub Ensures-bind :
      (Q : A → S → Type 0) (R : B → S → Type 0) (m : Go S A) (f : A → Go S B)
      → Ensures P Q m
      → ((a : A) (s : S) → P s → Q a s → Holds P R (f a s).0 (f a s).1)
      → Ensures P R (m >>= f)
  unfolding ◌>>=◌
  Ensures-bind Q R m f hm hf = record { at = λ s p. go (m s).0 (m s).1 (hm.at s p) }
    where
      go : (r : Result A) (s : S) → Holds P Q r s → Holds P R (continue r f s).0 (continue r f s).1
      go (ok a) s (p, q) = hf a s p q
      go (err e) s p = p
      go waiting s p = p
      go panic s p = p

  pub Ensures-try :
      (Q : A → S → Type 0) (R : B → S → Type 0) (m : Go S A) (f : A → Go S B) (g : Error → Go S B)
      → Ensures P Q m
      → ((a : A) (s : S) → P s → Q a s → Holds P R (f a s).0 (f a s).1)
      → ((e : Error) → Ensures P R (g e))
      → Ensures P R (try m f g)
  unfolding try
  Ensures-try Q R m f g hm hf hg = record { at = λ s p. go (m s).0 (m s).1 (hm.at s p) }
    where
      go : (r : Result A) (s : S) → Holds P Q r s → Holds P R (branch r f g s).0 (branch r f g s).1
      go (ok a) s (p, q) = hf a s p q
      go (err e) s p = (hg e).at s p
      go waiting s p = p
      go panic s p = p
