-- ===== src/Go/Turns.antt =====
-- Partial correctness of functions that call the API server: what a run turns one property of the
-- state into when it returns without an error.
use raft_based_mysql_cluster.Prelude.{Bool, true, false, if◌then◌else◌}
use raft_based_mysql_cluster.Go.{
  Error, Result, ok, err, waiting, panic, Go, pure, lift, continue, branch, ◌>>=◌, try,
}
use raft_based_mysql_cluster.Go.Keeps.{Holds, Ensures, Keeps, Always}

abbrev pub IfOk : {S A : Type 0} → (A → S → Type 0) → Result A → S → Type 0
IfOk Q r s = Holds (λ _. Unit) Q r s

pub record Turns {S A : Type 0} (P : S → Type 0) (Q : A → S → Type 0) (m : Go S A) : Type 0 where
  pub at : (s : S) → P s → IfOk Q (m s).0 (m s).1

module _ {S A : Type 0} {P : S → Type 0} where
  pub Turns-pure : (Q : A → S → Type 0) (a : A) → ((s : S) → P s → Q a s) → Turns P Q (pure a)
  unfolding pure
  Turns-pure Q a h = record { at = λ s p. (tt, h s p) }

  pub Turns-waiting : (Q : A → S → Type 0) → Turns P Q (lift waiting)
  unfolding lift
  Turns-waiting Q = record { at = λ s p. tt }

  pub Turns-if :
      (Q : A → S → Type 0) (b : Bool) (m n : Go S A)
      → Turns P Q m
      → Turns P Q n
      → Turns P Q (if b then m else n)
  Turns-if Q true m n hm hn = hm
  Turns-if Q false m n hm hn = hn

  pub Turns-from :
      (R : S → Type 0) (Q : A → S → Type 0) (m : Go S A)
      → ((s : S) → P s → R s)
      → Turns R Q m
      → Turns P Q m
  Turns-from R Q m f h = record { at = λ s p. h.at s (f s p) }

  pub Turns-to :
      (Q R : A → S → Type 0) (m : Go S A)
      → ((a : A) (s : S) → Q a s → R a s)
      → Turns P Q m
      → Turns P R m
  Turns-to Q R m f h = record { at = λ s p. go (m s).0 (m s).1 (h.at s p) }
    where
      go : (r : Result A) (s : S) → IfOk Q r s → IfOk R r s
      go (ok a) s (t, q) = (t, f a s q)
      go (err e) s k = tt
      go waiting s k = tt
      go panic s k = tt

  pub Turns-of_kept : (m : Go S A) → Keeps P m → Turns P (λ _ s. P s) m
  Turns-of_kept m h = record { at = λ s p. go (m s).0 (m s).1 (h.at s p) }
    where
      go : (r : Result A) (s : S) → Holds P Always r s → IfOk (λ _ t. P t) r s
      go (ok a) s k = (tt, k.0)
      go (err e) s k = tt
      go waiting s k = tt
      go panic s k = tt

module _ {S A B : Type 0} {P : S → Type 0} where
  pub Turns-bind :
      (R : A → S → Type 0) (Q : B → S → Type 0) (m : Go S A) (f : A → Go S B)
      → Turns P R m
      → ((a : A) → Turns (R a) Q (f a))
      → Turns P Q (m >>= f)
  unfolding ◌>>=◌
  Turns-bind R Q m f hm hf = record { at = λ s p. go (m s).0 (m s).1 (hm.at s p) }
    where
      go : (r : Result A) (s : S) → IfOk R r s → IfOk Q (continue r f s).0 (continue r f s).1
      go (ok a) s k = (hf a).at s k.1
      go (err e) s k = tt
      go waiting s k = tt
      go panic s k = tt

  pub Turns-try :
      (R : A → S → Type 0) (Q : B → S → Type 0) (m : Go S A) (f : A → Go S B) (g : Error → Go S B)
      → Ensures P R m
      → ((a : A) → Turns (λ s. P s × R a s) Q (f a))
      → ((e : Error) → Turns P Q (g e))
      → Turns P Q (try m f g)
  unfolding try
  Turns-try R Q m f g hm hf hg = record { at = λ s p. go (m s).0 (m s).1 (hm.at s p) }
    where
      go : (r : Result A) (s : S) → Holds P R r s → IfOk Q (branch r f g s).0 (branch r f g s).1
      go (ok a) s k = (hf a).at s k
      go (err e) s k = (hg e).at s k
      go waiting s k = tt
      go panic s k = tt
