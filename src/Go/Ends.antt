-- ===== src/Go/Ends.antt =====
-- Functions that end, with a value or an error, in every state.
use raft_based_mysql_cluster.Prelude.{inl, inr, refl}
use raft_based_mysql_cluster.Go.{Error, Go, pure, ◌>>=◌, try}
use raft_based_mysql_cluster.Go.Returns.{Answers}

abbrev pub Ends : {S A : Type 0} → Go S A → Type 0
Ends m = Answers (λ _. Unit {0}) (λ _ _. Unit {0}) (λ _ _. Unit {0}) m

module _ {S A : Type 0} where
  pub Ends-pure : (a : A) → Ends {S = S} (pure a)
  unfolding pure
  Ends-pure a = record { at = λ s p. inl (a, s, refl, tt) }

  module _ {B : Type 0} where
    pub Ends-bind : (m : Go S A) (f : A → Go S B) → Ends m → ((a : A) → Ends (f a)) → Ends (m >>= f)
    unfolding ◌>>=◌
    Ends-bind m f hm hf = record {
      at = λ s p. elim (hm.at s tt) [
        | inl (a, s', e, r) ↦ rw e ((hf a).at s' tt)
        | inr (x, s', e, r) ↦ rw e (inr (x, s', refl, tt))
      ];
    }

    pub Ends-try :
        (m : Go S A) (f : A → Go S B) (g : Error → Go S B)
        → Ends m
        → ((a : A) → Ends (f a))
        → ((e : Error) → Ends (g e))
        → Ends (try m f g)
    unfolding try
    Ends-try m f g hm hf hg = record {
      at = λ s p. elim (hm.at s tt) [
        | inl (a, s', e, r) ↦ rw e ((hf a).at s' tt)
        | inr (x, s', e, r) ↦ rw e ((hg x).at s' tt)
      ];
    }
