-- ===== src/Go/Returns.antt =====
-- Total correctness of functions that call the API server: which of them return a value, from which
-- states, and what holds then.
use raft_based_mysql_cluster.Prelude.{
  Bool, true, false, List, [], ◌∷◌, ◌≡◌, ◌⊎◌, inl, inr, refl, subst, ◌∙◌, if◌then◌else◌, In,
}
use raft_based_mysql_cluster.Go.{
  Error, Result, ok, err, waiting, panic, Go, pure, map_err, ◌>>=◌, try, for_each,
}
use raft_based_mysql_cluster.Go.Keeps.{Holds, Keeps, Always}
use raft_based_mysql_cluster.Go.Rules.{Gives, bind-ok}

-- From a state with `P` the run returns a value, with `Q` of it and the state behind it.
pub record Returns {S A : Type 0} (P : S → Type 0) (Q : A → S → Type 0) (m : Go S A) : Type 0 where
  pub at : (s : S) → P s → (a : A) × (s' : S) × (m s ≡ (ok a, s')) × Q a s'

-- It returns a value with `Q`, or an error with `E`.
pub record Answers {S A : Type 0} (P : S → Type 0) (Q : A → S → Type 0) (E : Error → S → Type 0)
    (m : Go S A) : Type 0 where
  pub at :
      (s : S)
      → P s
      → ((a : A) × (s' : S) × (m s ≡ (ok a, s')) × Q a s')
        ⊎ ((e : Error) × (s' : S) × (m s ≡ (err e, s')) × E e s')

-- It returns a value, and `P` holds before and after.
abbrev pub Stays : {S A : Type 0} → (S → Type 0) → Go S A → Type 0
Stays P m = Returns P (λ _ s. P s) m

module _ {S A : Type 0} {P : S → Type 0} where
  pub Returns-pure : (Q : A → S → Type 0) (a : A) → ((s : S) → P s → Q a s) → Returns P Q (pure a)
  unfolding pure
  Returns-pure Q a h = record { at = λ s p. (a, s, refl, h s p) }

  pub Returns-map_err :
      (Q : A → S → Type 0) (f : Error → Error) (m : Go S A)
      → Returns P Q m
      → Returns P Q (map_err f m)
  unfolding map_err
  Returns-map_err Q f m h = record { at = λ s p. let (a, s', e, q) = h.at s p in (a, s', rw e, q) }

  pub Returns-weaken :
      (Q R : A → S → Type 0) (m : Go S A)
      → ((a : A) (s : S) → Q a s → R a s)
      → Returns P Q m
      → Returns P R m
  Returns-weaken Q R m f h = record {
    at = λ s p. let (a, s', e, q) = h.at s p in (a, s', e, f a s' q);
  }

  pub Returns-from :
      (R : S → Type 0) (Q : A → S → Type 0) (m : Go S A)
      → ((s : S) → P s → R s)
      → Returns R Q m
      → Returns P Q m
  Returns-from R Q m f h = record { at = λ s p. h.at s (f s p) }

  -- What the run keeps besides.
  pub Returns-kept :
      (Q : A → S → Type 0) (R : S → Type 0) (m : Go S A)
      → Returns P Q m
      → Keeps R m
      → Returns (λ s. P s × R s) (λ a s. Q a s × R s) m
  Returns-kept Q R m h keep = record {
    at = λ s (p, r).
        let (a, s', e, q) = h.at s p in
        let kept = subst (λ o. Holds R Always o.0 o.1) e (keep.at s r) in (a, s', e, (q, kept.0));
  }

  -- What the run gives besides.
  pub Returns-given :
      (Q : A → S → Type 0) (R : S → Type 0) (m : Go S A)
      → Returns P Q m
      → Gives R m
      → Returns P (λ a s. Q a s × R s) m
  Returns-given Q R m h give = record {
    at = λ s p.
        let (a, s', e, q) = h.at s p in
        let given = subst (λ o. Holds (λ _. Unit) (λ _ t. R t) o.0 o.1) e (give.at s tt) in
        (a, s', e, (q, given.1));
  }

module _ {S A B : Type 0} {P : S → Type 0} where
  pub Returns-bind :
      (R : A → S → Type 0) (Q : B → S → Type 0) (m : Go S A) (f : A → Go S B)
      → Returns P R m
      → ((a : A) → Returns (R a) Q (f a))
      → Returns P Q (m >>= f)
  Returns-bind R Q m f hm hf = record {
    at = λ s p.
        let (a, s', e, r) = hm.at s p in
        let (b, s'', e', q) = (hf a).at s' r in (b, s'', bind-ok m f s s' a e ∙ e', q);
  }

  pub Returns-try :
      (R : A → S → Type 0) (E : Error → S → Type 0) (Q : B → S → Type 0) (m : Go S A)
      (f : A → Go S B) (g : Error → Go S B)
      → Answers P R E m
      → ((a : A) → Returns (R a) Q (f a))
      → ((e : Error) → Returns (E e) Q (g e))
      → Returns P Q (try m f g)
  unfolding try
  Returns-try R E Q m f g hm hf hg = record {
    at = λ s p. elim (hm.at s p) [
      | inl (a, s', e, r) ↦ let (b, s'', e', q) = (hf a).at s' r in (b, s'', rw e e', q)
      | inr (x, s', e, r) ↦ let (b, s'', e', q) = (hg x).at s' r in (b, s'', rw e e', q)
    ];
  }

-- A test that is known to hold.
pub Returns-when :
    {S A : Type 0} {P : S → Type 0} (Q : A → S → Type 0) (b : Bool) (m n : Go S A)
    → Returns P Q m
    → Returns (λ s. (b ≡ true) × P s) Q (if b then m else n)
Returns-when Q true m n h = record { at = λ s (e, p). h.at s p }
Returns-when Q false m n h = record { at = λ s (e, p). absurd (cc e) }

-- A test whose outcome says what holds of the state.
pub Returns-if :
    {S A : Type 0} (P R : S → Type 0) (Q : A → S → Type 0) (b : Bool) (m n : Go S A)
    → Returns P Q m
    → Returns R Q n
    → Returns (λ s. ((b ≡ true) × P s) ⊎ ((b ≡ false) × R s)) Q (if b then m else n)
Returns-if P R Q true m n hm hn = record {
  at = λ s o. elim o [ inl (e, p) ↦ hm.at s p | inr (e, r) ↦ absurd (cc e) ];
}
Returns-if P R Q false m n hm hn = record {
  at = λ s o. elim o [ inl (e, p) ↦ absurd (cc e) | inr (e, r) ↦ hn.at s r ];
}

pub Stays-for_each :
    {S A : Type 0} {P : S → Type 0} (body : A → Go S (Unit {0})) (xs : List A)
    → ((x : A) → In x xs → Stays P (body x))
    → Stays P (for_each body xs)
unfolding for_each
Stays-for_each body [] h = Returns-pure _ tt (λ s p. p)
Stays-for_each body (x ∷ xs) h =
    Returns-bind _ _ (body x) _ (h x (inl refl)) (λ _. Stays-for_each body xs (λ y m. h y (inr m)))

-- What is known whatever the state.
pub Returns-know :
    {S A : Type 0} {F : Type 0} {P : S → Type 0} (Q : A → S → Type 0) (m : Go S A)
    → (F → Returns P Q m)
    → Returns (λ s. F × P s) Q m
Returns-know Q m h = record { at = λ s (f, p). (h f).at s p }

-- Given of every index, given of all.
pub Gives-all :
    {S A I : Type 0} (R : I → S → Type 0) (m : Go S A)
    → ((i : I) → Gives (R i) m)
    → Gives (λ s. (i : I) → R i s) m
Gives-all {S} {A} {I} R m h = record { at = λ s p. go (m s).0 (m s).1 (λ i. (h i).at s tt) }
  where
    go :
        (r : Result A) (s' : S)
        → ((i : I) → Holds (λ _. Unit) (λ _ t. R i t) r s')
        → Holds (λ _. Unit) (λ _ t. (i : I) → R i t) r s'
    go (ok a) s' k = (tt, λ i. (k i).1)
    go (err e) s' k = tt
    go waiting s' k = tt
    go panic s' k = tt

pub Keeps-all :
    {S A I : Type 0} (R : I → S → Type 0) (m : Go S A)
    → ((i : I) → Keeps (R i) m)
    → Keeps (λ s. (i : I) → R i s) m
Keeps-all {S} {A} {I} R m h = record { at = λ s p. go (m s).0 (m s).1 (λ i. (h i).at s (p i)) }
  where
    go :
        (r : Result A) (s' : S)
        → ((i : I) → Holds (R i) Always r s')
        → Holds (λ t. (i : I) → R i t) Always r s'
    go (ok a) s' k = (λ i. (k i).0, tt)
    go (err e) s' k = k
    go waiting s' k = k
    go panic s' k = k
