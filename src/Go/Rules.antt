-- ===== src/Go/Rules.antt =====
-- Rules for the two judgements on functions that call the API server: what every run keeps, and
-- what a run gives that returns without an error.
use raft_based_mysql_cluster.Prelude.{
  subst, ◌≢◌, Bool, true, false, List, [], ◌∷◌, ◌≡◌, refl, inl, inr, In, if◌then◌else◌,
}
use raft_based_mysql_cluster.Go.{
  Error, Result, ok, err, waiting, panic, Go, pure, raise, lift, map_err, continue, ◌>>=◌, try,
  for_each,
}
use raft_based_mysql_cluster.Go.Keeps.{
  Holds, Ensures, Always, Keeps, Ensures-pure, Ensures-raise, Ensures-map_err, Ensures-bind,
  Ensures-try,
}

-- A run that returns without an error ends in a state with `H`.
abbrev pub Gives : {S A : Type 0} → (S → Type 0) → Go S A → Type 0
Gives H m = Ensures (λ _. Unit) (λ _ s. H s) m

module _ {S A : Type 0} {P : S → Type 0} where
  pub Keeps-pure : (a : A) → Keeps P (pure a)
  Keeps-pure a = Ensures-pure Always a (λ s p. tt)

  pub Keeps-raise : (e : Error) → Keeps P (raise {A = A} e)
  Keeps-raise e = Ensures-raise Always e

  pub Keeps-lift : (r : Result A) → Keeps P (lift r)
  unfolding lift
  Keeps-lift (ok a) = record { at = λ s p. (p, tt) }
  Keeps-lift (err e) = record { at = λ s p. p }
  Keeps-lift waiting = record { at = λ s p. p }
  Keeps-lift panic = record { at = λ s p. p }

  pub Keeps-map_err : (f : Error → Error) (m : Go S A) → Keeps P m → Keeps P (map_err f m)
  Keeps-map_err f m h = Ensures-map_err Always f m h

  pub Keeps-if : (b : Bool) (m n : Go S A) → Keeps P m → Keeps P n → Keeps P (if b then m else n)
  Keeps-if true m n hm hn = hm
  Keeps-if false m n hm hn = hn

  pub Gives-raise : (e : Error) → Gives P (raise {A = A} e)
  Gives-raise e = Ensures-raise (λ _ s. P s) e

  pub Gives-waiting : Gives P (lift {A = A} waiting)
  unfolding lift
  Gives-waiting = record { at = λ s p. p }

  pub Gives-map_err : (f : Error → Error) (m : Go S A) → Gives P m → Gives P (map_err f m)
  Gives-map_err f m h = Ensures-map_err (λ _ s. P s) f m h

  pub Gives-if : (b : Bool) (m n : Go S A) → Gives P m → Gives P n → Gives P (if b then m else n)
  Gives-if true m n hm hn = hm
  Gives-if false m n hm hn = hn

  pub Gives-of_kept :
      (m : Go S A) → Keeps P m → (s : S) → P s → Holds (λ _. Unit) (λ _ s. P s) (m s).0 (m s).1
  Gives-of_kept m h s p = go (m s).0 (m s).1 (h.at s p)
    where
      go : (r : Result A) (s' : S) → Holds P Always r s' → Holds (λ _. Unit) (λ _ s. P s) r s'
      go (ok a) s' q = (tt, q.0)
      go (err e) s' q = tt
      go waiting s' q = tt
      go panic s' q = tt

anything : {S A : Type 0} (m : Go S A) → Ensures (λ _. Unit) Always m
anything {S} {A} m = record { at = λ s p. go (m s).0 (m s).1 }
  where
    go : (r : Result A) (s' : S) → Holds (λ _. Unit) Always r s'
    go (ok a) s' = (tt, tt)
    go (err e) s' = tt
    go waiting s' = tt
    go panic s' = tt

module _ {S A B : Type 0} {P : S → Type 0} where
  pub Keeps-bind :
      (m : Go S A) (f : A → Go S B) → Keeps P m → ((a : A) → Keeps P (f a)) → Keeps P (m >>= f)
  Keeps-bind m f hm hf = Ensures-bind Always Always m f hm (λ a s p q. (hf a).at s p)

  pub Keeps-try :
      (m : Go S A) (f : A → Go S B) (g : Error → Go S B)
      → Keeps P m
      → ((a : A) → Keeps P (f a))
      → ((e : Error) → Keeps P (g e))
      → Keeps P (try m f g)
  Keeps-try m f g hm hf hg = Ensures-try Always Always m f g hm (λ a s p q. (hf a).at s p) hg

  -- Given by the rest of the block.
  pub Gives-then : (m : Go S A) (f : A → Go S B) → ((a : A) → Gives P (f a)) → Gives P (m >>= f)
  Gives-then m f hf = Ensures-bind Always (λ _ s. P s) m f (anything m) (λ a s p q. (hf a).at s tt)

  -- Given by a call, and kept by the rest.
  pub Gives-first :
      (m : Go S A) (f : A → Go S B) → Gives P m → ((a : A) → Keeps P (f a)) → Gives P (m >>= f)
  Gives-first m f hm hf =
      Ensures-bind (λ _ s. P s) (λ _ s. P s) m f hm (λ a s p q. Gives-of_kept (f a) (hf a) s q)

  -- Given by a read that succeeds, and by what is done where it fails.
  pub Gives-try :
      (m : Go S A) (f : A → Go S B) (g : Error → Go S B)
      → Gives P m
      → ((a : A) → Keeps P (f a))
      → ((e : Error) → Gives P (g e))
      → Gives P (try m f g)
  Gives-try m f g hm hf hg =
      Ensures-try (λ _ s. P s) (λ _ s. P s) m f g hm (λ a s p q. Gives-of_kept (f a) (hf a) s q) hg

module _ {S A : Type 0} {P : S → Type 0} where
  pub Keeps-for_each :
      (body : A → Go S (Unit {0})) (xs : List A)
      → ((x : A) → Keeps P (body x))
      → Keeps P (for_each body xs)
  unfolding for_each
  Keeps-for_each body [] h = Keeps-pure tt
  Keeps-for_each body (x ∷ xs) h = Keeps-bind (body x) _ (h x) (λ _. Keeps-for_each body xs h)

  -- What the round of one element gives and every round keeps, the loop gives.
  pub Gives-for_each :
      (body : A → Go S (Unit {0})) (xs : List A) (a : A)
      → In a xs
      → Gives P (body a)
      → ((x : A) → Keeps P (body x))
      → Gives P (for_each body xs)
  unfolding for_each
  Gives-for_each body [] a m give keep = elim m [ ]
  Gives-for_each body (x ∷ xs) a (inl e) give keep =
      Gives-first (body x) _ (rw (← e) give) (λ _. Keeps-for_each body xs keep)
  Gives-for_each body (x ∷ xs) a (inr m) give keep =
      Gives-then (body x) _ (λ _. Gives-for_each body xs a m give keep)

pub ruleset keeps_rules = (
  Keeps-pure, Keeps-raise, Keeps-lift, Keeps-map_err, Keeps-if, Keeps-bind, Keeps-try,
  Keeps-for_each,
)

-- After what never happens, anything is kept.
pub Keeps-never : {S A : Type 0} (m : Go S A) → Keeps (λ s. ⊥) m
Keeps-never m = record { at = λ s p. absurd p }

-- A call that never returns a value keeps the block from returning one.
pub Gives-never :
    {S A B : Type 0} (m : Go S A) (f : A → Go S B) → Gives (λ s. ⊥) m → Gives (λ s. ⊥) (m >>= f)
Gives-never m f h = Gives-first m f h (λ a. Keeps-never (f a))

-- A call that returns a value at a state hands it, and the state behind the call, to the rest.
pub bind-ok :
    {S A B : Type 0} (m : Go S A) (f : A → Go S B) (s s' : S) (a : A)
    → m s ≡ (ok a, s')
    → (m >>= f) s ≡ f a s'
unfolding ◌>>=◌
bind-ok m f s s' a e = rw e

-- An error ends the block.
pub err-never_ok :
    {S A B : Type 0} (m : Go S A) (f : A → Go S B) (s s' : S) (b : B) (e : Error)
    → (m s).0 ≡ err e
    → (m >>= f) s ≢ (ok b, s')
unfolding ◌>>=◌
err-never_ok m f s s' b e h run = cc (rw h at run)

-- A call that returns a value gives what it gives.
pub given :
    {S A : Type 0} (P : S → Type 0) (m : Go S A) (s s' : S) (a : A)
    → Gives P m
    → m s ≡ (ok a, s')
    → P s'
given P m s s' a h e = (subst (λ o. Holds (λ _. Unit) (λ _ t. P t) o.0 o.1) e (h.at s tt)).1

-- What a block returns, it returns behind a first call that returns.
pub bind-gives :
    {S A B : Type 0} (m : Go S A) (f : A → Go S B) (s : S) (b : B)
    → ((m >>= f) s).0 ≡ ok b
    → (a : A) × (s' : S) × (m s ≡ (ok a, s')) × ((f a s').0 ≡ ok b)
unfolding ◌>>=◌
bind-gives {S} {A} {B} m f s b = go (m s).0 (m s).1
  where
    go :
        (r : Result A) (t : S)
        → ((continue r f t).0 ≡ ok b)
        → (a : A) × (s' : S) × (◌≡◌ {A = Result A × S} (r, t) (ok a, s')) × ((f a s').0 ≡ ok b)
    go (ok a) t h = (a, t, refl, h)
    go (err e) t h = absurd (cc h)
    go waiting t h = absurd (cc h)
    go panic t h = absurd (cc h)

-- What gives the impossible never returns.
pub not-ok : {S A : Type 0} (m : Go S A) → Gives (λ s. ⊥) m → (s : S) (a : A) → ¬ ((m s).0 ≡ ok a)
not-ok {S} {A} m h s a e = (subst (λ r. Holds (λ _. Unit) (λ _ _. ⊥) r (m s).1) e (h.at s tt)).1

-- A call that returns a value has kept what it keeps.
pub kept :
    {S A : Type 0} (P : S → Type 0) (m : Go S A) (s s' : S) (a : A)
    → Keeps P m
    → P s
    → m s ≡ (ok a, s')
    → P s'
kept P m s s' a h p e = (subst (λ o. Holds P Always o.0 o.1) e (h.at s p)).0

-- A block that returns a value has gone through its first call.
pub bind-run :
    {S A B : Type 0} (m : Go S A) (f : A → Go S B) (s t : S) (b : B)
    → (m >>= f) s ≡ (ok b, t)
    → (a : A) × (s' : S) × (m s ≡ (ok a, s')) × (f a s' ≡ (ok b, t))
unfolding ◌>>=◌
bind-run {S} {A} {B} m f s t b = go (m s).0 (m s).1
  where
    go :
        (r : Result A) (u : S)
        → continue r f u ≡ (ok b, t)
        → (a : A) × (s' : S) × (◌≡◌ {A = Result A × S} (r, u) (ok a, s')) × (f a s' ≡ (ok b, t))
    go (ok a) u h = (a, u, refl, h)
    go (err e) u h = absurd (cc h)
    go waiting u h = absurd (cc h)
    go panic u h = absurd (cc h)
