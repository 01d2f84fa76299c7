-- ===== src/Base/Effect/Triples.antt =====
-- What code that mutates a state and may raise does from a state of one kind, in either outcome:
-- triples and their rules.
use mathlib.Core.Bool.{Bool, true, false}
use mathlib.Core.Path.{◌≡◌, refl, sym, subst}
use optolink.Base.Tests.{if◌then◌else◌, if_elim}
use optolink.Base.Result.{Result, ok, err}
use optolink.Base.Effect.{
  Op, give, raise, ◌>>=◌, view, on_raise, except, change, finally, check, demand, Outcome, ◌>>◌,
}

-- From a state with `P`, the operation returns with `Q` or raises with `X`.
pub record Does {E S A : Type 0} (P : S → Type 0) (m : Op E S A) (Q : A → S → Type 0)
    (X : E → S → Type 0) : Type 0 where
  pub at : (s : S) → P s → Outcome Q X (m s).0 (m s).1

module _ {E S A : Type 0} {Q : A → S → Type 0} {X : E → S → Type 0} where
  module _ {P : S → Type 0} where
    pub Does-give : (a : A) → ((s : S) → P s → Q a s) → Does P (give a) Q X
    unfolding give
    Does-give a f = record { at = λ s p. f s p }

    pub Does-raise : (e : E) → ((s : S) → P s → X e s) → Does P (raise e) Q X
    unfolding raise
    Does-raise e f = record { at = λ s p. f s p }

    pub Does-view : (f : S → A) → ((s : S) → P s → Q (f s) s) → Does P (view f) Q X
    unfolding view
    Does-view f q = record { at = λ s p. q s p }

    pub Does-from :
        (P' : S → Type 0) (m : Op E S A) → ((s : S) → P s → P' s) → Does P' m Q X → Does P m Q X
    Does-from P' m f h = record { at = λ s p. h.at s (f s p) }

    pub Does-weaken :
        (Q' : A → S → Type 0) (X' : E → S → Type 0) (m : Op E S A)
        → Does P m Q' X'
        → ((a : A) (s : S) → Q' a s → Q a s)
        → ((e : E) (s : S) → X' e s → X e s)
        → Does P m Q X
    Does-weaken Q' X' m h q x = record { at = λ s p. outcome (m s).0 (m s).1 (h.at s p) }
      where
        outcome : (r : Result E A) (t : S) → Outcome Q' X' r t → Outcome Q X r t
        outcome (ok a) t o = q a t o
        outcome (err e) t o = x e t o

    -- two triples of one operation
    pub Does-both :
        {P' : S → Type 0} {Q' : A → S → Type 0} {X' : E → S → Type 0} (m : Op E S A)
        → Does P m Q X
        → Does P' m Q' X'
        → Does (λ s. P s × P' s) m (λ a s. Q a s × Q' a s) (λ e s. X e s × X' e s)
    Does-both {Q' = Q'} {X' = X'} m h k = record {
      at = λ s p. outcome (m s).0 (m s).1 (h.at s p.0) (k.at s p.1);
    }
      where
        outcome :
            (r : Result E A) (t : S)
            → Outcome Q X r t
            → Outcome Q' X' r t
            → Outcome (λ a s. Q a s × Q' a s) (λ e s. X e s × X' e s) r t
        outcome (ok a) t o o' = (o, o')
        outcome (err e) t o o' = (o, o')

    pub Does-bind :
        {B : Type 0} (R : B → S → Type 0) (m : Op E S B) (k : B → Op E S A)
        → Does P m R X
        → ((b : B) → Does (R b) (k b) Q X)
        → Does P (m >>= k) Q X
    unfolding ◌>>=◌
    Does-bind {B = B} R m k hm hk = record { at = λ s p. outcome (m s).0 (m s).1 (hm.at s p) }
      where
        outcome :
            (r : Result E B) (t : S)
            → Outcome R X r t
            → let e = elim r as (λ _. Result E A × S) [ err e ↦ (err e, t) | ok b ↦ k b t ] in
              Outcome Q X e.0 e.1
        outcome (ok b) t o = (hk b).at t o
        outcome (err e) t o = o

    pub Does-if :
        (b : Bool) (m n : Op E S A)
        → (b ≡ true → Does P m Q X)
        → (b ≡ false → Does P n Q X)
        → Does P (if b then m else n) Q X
    Does-if b m n hm hn = if_elim (λ (o : Op E S A). Does P o Q X) b hm hn

    pub Does-on_raise :
        (f : S → S) (m : Op E S A) → Does P m Q (λ e s. X e (f s)) → Does P (on_raise f m) Q X
    unfolding on_raise
    Does-on_raise f m h = record { at = λ s p. outcome (m s).0 (m s).1 (h.at s p) }
      where
        outcome :
            (r : Result E A) (t : S)
            → Outcome Q (λ e s. X e (f s)) r t
            → let o = elim r as (λ _. Result E A × S) [ err e ↦ (err e, f t) | ok a ↦ (ok a, t) ] in
              Outcome Q X o.0 o.1
        outcome (ok a) t o = o
        outcome (err e) t o = o

    pub Does-except :
        (Y : E → S → Type 0) (m : Op E S A) (k : E → Op E S A)
        → Does P m Q Y
        → ((e : E) → Does (Y e) (k e) Q X)
        → Does P (except m k) Q X
    unfolding except
    Does-except Y m k hm hk = record { at = λ s p. outcome (m s).0 (m s).1 (hm.at s p) }
      where
        outcome :
            (r : Result E A) (t : S)
            → Outcome Q Y r t
            → let o = elim r as (λ _. Result E A × S) [ err e ↦ k e t | ok a ↦ (ok a, t) ] in
              Outcome Q X o.0 o.1
        outcome (ok a) t o = o
        outcome (err e) t o = (hk e).at t o

module _ {E S A : Type 0} {P : S → Type 0} {Q : A → S → Type 0} {X : E → S → Type 0} where
  pub Does-finally :
      (R : A → S → Type 0) (Y : E → S → Type 0) (m : Op E S A) (k : Op E S (Unit {0}))
      → Does P m R Y
      → ((a : A) → Does (R a) k (λ _ s. Q a s) X)
      → ((e : E) → Does (Y e) k (λ _ s. X e s) X)
      → Does P (finally m k) Q X
  unfolding finally
  Does-finally R Y m k hm hr hy = record { at = λ s p. outcome (m s).0 (m s).1 (hm.at s p) }
    where
      outcome :
          (r : Result E A) (t : S)
          → Outcome R Y r t
          → let o = elim r as (λ _. Result E A × S) [
            | err e ↦ (k >> raise e) t
            | ok a ↦ (k >> give a) t
          ] in
            Outcome Q X o.0 o.1
      outcome (ok a) t o =
          (Does-bind (λ _ s. Q a s) k (λ _. give a) (hr a) (λ _. Does-give a (λ s q. q))).at t o
      outcome (err e) t o =
          (Does-bind (λ _ s. X e s) k (λ _. raise e) (hy e) (λ _. Does-raise e (λ s q. q))).at t o

module _ {E S : Type 0} {Q : Unit {0} → S → Type 0} {X : E → S → Type 0} where
  pub Does-change :
      {P : S → Type 0} (f : S → S) → ((s : S) → P s → Q tt (f s)) → Does P (change f) Q X
  unfolding change
  Does-change f q = record { at = λ s p. q s p }

  pub Does-demand :
      {P : S → Type 0} (b : Bool) (e : E)
      → ((s : S) → P s → b ≡ true → Q tt s)
      → ((s : S) → P s → b ≡ false → X e s)
      → Does P (demand b e) Q X
  unfolding demand
  Does-demand b e q x = record {
    at = λ s p. if_elim (λ (r : Result E (Unit {0}) × S). Outcome Q X r.0 r.1) b (q s p) (x s p);
  }

module _ {E S A : Type 0} {P : S → Type 0} {Q : A → S → Type 0} {X : E → S → Type 0} where
  -- a test at the head of a block
  pub Does-test :
      (b : Bool) (e : E) (k : Op E S A)
      → ((s : S) → P s → b ≡ false → X e s)
      → (b ≡ true → Does P k Q X)
      → Does P (demand b e >> k) Q X
  unfolding demand ◌>>=◌
  Does-test true e k x h = record { at = λ s p. (h refl).at s p }
  Does-test false e k x h = record { at = λ s p. x s p refl }

  -- what is read off the state, where it is known
  pub Does-known :
      {B : Type 0} (f : S → B) (b : B) (k : B → Op E S A)
      → ((s : S) → P s → f s ≡ b)
      → Does P (k b) Q X
      → Does P (view f >>= k) Q X
  unfolding view ◌>>=◌
  Does-known f b k e h = record {
    at = λ s p. subst (λ c. Outcome Q X (k c s).0 (k c s).1) (sym (e s p)) (h.at s p);
  }

  pub Does-check :
      (f : S → Bool) (e : E) (k : Op E S A)
      → ((s : S) → P s → f s ≡ false → X e s)
      → Does (λ s. P s × (f s ≡ true)) k Q X
      → Does P (check f e >> k) Q X
  unfolding check ◌>>=◌
  Does-check f e k x h = record { at = λ s p. tested s p (f s) refl }
    where
      tested :
          (s : S)
          → P s
          → (b : Bool) → f s ≡ b
          → let c : Result E (Unit {0}) × S = if b then (ok tt, s) else (err e, s) in
            let o = elim c.0 as (λ _. Result E A × S) [ err y ↦ (err y, c.1) | ok _ ↦ k c.1 ] in
            Outcome Q X o.0 o.1
      tested s p true t = h.at s (p, t)
      tested s p false t = x s p t

  -- what does not speak of the state
  pub Does-fact : {K : Type 0} (m : Op E S A) → (K → Does P m Q X) → Does (λ s. P s × K) m Q X
  Does-fact m h = record { at = λ s p. (h p.1).at s p.0 }

module _ {E S A : Type 0} {P : S → Type 0} where
  pub Does-any : (m : Op E S A) → Does P m (λ _ _. Unit {0}) (λ _ _. Unit {0})
  Does-any m = record { at = λ s p. outcome (m s).0 (m s).1 }
    where
      outcome : (r : Result E A) (t : S) → Outcome (λ _ _. Unit {0}) (λ _ _. Unit {0}) r t
      outcome (ok a) t = tt
      outcome (err e) t = tt

-- an operation that leaves the same in both outcomes leaves it
pub Does-either :
    {E S A : Type 0} {P : S → Type 0} (Q : S → Type 0) (m : Op E S A) (s : S)
    → P s
    → Does P m (λ _. Q) (λ _. Q)
    → Q (m s).1
Does-either {E = E} {S = S} {A = A} Q m s i h = either (m s).0 (m s).1 (h.at s i)
  where
    either : (r : Result E A) (t : S) → Outcome (λ _. Q) (λ _. Q) r t → Q t
    either (ok a) t o = o
    either (err e) t o = o
