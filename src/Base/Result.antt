-- ===== src/Base/Result.antt =====
-- Methods that may raise: a pure one returns a `Result`, one that mutates returns the state beside
-- it, since what was written before a raise stays written.
use mathlib.Core.Path.{◌≡◌, refl, subst}
use mathlib.Core.Logic.{◌⊎◌, inl, inr}

pub data Result {ℓ κ} (Raised : Type ℓ) (Value : Type κ) : Type (ℓ ⊔ κ) where
  err : Raised → Result Raised Value
  ok : Value → Result Raised Value

module _ {ℓ κ ι} {Raised : Type ℓ} {Value : Type κ} {Next : Type ι} where
  infixl 5 ◌>>=◌
  abbrev pub ◌>>=◌ : Result Raised Value → (Value → Result Raised Next) → Result Raised Next
  err x >>= k = err x
  ok v >>= k = k v

  -- Inversion of a successful bind, for proofs where the parts stay shut.
  pub >>=-eq-ok :
      (r : Result Raised Value) (k : Value → Result Raised Next) {n : Next} (h : (r >>= k) ≡ ok n)
      → (v : Value) × (r ≡ ok v) × (k v ≡ ok n)
  >>=-eq-ok (err x) k h = cc
  >>=-eq-ok (ok v) k h = (v, refl, h)

pub Result-cases {ℓ κ} :
    {Raised : Type ℓ} {Value : Type κ} (r : Result Raised Value)
    → ((v : Value) × (r ≡ ok v)) ⊎ ((x : Raised) × (r ≡ err x))
Result-cases (err x) = inr (x, refl)
Result-cases (ok v) = inl (v, refl)

-- what holds of the value, if there is one
abbrev pub OnOk {ℓ κ ι} :
    {Raised : Type ℓ} {Value : Type κ} → (Value → Type ι) → Result Raised Value → Type ι
OnOk P (err x) = Unit
OnOk P (ok v) = P v

-- what holds of the exception, if there is one
abbrev pub OnErr {ℓ κ ι} :
    {Raised : Type ℓ} {Value : Type κ} → (Raised → Type ι) → Result Raised Value → Type ι
OnErr P (err x) = P x
OnErr P (ok v) = Unit

pub OnOk-eq-ok {ℓ κ ι} :
    {Raised : Type ℓ} {Value : Type κ} (P : Value → Type ι) (r : Result Raised Value) {v : Value}
    → OnOk P r
    → r ≡ ok v
    → P v
OnOk-eq-ok {Raised = Raised} P r h e = subst (OnOk {Raised = Raised} P) e h

pub OnOk-intro {ℓ κ ι} :
    {Raised : Type ℓ} {Value : Type κ} (P : Value → Type ι) (r : Result Raised Value)
    → ((v : Value) → r ≡ ok v → P v)
    → OnOk P r
OnOk-intro P (err x) h = tt
OnOk-intro P (ok v) h = h v refl

pub OnOk-weaken {ℓ κ ι ο} :
    {Raised : Type ℓ} {Value : Type κ} (P : Value → Type ι) (Q : Value → Type ο)
    (r : Result Raised Value)
    → OnOk P r
    → ((v : Value) → P v → Q v)
    → OnOk Q r
OnOk-weaken P Q (err x) h f = tt
OnOk-weaken P Q (ok v) h f = f v h

pub OnOk-bind {ℓ κ ι ο ν} :
    {Raised : Type ℓ} {Value : Type κ} {Next : Type ι} (P : Value → Type ο) (Q : Next → Type ν)
    (r : Result Raised Value) (k : Value → Result Raised Next)
    → OnOk P r
    → ((v : Value) → P v → OnOk Q (k v))
    → OnOk Q (r >>= k)
OnOk-bind P Q (err x) k h f = tt
OnOk-bind P Q (ok v) k h f = f v h
