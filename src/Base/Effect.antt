-- ===== src/Base/Effect.antt =====
-- Code that mutates a state and may raise: operations on any state, and triples, which say what an
-- operation does from a state of one kind in either outcome.
pub mod Triples
use mathlib.Core.Bool.{Bool}
use optolink.Base.Tests.{if◌then◌else◌}
use optolink.Base.Result.{Result, ok, err}

abbrev pub Op : Type 0 → Type 0 → Type 0 → Type 0
Op E S A = S → Result E A × S

module _ {E S A : Type 0} where
  unfoldable pub give : A → Op E S A
  give a s = (ok a, s)

  unfoldable pub raise : E → Op E S A
  raise e s = (err e, s)

  infixl 5 ◌>>=◌ ◌>>◌
  unfoldable pub ◌>>=◌ : {B : Type 0} → Op E S B → (B → Op E S A) → Op E S A
  (m >>= k) s = elim (m s).0 [ err e ↦ (err e, (m s).1) | ok b ↦ k b (m s).1 ]

  abbrev pub ◌>>◌ : Op E S (Unit {0}) → Op E S A → Op E S A
  m >> k = m >>= λ _. k

  -- what is read off the state
  unfoldable pub view : (S → A) → Op E S A
  view f s = (ok (f s), s)

  -- `except BaseException: ...; raise`, with what the handler does to the state
  unfoldable pub on_raise : (S → S) → Op E S A → Op E S A
  on_raise f m s = elim (m s).0 [ err e ↦ (err e, f (m s).1) | ok a ↦ (ok a, (m s).1) ]

  -- `try` with a handler for every exception
  unfoldable pub except : Op E S A → (E → Op E S A) → Op E S A
  except m k s = elim (m s).0 [ err e ↦ k e (m s).1 | ok a ↦ (ok a, (m s).1) ]

module _ {E S : Type 0} where
  -- a change of the state
  unfoldable pub change : (S → S) → Op E S (Unit {0})
  change f s = (ok tt, f s)

  -- `try: m finally: k`; what `k` raises takes the place of the outcome of `m`
  unfoldable pub finally : {A : Type 0} → Op E S A → Op E S (Unit {0}) → Op E S A
  finally m k s = elim (m s).0 [ err e ↦ (k >> raise e) (m s).1 | ok a ↦ (k >> give a) (m s).1 ]

  -- a test of the state that raises where it fails
  unfoldable pub check : (S → Bool) → E → Op E S (Unit {0})
  check f e s = if f s then (ok tt, s) else (err e, s)

  -- `if not test: raise e`
  unfoldable pub demand : Bool → E → Op E S (Unit {0})
  demand test e s = if test then (ok tt, s) else (err e, s)

module _ {E S A : Type 0} where
  abbrev pub Outcome : (A → S → Type 0) → (E → S → Type 0) → Result E A → S → Type 0
  Outcome Q X (ok a) s = Q a s
  Outcome Q X (err e) s = X e s
