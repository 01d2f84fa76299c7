-- ===== src/Handover/Spec/Refines.antt =====
-- The rules by which the methods of `HandoverCoordinator` (tools/handover_acceleration/coordinator.py)
-- are shown to be steps of the machine of modes.
use optolink.Base.{◌≡◌, refl, ap, ◌∙◌, &&-eq-true, sym, Bool, true, if_elim}
use mathlib.Core.Path.{subst}
use optolink.Base.Effect.{◌>>=◌, ◌>>◌, change, on_raise, Outcome}
use optolink.Base.Effect.Triples.{
  Does-bind, Does-on_raise, Does-from, Does-weaken, Does, Does-change, Does-check, Does-fact,
}
use optolink.Base.Result.{Result, ok, err}
use optolink.Handover.{Mode, Raised, protocol, assertion}
use optolink.Handover.Wire.{Wire, WireOp}
use optolink.Handover.Owner.{
  Owner, OwnerOp, is_vs1_verified, is_p300_verified, fail_closed, on_wire, assert_wire,
  require_mode, require_mode_and_wire,
}
use optolink.Handover.Sound.Reads.{vs1_mode, p300_mode}
use optolink.Handover.Spec.{View, at, Step, Reach, here, next, Reach-trans}

pub from_vs1 :
    (m : Mode) (o t : Bool) (u : View)
    → is_vs1_verified m ≡ true
    → Step (at Mode.vs1_verified o t) u
    → Step (at m o t) u
from_vs1 m o t u h = subst (λ x. Step (at x o t) u) (sym (vs1_mode m h))

pub from_p300 :
    (m : Mode) (o t : Bool) (u : View)
    → is_p300_verified m ≡ true
    → Step (at Mode.p300_verified o t) u
    → Step (at m o t) u
from_p300 m o t u h = subst (λ x. Step (at x o t) u) (sym (p300_mode m h))

module _ {W : Type 0} where
  abbrev pub At : View → Owner W → Type 0
  At v s = (s.mode ≡ v.mode) × (s.has_wire ≡ v.open_) × (s.recovery_attempted ≡ v.tried)

  abbrev pub Reached : View → Owner W → Type 0
  Reached v s = (u : View) × Reach v u × At u s

  -- by no step, and by one
  pub stays : (v : View) (s : Owner W) → At v s → Reached v s
  stays v s i = (v, here, i)

  pub goes : (v u : View) → Step v u → (s : Owner W) → At u s → Reached v s
  goes v u st s i = (u, next here st, i)

  abbrev pub Moves : {A : Type 0} → View → OwnerOp W A → Type 0
  Moves v m = Does (At v) m (λ _. Reached v) (λ _. Reached v)

  abbrev pub Refines : {A : Type 0} → OwnerOp W A → Type 0
  Refines m = (v : View) → Moves v m

  -- what an operation of the wire does not touch
  pub frame :
      {A : Type 0} (v : View) (m : WireOp W A) → Does (At v) (on_wire m) (λ _. At v) (λ _. At v)
  unfolding on_wire
  frame {A = A} v m = record { at = λ s i. kept s i (m s.wire).0 (m s.wire).1 }
    where
      kept :
          (s : Owner W)
          → At v s
          → (r : Result Raised A) (w : Wire W)
          → Outcome (λ _. At v) (λ _. At v) r (record s { wire = w })
      kept s i (ok a) w = i
      kept s i (err e) w = i

  -- The end of a handshake in either outcome.
  pub ends :
      (v w u x : View) (Y : Owner W → Type 0) (m : OwnerOp W (Unit {0})) (f g : Owner W → Owner W)
      → Does (At w) m (λ _. At w) (λ _. At w)
      → ((s : Owner W) → At w s → At x (f s))
      → ((s : Owner W) → At w s → At u (g s))
      → Step v u
      → ((s : Owner W) → At x s → Y s)
      → Does (At w) (on_raise f m >>= λ _. change g) (λ _. Reached v) (λ _. Y)
  ends v w u x Y m f g h hf hg su sx =
      Does-bind (λ _. At w) _ _
        (Does-on_raise f _
          (Does-weaken (λ _. At w) (λ _. At w) _ h (λ _ s i. i) (λ e s i. sx (f s) (hf s i))))
        (λ _. Does-change g (λ s i. goes v u su (g s) (hg s i)))

  -- behind the test of the mode, and of the mode and the wire
  pub in_mode :
      {A : Type 0} (v : View) (test : Mode → Bool) (k : OwnerOp W A)
      → (test v.mode ≡ true → Moves v k)
      → Moves v (require_mode test >> k)
  in_mode v test k h =
      Does-check _ protocol _ (λ s i _. stays v s i)
        (Does-from (λ s. At v s × (test v.mode ≡ true)) _ (λ s i. (i.0, sym (ap test i.0.0) ∙ i.1))
          (Does-fact _ h))

  pub in_mode_and_wire :
      {A : Type 0} (v : View) (test : Mode → Bool) (k : OwnerOp W A)
      → (test v.mode ≡ true → Moves v k)
      → Moves v (require_mode_and_wire test >> k)
  in_mode_and_wire v test k h =
      Does-check _ protocol _ (λ s i _. stays v s i)
        (Does-from (λ s. At v s × (test v.mode ≡ true)) _
          (λ s i. (i.0, sym (ap test i.0.0) ∙ (&&-eq-true _ _ i.1).0)) (Does-fact _ h))

  pub At-fail_closed :
      (v : View) (s : Owner W) → At v s → At (at Mode.failed_closed v.open_ v.tried) (fail_closed s)
  At-fail_closed v s i =
      if_elim (λ (x : Owner W). At (at Mode.failed_closed v.open_ v.tried) x) s.has_wire
        (λ _. (refl, i.1, i.2)) (λ _. (refl, i.1, i.2))

  pub asserted :
      {A : Type 0} (v : View) (m : OwnerOp W A)
      → Does (At v) m (λ _. At v) (λ _. At v)
      → Does (At v) (assert_wire >> m) (λ _. At v) (λ _. At v)
  asserted v m h = Does-check _ assertion _ (λ s i _. i) (Does-from (At v) _ (λ s i. i.0) h)

  pub further_with :
      {A : Type 0} {v : View} (K : Owner W → Type 0) (m : OwnerOp W A)
      → ((u : View) → Does (λ s. At u s × K s) m (λ _. Reached u) (λ _. Reached u))
      → Does (λ s. Reached v s × K s) m (λ _. Reached v) (λ _. Reached v)
  further_with {A = A} {v = v} K m h = record {
    at = λ s i. more i.0.0 i.0.1 (m s).0 (m s).1 ((h i.0.0).at s (i.0.2, i.1));
  }
    where
      more :
          (u : View)
          → Reach v u
          → (r : Result Raised A) (s : Owner W) → Outcome (λ _. Reached u) (λ _. Reached u) r s
          → Outcome (λ _. Reached v) (λ _. Reached v) r s
      more u p (ok a) s (w, q, i) = (w, Reach-trans p q, i)
      more u p (err e) s (w, q, i) = (w, Reach-trans p q, i)

  pub further :
      {A : Type 0} {v : View} (m : OwnerOp W A)
      → Refines m
      → Does (Reached v) m (λ _. Reached v) (λ _. Reached v)
  further {v = v} m h =
      Does-from (λ s. Reached v s × Unit {0}) m (λ s i. (i, tt))
        (further_with (λ _. Unit {0}) m (λ u. Does-from (At u) m (λ s i. i.0) (h u)))

  -- one method after another
  pub after :
      {A B : Type 0} (v : View) (m : OwnerOp W B) (k : B → OwnerOp W A)
      → Moves v m
      → ((b : B) → Refines (k b))
      → Moves v (m >>= k)
  after v m k hm hk = Does-bind (λ _. Reached v) _ _ hm (λ b. further (k b) (hk b))
