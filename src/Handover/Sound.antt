-- ===== src/Handover/Sound.antt =====
-- The mode of `HandoverCoordinator` (tools/handover_acceleration/coordinator.py) tells the state of
-- the wire, through every method and in either outcome.
pub mod Reads
pub mod Sessions
pub mod Switches
use optolink.Base.{
  ℕ, ◌≡◌, ◌≢◌, refl, Bool, true, false, none, some, List, [], Never, if_elim, if◌then◌else◌,
}
use optolink.Base.Effect.{◌>>◌, change, on_raise, demand, Outcome}
use optolink.Base.Effect.Triples.{Does-bind, Does-on_raise, Does, Does-change, Does-check}
use optolink.Base.Result.{Result, ok, err}
use optolink.Handover.{Mode, WirePhase, Raised, assertion, stuck}
use optolink.Handover.Wire.{Handshake, Wire, WireOp}
use optolink.Handover.Owner.{
  Owner, OwnerOp, set_mode, fail_closed, on_wire, outside, attach_vs1, recover_vs1,
}
use optolink.Handover.Guarded.{Calm, Watch}
use optolink.Handover.Guarded.Sessions.{Proven, InVs1, Refused}
use optolink.Handover.Guarded.Handshakes.{verify_attached_vs1-InVs1, verify_vs1-InVs1}

-- the modes between two calls
abbrev pub Rests : Mode → Type 0
Rests Mode.unknown = Never
Rests Mode.switching = Never
Rests Mode.recovering = Never
Rests _ = Unit

-- the phase and the samples of an open wire in a mode
abbrev pub Fits : Mode → WirePhase → List Handshake → Type 0
Fits Mode.vs1_verified p hs = (p ≡ WirePhase.vs1_verified) × Proven hs
Fits Mode.p300_verified p hs = (p ≡ WirePhase.p300_verified) × (hs ≡ [])
Fits Mode.failed_closed p hs = (p ≡ WirePhase.failed_closed) × (hs ≡ [])
Fits _ p hs = Never

module _ {W : Type 0} where
  abbrev pub IsSound : Owner W → Type 0
  IsSound s =
      Calm s.wire
      × Rests s.mode
      × (s.has_wire ≡ true → Fits s.mode s.wire.phase s.wire.handshake_gfa)

  -- calm, and sound if there is no wire: before a handshake
  abbrev pub IsReady : Owner W → Type 0
  IsReady s = Calm s.wire × (s.has_wire ≡ false → Rests s.mode)

  -- without a wire
  abbrev pub IsLeft : Owner W → Type 0
  IsLeft s = Calm s.wire × Rests s.mode × (s.has_wire ≡ false)

  pub sound-IsReady : (s : Owner W) → IsSound s → IsReady s
  sound-IsReady s i = (i.0, λ _. i.1)

  pub left-IsSound : (s : Owner W) → IsLeft s → IsSound s
  left-IsSound s i = (i.0, i.1, λ h. absurd cc)

module _ {W : Type 0} (watch : Watch W) where
  open watch use {port, Fine, fine}

  abbrev pub Raises : Raised → Owner W → Type 0
  Raises e s = IsSound s × Fine e

  abbrev pub Keeps : {A : Type 0} → OwnerOp W A → Type 0
  Keeps m = Does IsSound m (λ _. IsSound) Raises

  pub fail :
      {P : Owner W → Type 0} (e : Raised)
      → e ≢ stuck
      → ((s : Owner W) → P s → IsSound s)
      → (s : Owner W) → P s
      → Raises e s
  fail e n f s p = (f s p, fine e n)

  -- An operation of the wire changes nothing else.
  pub Does-on_wire :
      {A : Type 0} {P : Owner W → Type 0} {Q : A → Owner W → Type 0} {X : Raised → Owner W → Type 0}
      (P' : Wire W → Type 0) (Q' : A → Wire W → Type 0) (X' : Raised → Wire W → Type 0)
      (m : WireOp W A)
      → Does P' m Q' X'
      → ((s : Owner W) → P s → P' s.wire)
      → ((a : A) (s : Owner W) (w : Wire W) → P s → Q' a w → Q a (record s { wire = w }))
      → ((e : Raised) (s : Owner W) (w : Wire W) → P s → X' e w → X e (record s { wire = w }))
      → Does P (on_wire m) Q X
  unfolding on_wire
  Does-on_wire {A = A} {P = P} {Q = Q} {X = X} P' Q' X' m h p q x = record {
    at = λ s i. lifted s i (m s.wire).0 (m s.wire).1 (h.at s.wire (p s i));
  }
    where
      lifted :
          (s : Owner W)
          → P s
          → (r : Result Raised A) (w : Wire W) → Outcome Q' X' r w
          → Outcome Q X r (record s { wire = w })
      lifted s i (ok a) w o = q a s w i o
      lifted s i (err e) w o = x e s w i o

  -- where a test of the state fails in a sound state
  pub refused :
      (f : Owner W → Bool) (e : Raised)
      → e ≢ stuck
      → (s : Owner W) → IsSound s
      → f s ≡ false
      → Raises e s
  refused f e n s i _ = (i, fine e n)

  -- A handshake of the wire at whose end the mode is written down, in either outcome.
  pub transition :
      (P' : Wire W → Type 0) (m : WireOp W (Unit {0})) (f g : Owner W → Owner W)
      (Q' : Wire W → Type 0) (X' : Raised → Wire W → Type 0)
      → Does P' m (λ _. Q') X'
      → ((s : Owner W) → Q' s.wire → IsSound (g s))
      → ((e : Raised) (s : Owner W) → X' e s.wire → Raises e (f s))
      → Does (λ s. P' s.wire) (on_raise f (on_wire m) >> change g) (λ _. IsSound) Raises
  transition P' m f g Q' X' h q x =
      Does-bind (λ _ s. Q' s.wire) _ _
        (Does-on_raise f _ (
          Does-on_wire P' (λ _. Q') X' m h (λ s i. i) (λ _ s w _ o. o)
            (λ e s w _ o. x e (record s { wire = w }) o)))
        (λ _. Does-change g q)

  abbrev closed_sound :
      (e : Raised) (s : Owner W) → Refused Fine e s.wire → Raises e (set_mode Mode.failed_closed s)
  closed_sound e s o = ((o.0.2, tt, λ _. (o.0.0, o.0.1)), o.1)

  pub recover_vs1-Keeps :
      (count : ℕ) (recovery : Bool)
      → Does IsReady (recover_vs1 port count recovery) (λ _. IsSound) Raises
  unfolding recover_vs1
  recover_vs1-Keeps count recovery =
      Does-check _ assertion _ (λ s i e. ((i.0, i.1 e, λ h. absurd cc), fine assertion (cc)))
        (Does-bind (λ _ s. Calm s.wire) _ _ (Does-change _ (λ s i. i.0.0))
          (λ _.
            transition Calm _ _ _ InVs1 (Refused Fine) (verify_vs1-InVs1 watch count)
              (λ s i. (i.2, tt, λ _. (i.0, i.1))) closed_sound))

  pub attach_vs1-Keeps : Does IsReady (attach_vs1 port) (λ _. IsSound) Raises
  unfolding attach_vs1
  attach_vs1-Keeps =
      Does-check _ assertion _ (λ s i e. ((i.0, i.1 e, λ h. absurd cc), fine assertion (cc)))
        (Does-bind (λ _ s. Calm s.wire) _ _ (Does-change _ (λ s i. i.0.0))
          (λ _.
            transition Calm _ _ _ InVs1 (Refused Fine) (verify_attached_vs1-InVs1 watch)
              (λ s i. (i.2, tt, λ _. (i.0, i.1))) closed_sound))

  -- A call of the outside keeps what does not speak of the world.
  pub outside-Keeps :
      (P : Owner W → Type 0) (X : Raised → Owner W → Type 0) (f : W → Bool × W) (e : Raised)
      → ((s : Owner W) (w : W)
          → P s
          → let t : Owner W = record s { wire = record s.wire { world = w } } in P t)
      → ((s : Owner W) → P s → X e s)
      → Does P (outside f e) (λ _. P) X
  unfolding outside demand
  outside-Keeps P X f e k x = record {
    at = λ s p.
        called (f s.wire.world).0 (record s { wire = record s.wire { world = (f s.wire.world).1 } })
          (k s _ p);
  }
    where
      called :
          (b : Bool) (s : Owner W)
          → P s
          → let o : Result Raised (Unit {0}) × Owner W = if b then (ok tt, s) else (err e, s) in
            Outcome (λ _. P) X o.0 o.1
      called true s p = p
      called false s p = x s p

  -- `_fail_closed` leaves a closed wire, where there is one.
  pub fail_closed-IsSound : (s : Owner W) → Calm s.wire → IsSound (fail_closed s)
  fail_closed-IsSound s c =
      if_elim (λ (t : Owner W). IsSound t) s.has_wire (λ _. (c, tt, λ _. (refl, refl)))
        (λ none. (c, tt, λ some. absurd (cc)))
