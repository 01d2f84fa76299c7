-- ===== src/Handover/Sound/Reads.antt =====
-- The same for the reads and the window of `HandoverCoordinator`
-- (tools/handover_acceleration/coordinator.py).
use optolink.Base.{ℕ, ◌≡◌, sym, true, not, Option, none, some, [], arith, if◌then◌else◌}
use mathlib.Core.Path.{subst}
use optolink.Base.Effect.{give, ◌>>◌, on_raise}
use optolink.Base.Effect.Triples.{
  Does-give, Does-raise, Does-view, Does-bind, Does-if, Does-on_raise, Does-except, Does-from,
  Does-weaken, Does, Does-check, Does-finally, Does-test, Does-fact,
}
use optolink.Handover.{Bytes, device_id, p300_id, GfaName, gfa, RamName, Mode, protocol, assertion}
use optolink.Handover.Wire.{Wire, WireOp, clock}
use optolink.Handover.Owner.{
  Owner, OwnerOp, is_vs1_verified, is_p300_verified, fail_closed, on_wire, assert_wire,
}
use optolink.Handover.Owner.Switches.{
  restore_vs1, verified_gfa_snapshot, gfa_query, gfa_read, p300_identity, ram_query, p300_ram_read,
  leave_p300, p300_window,
}
use optolink.Handover.Guarded.{Calm, Thrown, Watch}
use optolink.Handover.Guarded.Sessions.{InVs1, InP300, vs1_read-InVs1, p300_read-Keeps}
use optolink.Handover.Guarded.Handshakes.{p300_read_ram_fixed-InP300}
use optolink.Handover.Sound.{
  Rests, Fits, IsSound, Raises, Keeps, refused, Does-on_wire, fail_closed-IsSound,
}
use optolink.Handover.Sound.Switches.{to_p300-Keeps, to_vs1_fast-Keeps, restore_vs1-Keeps}

pub vs1_mode : (m : Mode) → is_vs1_verified m ≡ true → m ≡ Mode.vs1_verified
vs1_mode m h = ground arith

pub p300_mode : (m : Mode) → is_p300_verified m ≡ true → m ≡ Mode.p300_verified
p300_mode m h = ground arith

module _ {W : Type 0} where
  vs1_wire :
      (m : Mode) (s : Wire W)
      → is_vs1_verified m ≡ true
      → Calm s
      → Fits m s.phase s.handshake_gfa
      → InVs1 s
  vs1_wire m s e c f =
      let g = subst (λ m. Fits m s.phase s.handshake_gfa) (vs1_mode m e) f in (g.0, g.1, c)

  p300_wire :
      (m : Mode) (s : Wire W)
      → is_p300_verified m ≡ true
      → Calm s
      → Fits m s.phase s.handshake_gfa
      → InP300 s
  p300_wire m s e c f =
      let g = subst (λ m. Fits m s.phase s.handshake_gfa) (p300_mode m e) f in (g.0, g.1, c)

  abbrev Settled : Mode → Wire W → Type 0
  Settled m s = Rests m × Fits m s.phase s.handshake_gfa

  vs1_fits : (m : Mode) (s : Wire W) → is_vs1_verified m ≡ true → InVs1 s → Settled m s
  vs1_fits m s e i = subst (λ m. Settled m s) (sym (vs1_mode m e)) (tt, (i.0, i.1))

  p300_fits : (m : Mode) (s : Wire W) → is_p300_verified m ≡ true → InP300 s → Settled m s
  p300_fits m s e i = subst (λ m. Settled m s) (sym (p300_mode m e)) (tt, (i.0, i.1))

  -- an open verified session of either protocol
  abbrev pub AtVs1 : Owner W → Type 0
  AtVs1 s = (is_vs1_verified s.mode ≡ true) × (s.has_wire ≡ true) × InVs1 s.wire

  abbrev pub AtP300 : Owner W → Type 0
  AtP300 s = (is_p300_verified s.mode ≡ true) × (s.has_wire ≡ true) × InP300 s.wire

  pub AtVs1-IsSound : (s : Owner W) → AtVs1 s → IsSound s
  AtVs1-IsSound s i = let f = vs1_fits s.mode s.wire i.0 i.2 in (i.2.2, f.0, λ _. f.1)

  pub AtP300-IsSound : (s : Owner W) → AtP300 s → IsSound s
  AtP300-IsSound s i = let f = p300_fits s.mode s.wire i.0 i.2 in (i.2.2, f.0, λ _. f.1)

module _ {W : Type 0} (watch : Watch W) where
  open watch use {port, Fine, fine}

  clock_read-Keeps : Keeps watch (on_wire (clock port))
  unfolding on_wire clock
  clock_read-Keeps = record { at = λ s i. i }

  pub verified_gfa_snapshot-Keeps : (max_age : ℕ) → Keeps watch (verified_gfa_snapshot port max_age)
  unfolding verified_gfa_snapshot
  verified_gfa_snapshot-Keeps max_age = Does-check _ protocol _ (refused watch _ protocol (cc)) (
      Does-from IsSound _ (λ s i. i.0)
        (Does-bind (λ _. IsSound) _ _ (Does-view _ (λ s i. i))
          (λ values.
            Does-test _ protocol _ (λ s i _. (i, fine protocol (cc)))
              (λ _.
                Does-bind (λ _. IsSound) _ _ clock_read-Keeps
                  (λ now.
                    Does-test _ protocol _ (λ s i _. (i, fine protocol (cc)))
                      (λ _. Does-give _ (λ s i. i)))))))

  pub gfa_query-Keeps :
      (name : GfaName)
      → Does
          (λ s. IsSound s × (is_vs1_verified s.mode ≡ true))
          (gfa_query port name)
          (λ _. IsSound)
          (Raises watch)
  unfolding gfa_query
  gfa_query-Keeps name =
      Does-check _ assertion _ (λ s i _. (i.0, fine assertion (cc)))
        (Does-on_raise fail_closed _ (
          Does-bind (λ _. AtVs1) _ _
            (Does-on_wire watch InVs1 (λ _. InVs1) (λ e s. Calm s × Fine e) _
              (vs1_read-InVs1 watch (gfa name) 1)
              (λ s i. vs1_wire s.mode s.wire i.0.1 i.0.0.0 (i.0.0.2 i.1))
              (λ _ s w i o. (i.0.1, i.1, o))
              (λ e s w i o. (fail_closed-IsSound watch (record s { wire = w }) o.0, o.1)))
            (λ value.
              Does-test _ protocol _
                (λ s i _. (fail_closed-IsSound watch s i.2.2, fine protocol (cc)))
                (λ _. Does-give value (λ s i. AtVs1-IsSound s i)))))

  pub gfa_read-Keeps : (name : Option GfaName) → Keeps watch (gfa_read port name)
  unfolding gfa_read
  gfa_read-Keeps none =
      Does-check _ protocol _ (refused watch _ protocol (cc))
        (Does-raise protocol (λ s i. (i.0, fine protocol (cc))))
  gfa_read-Keeps (some n) =
      Does-check _ protocol _ (refused watch _ protocol (cc)) (gfa_query-Keeps n)

  -- a read in a verified P300 session, and what an exception of it leaves
  p300_query :
      (m : WireOp W Bytes)
      → Does InP300 m (λ _. InP300) (λ e s. (s.handshake_gfa ≡ []) × Calm s × Fine e)
      → Does
          (λ s. IsSound s × (is_p300_verified s.mode ≡ true))
          (assert_wire >> on_raise fail_closed (on_wire m))
          (λ _. IsSound)
          (Raises watch)
  p300_query m h =
      Does-check _ assertion _ (λ s i _. (i.0, fine assertion (cc)))
        (Does-on_raise fail_closed _ (
          Does-on_wire watch InP300 (λ _. InP300) (Thrown Fine []) m h
            (λ s i. p300_wire s.mode s.wire i.0.1 i.0.0.0 (i.0.0.2 i.1))
            (λ _ s w i o. AtP300-IsSound (record s { wire = w }) (i.0.1, i.1, o))
            (λ e s w i o. (fail_closed-IsSound watch (record s { wire = w }) o.1, o.2))))

  pub p300_identity-Keeps : Keeps watch (p300_identity port)
  unfolding p300_identity
  p300_identity-Keeps =
      Does-check _ protocol _ (refused watch _ protocol (cc))
        (p300_query _ (p300_read-Keeps watch _ [] p300_id device_id))

  pub p300_ram_read-Keeps : (name : Option RamName) → Keeps watch (p300_ram_read port name)
  unfolding p300_ram_read ram_query
  p300_ram_read-Keeps none =
      Does-check _ protocol _ (refused watch _ protocol (cc))
        (Does-raise protocol (λ s i. (i.0, fine protocol (cc))))
  p300_ram_read-Keeps (some n) =
      Does-check _ protocol _ (refused watch _ protocol (cc))
        (p300_query _ (p300_read_ram_fixed-InP300 watch (some n)))

  pub leave_p300-Keeps : Keeps watch (leave_p300 port)
  unfolding leave_p300
  leave_p300-Keeps =
      Does-bind (λ _. IsSound) _ _ (Does-view _ (λ s i. i))
        (λ m.
          Does-if (is_p300_verified m) _
            (if not (is_vs1_verified m) then restore_vs1 port else give tt)
            (λ _. Does-except (Raises watch) _ _ (to_vs1_fast-Keeps watch) (λ e. Does-fact _ (λ f.
              Does-bind (λ _. IsSound) _ _ (restore_vs1-Keeps watch)
                (λ _. Does-raise e (λ s i. (i, f))))))
            (λ _.
              Does-if (not (is_vs1_verified m)) _ _ (λ _. restore_vs1-Keeps watch)
                (λ _. Does-give tt (λ s i. i))))

  pub p300_window-Keeps :
      {A : Type 0} (fn : OwnerOp W A) → Keeps watch fn → Keeps watch (p300_window port fn)
  unfolding p300_window
  p300_window-Keeps fn h = Does-check _ protocol _ (refused watch _ protocol (cc)) (
      Does-from IsSound _ (λ s i. i.0)
        (Does-finally (λ _. IsSound) (Raises watch) _ _
          (Does-bind (λ _. IsSound) _ _ (to_p300-Keeps watch) (λ _. h)) (λ _. leave_p300-Keeps)
          (λ e. Does-fact _ (λ f.
            Does-weaken (λ _. IsSound) (Raises watch) _ leave_p300-Keeps (λ _ s i. (i, f))
              (λ e s i. i)))))
