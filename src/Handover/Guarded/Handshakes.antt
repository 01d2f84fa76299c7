-- ===== src/Handover/Guarded/Handshakes.antt =====
-- The handshakes of `ReadOnlyWire` (tools/handover_acceleration/coordinator.py) leave a verified
-- phase, with samples from the controller in VS1, or a closed wire without samples.
use optolink.Base.{ℕ, ◌≡◌, ◌≢◌, refl, Option, none, some, List, []}
use optolink.Base.Effect.{raise, ◌>>=◌, ◌>>◌, change, on_raise}
use optolink.Base.Effect.Triples.{
  Does-raise, Does-view, Does-bind, Does-on_raise, Does-weaken, Does, Does-change, Does-test,
}
use optolink.Handover.{
  Bytes, device_id, software, ack, eot, start, vs1_id, vs1_software, RamName, p300_ram_reads,
  WirePhase, Raised, protocol, stuck,
}
use optolink.Handover.Wire.{Handshake, Wire, WireOp, set_phase, tx, control, sync}
use optolink.Handover.Vs1.{
  drop_session, expect, read_samples, handshake, verify_attached_vs1, verify_vs1,
  verify_vs1_early_identity_experiment,
}
use optolink.Handover.P300.{
  read_block, p300_read_ram_fixed, read_identities, verify_p300, early_start,
}
use optolink.Handover.Guarded.{Calm, Steady, Thrown, Watch, Keeps, thrown, nap-Keeps, demand-Keeps}
use optolink.Handover.Guarded.Lines.{
  chain, exact-Keeps, control-Keeps, quiet-Keeps, tx-Keeps, reset-Keeps, sync-Keeps,
}
use optolink.Handover.Guarded.Sessions.{
  Proven, InVs1, InP300, Refused, expect-Keeps, read_samples-Proven, read_block-Keeps,
  read_identities-Keeps,
}

module _ {W : Type 0} (watch : Watch W) where
  open watch use {port, Fine, fine}

  module _ (p : WirePhase) (h : List Handshake) where
    -- from one phase to another
    enter_phase :
        (q : WirePhase)
        → Does (Steady p h) (change (set_phase {W = W} q)) (λ _. Steady q h) (Thrown Fine h)
    enter_phase q = Does-change _ (λ s i. (refl, i.1, i.2))

    then_in :
        {A B : Type 0} (q : WirePhase) (m : WireOp W B) (k : B → WireOp W A)
        (Q : A → Wire W → Type 0)
        → Does (Steady p h) m (λ _. Steady q h) (Thrown Fine h)
        → ((b : B) → Does (Steady q h) (k b) Q (Thrown Fine h))
        → Does (Steady p h) (m >>= k) Q (Thrown Fine h)
    then_in q m k Q = Does-bind (λ _. Steady q h) m k

  abbrev Samples : WirePhase → List Handshake → Wire W → Type 0
  Samples p hs s = Steady p [] s × Proven hs

  handshake-InVs1 :
      (first last : WirePhase) (checks : WireOp W (List Handshake))
      → Does (Steady first []) checks (Samples last) (Thrown Fine [])
      → Does Calm (handshake first checks) (λ _. InVs1) (Refused Fine)
  unfolding handshake
  handshake-InVs1 first last checks h =
      Does-bind (λ _. Steady first []) _ _ (Does-change _ (λ s i. (refl, refl, i)))
        (λ _.
          Does-bind (Samples last) _ _
            (Does-on_raise drop_session _ (
              Does-weaken (Samples last) (Thrown Fine []) _ h (λ hs s i. i)
                (λ e s x. ((refl, refl, x.1), x.2))))
            (λ hs. Does-change _ (λ s i. (refl, i.1, i.0.2))))

  abbrev Checked : WirePhase → WirePhase → WireOp W (List Handshake) → Type 0
  Checked p q m = Does (Steady p []) m (Samples q) (Thrown Fine [])

  identified :
      (p : WirePhase) (request : Bytes)
      → Checked p p (
          expect port request device_id >> (expect port vs1_software software >> read_samples port))
  identified p request = then_in p [] p _ _ _ (expect-Keeps watch p [] request device_id) (λ _.
      then_in p [] p _ _ _ (expect-Keeps watch p [] vs1_software software)
        (λ _. read_samples-Proven watch p []))

  pub verify_attached_vs1-InVs1 : Does Calm (verify_attached_vs1 port) (λ _. InVs1) (Refused Fine)
  unfolding verify_attached_vs1
  verify_attached_vs1-InVs1 = handshake-InVs1 _ WirePhase.vs1_handshake _ (identified _ vs1_id)

  pub verify_vs1-InVs1 : (count : ℕ) → Does Calm (verify_vs1 port count) (λ _. InVs1) (Refused Fine)
  unfolding verify_vs1
  verify_vs1-InVs1 count = handshake-InVs1 _ WirePhase.vs1_handshake _ (
      then_in _ _ WirePhase.vs1_sync _ _ _ (sync-Keeps watch _ _ count)
        (λ _. then_in _ _ WirePhase.vs1_handshake _ _ _ (enter_phase _ _ _) (λ _. identified _ _)))

  pub early_identity-InVs1 :
      Does Calm (verify_vs1_early_identity_experiment port) (λ _. InVs1) (Refused Fine)
  unfolding verify_vs1_early_identity_experiment
  early_identity-InVs1 = handshake-InVs1 _ WirePhase.vs1_handshake _ (
      then_in _ _ WirePhase.vs1_sync _ _ _ (reset-Keeps watch _ _) (λ _.
        then_in _ _ WirePhase.vs1_sync _ _ _ (tx-Keeps watch _ _ eot) (λ _.
          then_in _ _ WirePhase.vs1_sync _ _ _ (nap-Keeps watch _ _ 25000) (λ _.
            then_in _ _ WirePhase.vs1_handshake _ _ _ (enter_phase _ _ _) (λ _.
              then_in _ _ WirePhase.vs1_handshake _ _ _ (tx-Keeps watch _ _ _) (λ _.
                then_in _ _ WirePhase.vs1_handshake _ _ _ (exact-Keeps watch _ _ 2 350000) (λ i.
                  then_in _ _ WirePhase.vs1_handshake _ _ _ (quiet-Keeps watch _ _) (λ _.
                    then_in _ _ WirePhase.vs1_handshake _ _ _ (demand-Keeps watch _ _ _) (λ _.
                      then_in _ _ WirePhase.vs1_handshake _ _ _ (expect-Keeps watch _ _ _ _)
                        (λ _. read_samples-Proven watch _ _))))))))))

  -- the start of P300, from its first message on
  started :
      (timeout : ℕ)
      → Keeps watch WirePhase.p300_handshake []
          (tx port start >> (control port ack timeout >> read_identities port))
  started timeout = chain watch _ _ _ _ (tx-Keeps watch _ _ start) (λ _.
      chain watch _ _ _ _ (control-Keeps watch _ _ ack timeout)
        (λ _. read_identities-Keeps watch _ _))

  pub early_start-Keeps :
      Does
        (λ s. Calm s × (s.handshake_gfa ≡ []))
        (early_start port)
        (λ _. Steady WirePhase.p300_handshake [])
        (Thrown Fine [])
  unfolding early_start
  early_start-Keeps =
      Does-bind (λ _. Steady WirePhase.p300_sync []) _ _ (Does-change _ (λ s i. (refl, i.1, i.0)))
        (λ _. then_in _ _ WirePhase.p300_sync _ _ _ (reset-Keeps watch _ _) (λ _.
          then_in _ _ WirePhase.p300_sync _ _ _ (tx-Keeps watch _ _ eot) (λ _.
            then_in _ _ WirePhase.p300_sync _ _ _ (nap-Keeps watch _ _ 25000) (λ _.
              then_in _ _ WirePhase.p300_handshake _ _ _ (enter_phase _ _ _)
                (λ _. started 350000)))))

  pub verify_p300-InP300 : Does Calm (verify_p300 port) (λ _. InP300) (Refused Fine)
  unfolding verify_p300
  verify_p300-InP300 =
      Does-bind (λ _. Steady WirePhase.p300_sync []) _ _ (Does-change _ (λ s i. (refl, refl, i)))
        (λ _.
          Does-bind (λ _. Steady WirePhase.p300_handshake []) _ _
            (Does-on_raise _ _ (
              Does-weaken (λ _. Steady WirePhase.p300_handshake []) (Thrown Fine []) _ tried
                (λ _ s i. i) (λ e s x. ((refl, x.0, x.1), x.2))))
            (λ _. Does-change _ (λ s i. (refl, i.1, i.2))))
    where
      tried :
          Does
            (Steady {W = W} WirePhase.p300_sync [])
            (sync port 1
              >> (change (set_phase WirePhase.p300_handshake)
                  >> (tx port start >> (control port ack 6000000 >> read_identities port))))
            (λ _. Steady WirePhase.p300_handshake [])
            (Thrown Fine [])
      tried = then_in _ _ WirePhase.p300_sync _ _ _ (sync-Keeps watch _ _ 1) (λ _.
          then_in _ _ WirePhase.p300_handshake _ _ _ (enter_phase _ _ _) (λ _. started 6000000))

  pub p300_read_ram_fixed-InP300 :
      (name : Option RamName)
      → Does InP300 (p300_read_ram_fixed port name) (λ _. InP300) (Thrown Fine [])
  unfolding p300_read_ram_fixed
  p300_read_ram_fixed-InP300 name =
      Does-bind (λ _. InP300) _ _ (Does-view _ (λ s i. i))
        (λ p. Does-test _ protocol _ (λ s i _. refused protocol (cc) s i) (λ _. of_name name))
    where
      refused : (e : Raised) → e ≢ stuck → (s : Wire W) → InP300 s → Thrown Fine [] e s
      refused = thrown watch WirePhase.p300_verified []

      of_name :
          (name : Option RamName)
          → Does InP300
              (elim name as (λ _. WireOp W Bytes) [
                | none ↦ raise protocol
                | some n ↦
                    on_raise
                      (set_phase WirePhase.failed_closed)
                      (read_block port (p300_ram_reads n))
              ])
              (λ _. InP300)
              (Thrown Fine [])
      of_name none = Does-raise protocol (refused protocol (cc))
      of_name (some n) = Does-on_raise _ _ (read_block-Keeps watch _ _ (p300_ram_reads n))
