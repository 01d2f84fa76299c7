-- ===== src/Handover/Vs1.antt =====
-- The VS1 side of `ReadOnlyWire` (tools/handover_acceleration/coordinator.py): reads, and the three
-- handshakes that verify a session.
use optolink.Base.{ℕ, not, List, [], ◌∷◌, ◌++◌}
use optolink.Base.Effect.{give, ◌>>=◌, ◌>>◌, view, change, on_raise, demand}
use optolink.Handover.{
  Bytes, same_bytes, is_one_of, device_id, software, eot, stx, vs1_id, vs1_software, p80, p06, gfa,
  gfa_values, WirePhase, is_vs1, protocol,
}
use optolink.Handover.Wire.{
  Port, Wire, Handshake, WireOp, set_phase, clear_handshake, clock, nap, tx, exact, gap, quiet,
  reset_before_eot, sync,
}

module _ {W : Type 0} where
  -- what the handlers of the handshakes do to the wire
  abbrev pub drop_session : Wire W → Wire W
  drop_session s = set_phase WirePhase.failed_closed (clear_handshake s)

  -- what the handshakes publish at their end
  abbrev pub publish : List Handshake → Wire W → Wire W
  publish hs s = set_phase WirePhase.vs1_verified (record s { handshake_gfa = hs })

  -- Each handshake: forget the last one, go to the first phase, try, and publish at the end.
  unfoldable pub handshake : WirePhase → WireOp W (List Handshake) → WireOp W (Unit {0})
  handshake first checks = do
    change (λ s. set_phase first (clear_handshake s))
    samples ← on_raise drop_session checks
    change (publish samples)

module _ {W : Type 0} (port : Port W) where
  unfoldable pub vs1_read : Bytes → ℕ → WireOp W Bytes
  vs1_read request expected_length = do
    p ← view (λ s. s.phase)
    demand (is_vs1 p) protocol
    demand (is_one_of request ((stx ++ vs1_id) ∷ vs1_id ∷ vs1_software ∷ gfa_values)) protocol
    gap port
    tx port request
    result ← exact port expected_length 2000000
    quiet port
    give result

  -- a read with its comparison
  unfoldable pub expect : Bytes → Bytes → WireOp W (Unit {0})
  expect request value = vs1_read request 2 >>= λ answer. demand (same_bytes answer value) protocol

  -- `P80` and `P06` with their times, the last part of each handshake
  unfoldable pub read_samples : WireOp W (List Handshake)
  read_samples = do
    b80 ← vs1_read (gfa p80) 1
    t80 ← clock port
    demand (same_bytes b80 (0x20 ∷ [])) protocol
    b06 ← vs1_read (gfa p06) 1
    t06 ← clock port
    demand (not (same_bytes b06 (0xff ∷ []))) protocol
    give (
        record { name = p80; value = b80; at = t80 }
        ∷ record { name = p06; value = b06; at = t06 }
        ∷ [])

  unfoldable pub verify_attached_vs1 : WireOp W (Unit {0})
  verify_attached_vs1 =
      handshake WirePhase.vs1_handshake
        (do expect vs1_id device_id; expect vs1_software software; read_samples)

  unfoldable pub verify_vs1 : ℕ → WireOp W (Unit {0})
  verify_vs1 enqs = handshake WirePhase.vs1_sync (do
    sync port enqs
    change (set_phase WirePhase.vs1_handshake)
    expect (stx ++ vs1_id) device_id
    expect vs1_software software
    read_samples)

  unfoldable pub verify_vs1_early_identity_experiment : WireOp W (Unit {0})
  verify_vs1_early_identity_experiment = handshake WirePhase.vs1_sync (do
    reset_before_eot port
    tx port eot
    nap port 25000
    change (set_phase WirePhase.vs1_handshake)
    tx port (stx ++ vs1_id)
    identity ← exact port 2 350000
    quiet port
    demand (same_bytes identity device_id) protocol
    expect vs1_software software
    read_samples)
