-- ===== src/Handover/Owner/Switches.antt =====
-- The methods of `HandoverCoordinator` (tools/handover_acceleration/coordinator.py) on an open
-- session: the protocol changes, the recovery, the reads and the window.
use optolink.Base.{
  ℕ, ◌-◌, Bool, true, false, not, ◌&&◌, Option, none, some, List, [], ◌∷◌, map, ltb, leb,
  if◌then◌else◌, every,
}
use optolink.Base.Effect.{
  give, raise, ◌>>=◌, ◌>>◌, view, change, on_raise, except, finally, demand, check,
}
use optolink.Handover.{
  Bytes, same_bytes, device_id, p300_id, GfaName, gfa, RamName, Mode, WirePhase, protocol, restore,
}
use optolink.Handover.Wire.{Port, set_phase, clear_handshake, clock}
use optolink.Handover.Vs1.{vs1_read, verify_vs1_early_identity_experiment}
use optolink.Handover.P300.{p300_read, p300_read_ram_fixed, verify_p300, early_start}
use optolink.Handover.Owner.{
  OwnerOp, is_vs1_verified, is_p300_verified, is_p80, has_both, set_mode, note, on_the_wire,
  fail_closed, on_wire, assert_wire, require_mode, require_mode_and_wire, close_resources,
  recover_vs1, p300, p300_early_start, vs1_early_identity, failed, verified,
}

module _ {W : Type 0} (port : Port W) where
  unfoldable pub to_p300 : OwnerOp W (Unit {0})
  to_p300 = do
    require_mode is_vs1_verified
    change (set_mode Mode.switching)
    on_raise (λ s. note p300 failed (fail_closed s)) (do assert_wire; on_wire (verify_p300 port))
    change (λ s.
        note p300 verified (record s { mode = Mode.p300_verified; recovery_attempted = false }))

  unfoldable pub to_p300_early_start_experiment : OwnerOp W (Unit {0})
  to_p300_early_start_experiment = do
    require_mode_and_wire is_vs1_verified
    change (λ s. on_the_wire clear_handshake (set_mode Mode.switching s))
    on_raise (λ s. note p300_early_start failed (fail_closed s)) (on_wire (early_start port))
    change (λ s. note p300_early_start verified (record s {
      mode = Mode.p300_verified;
      recovery_attempted = false;
      wire = set_phase WirePhase.p300_verified s.wire;
    }))

  unfoldable pub to_vs1_fast : OwnerOp W (Unit {0})
  to_vs1_fast = do require_mode is_p300_verified; (recover_vs1 port) 1 false

  unfoldable pub to_vs1_early_identity_experiment : OwnerOp W (Unit {0})
  to_vs1_early_identity_experiment = do
    require_mode_and_wire is_p300_verified
    change (set_mode Mode.switching)
    on_raise (λ s. note vs1_early_identity failed (fail_closed s))
        (on_wire (verify_vs1_early_identity_experiment port))
    change (λ s. note vs1_early_identity verified (set_mode Mode.vs1_verified s))

  -- `restore_vs1` behind its first test
  unfoldable pub recover_once : OwnerOp W (Unit {0})
  recover_once = do
    check (λ s. s.has_wire) restore
    check (λ s. not s.recovery_attempted) restore
    change λ s. record s { recovery_attempted = true }
    recover_vs1 port 2 true

  unfoldable pub restore_vs1 : OwnerOp W (Unit {0})
  restore_vs1 = view (λ s. is_vs1_verified s.mode) >>= λ b. if b then give tt else recover_once

  -- the `try` of `__exit__`: whether VS1 is confirmed
  unfoldable pub confirm_vs1 : OwnerOp W Bool
  confirm_vs1 = do
    already ← view (λ s. is_vs1_verified s.mode)
    tried ← view (λ s. s.recovery_attempted)
    if already
        then give true
        else if tried
        then give false
        else except (restore_vs1 >>= λ _. give true) (λ e. give false)

  -- `__exit__`
  unfoldable pub exit : OwnerOp W (Unit {0})
  exit = do
    confirmed ← confirm_vs1
    close_resources port
    change (set_mode (if confirmed then Mode.detached else Mode.failed_closed))
    demand confirmed restore

  -- `verified_gfa_snapshot`
  unfoldable pub verified_gfa_snapshot : ℕ → OwnerOp W (List (GfaName × Bytes))
  verified_gfa_snapshot max_age = do
    require_mode_and_wire is_vs1_verified
    values ← view (λ s. s.wire.handshake_gfa)
    demand (has_both values && ltb 0 max_age && leb max_age 1000000) protocol
    now ← on_wire (clock port)
    demand (every (λ h. leb h.at now && leb (now - h.at) max_age) values) protocol
    give (map (λ h. (h.name, h.value)) values)

  -- `gfa_read` of a known name behind the test of the mode
  unfoldable pub gfa_query : GfaName → OwnerOp W Bytes
  gfa_query name = do
    assert_wire
    on_raise fail_closed (do
      value ← on_wire (vs1_read port (gfa name) 1)
      demand
          (not (same_bytes value (0xff ∷ []))
            && not (is_p80 name && not (same_bytes value (0x20 ∷ []))))
          protocol
      give value)

  -- `gfa_read`; a name that is not in `GFA` is `none`
  unfoldable pub gfa_read : Option GfaName → OwnerOp W Bytes
  gfa_read name = do
    require_mode is_vs1_verified
    elim name as (λ _. OwnerOp W Bytes) [ none ↦ raise protocol | some n ↦ gfa_query n ]

  unfoldable pub p300_identity : OwnerOp W Bytes
  p300_identity = do
    require_mode is_p300_verified
    assert_wire
    on_raise fail_closed (on_wire (p300_read port p300_id device_id))

  unfoldable pub ram_query : RamName → OwnerOp W Bytes
  ram_query n = do assert_wire; on_raise fail_closed (on_wire (p300_read_ram_fixed port (some n)))

  unfoldable pub p300_ram_read : Option RamName → OwnerOp W Bytes
  p300_ram_read name = do
    require_mode is_p300_verified
    elim name as (λ _. OwnerOp W Bytes) [ none ↦ raise protocol | some n ↦ ram_query n ]

  -- the `finally` of `p300_window`
  unfoldable pub leave_p300 : OwnerOp W (Unit {0})
  leave_p300 = do
    m ← view (λ s. s.mode)
    if is_p300_verified m
        then except to_vs1_fast (λ e. restore_vs1 >>= λ _. raise e)
        else if not (is_vs1_verified m)
        then restore_vs1
        else give tt

  unfoldable pub p300_window : {A : Type 0} → OwnerOp W A → OwnerOp W A
  p300_window fn = do require_mode is_vs1_verified; finally (to_p300 >>= λ _. fn) leave_p300
