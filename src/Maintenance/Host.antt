-- ===== src/Maintenance/Host.antt =====
-- `_acquire_lock`, `connect`, `_with_session` and the four operations that the command line and the
-- MQTT interface call.
use optolink.Base.{◌%◌, Bool, true, false, ◌||◌, not, List, [], ltb, ◌==◌, if◌then◌else◌}
use optolink.Base.Result.{Result, ok, err}
use optolink.Text.{Text, ℤ, pos, negsuc}
use optolink.Maintenance.Device.{Broker, Session, Op}
use optolink.Maintenance.Bytes.{
  MaintenanceError, mqtt_disabled, mqtt_connect_failed, busy, invalid_hours, invalid_months,
  confirmation_required,
}
use optolink.Maintenance.Snapshot.{Snapshot, snapshot}
use optolink.Maintenance.Settings.{Outcome, hours_operation, months_operation, status}
use optolink.Maintenance.Reset.{ResetReport, reset_operation}

-- `connect_mqtt` and the subscription, false when no client comes of it; the end of a session
pub record Access (W : Type 0) : Type 0 where
  pub broker : Broker W
  pub listen_set : Bool
  pub respond_set : Bool
  pub open_client : W → Bool × W
  pub close_client : W → W

-- `locked` is the lock on `LOCK_PATH`, held by any process; `connected` is an open session of this one.
pub record Host (W : Type 0) : Type 0 where
  pub world : W
  pub locked : Bool
  pub connected : Bool
  pub sent : List Text

abbrev pub HostOp : Type 0 → Type 0 → Type 0
HostOp W A = Host W → Result MaintenanceError A × Host W

module _ {W : Type 0} (access : Access W) where
  -- the `finally` of `_with_session` after a session; the lock is held there
  abbrev pub release : Host W → Session W → Host W
  release h s = record h {
    world = access.close_client s.world;
    locked = false;
    connected = false;
    sent = s.sent;
  }

  -- `connect`
  unfoldable pub connect : HostOp W (Session W)
  connect h =
      let client = access.open_client h.world in
      if not access.listen_set
      then (err mqtt_disabled, h)
      else if not access.respond_set
      then (err mqtt_disabled, h)
      else if not client.0
      then (err mqtt_connect_failed, record h { world = client.1 })
      else (
        ok (record { world = client.1; responses = []; sent = h.sent }),
        record h { world = client.1; connected = true },
      )

  module _ {A : Type 0} (operation : Op MaintenanceError W A) where
    -- `_with_session` behind the lock
    unfoldable pub in_session : HostOp W A
    unfolding connect
    in_session h = elim (connect h).0 [
      | err e ↦ (err e, record (connect h).1 { locked = false })
      | ok s ↦ ((operation s).0, release (connect h).1 (operation s).1)
    ]

    -- `_with_session`; a lock that another holds is not waited for
    unfoldable pub with_session : HostOp W A
    unfolding in_session
    with_session h = if h.locked then (err busy, h) else in_session (record h { locked = true })

  -- `get_status`
  unfoldable pub get_status : HostOp W Snapshot
  unfolding with_session snapshot
  get_status = with_session (status access.broker)

  -- `set_hours`
  unfoldable pub set_hours : ℤ → Bool → Bool → HostOp W Outcome
  unfolding with_session hours_operation
  set_hours (negsuc n) confirmed force h = (err invalid_hours, h)
  set_hours (pos hours) confirmed force h =
      if ltb 10000 hours || not (hours % 100 == 0)
      then (err invalid_hours, h)
      else with_session (hours_operation access.broker hours confirmed force) h

  -- `set_months`
  unfoldable pub set_months : ℤ → Bool → Bool → HostOp W Outcome
  unfolding with_session months_operation
  set_months (negsuc n) confirmed force h = (err invalid_months, h)
  set_months (pos months) confirmed force h =
      if ltb 24 months
      then (err invalid_months, h)
      else with_session (months_operation access.broker months confirmed force) h

  -- `reset_maintenance`
  unfoldable pub reset_maintenance : Bool → HostOp W ResetReport
  unfolding with_session reset_operation
  reset_maintenance confirmed h =
      if not confirmed
      then (err confirmation_required, h)
      else with_session (reset_operation access.broker) h
