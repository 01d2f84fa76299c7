-- ===== src/Maintenance/Reset.antt =====
-- `reset_maintenance`: the state byte is set to 1 and, whatever happens, back to 0.
use optolink.Base.{
  ℕ, ◌-◌, Bool, ◌&&◌, not, Option, List, [], ◌∷◌, ◌++◌, ltb, leb, ◌==◌, if◌then◌else◌,
}
use optolink.Base.Result.{Result, ok, err}
use optolink.Text.{Text, pos}
use optolink.Maintenance.Commands.{Failure}
use optolink.Maintenance.Device.{Broker, Op, give, raise, lift, first_do, attempt, sleep, ◌>>=◌}
use optolink.Maintenance.Bytes.{
  MaintenanceError, exchange_failed, reset_state_mismatch, restore_not_verified, restore_not_zero,
  reset_aborted, error_of, read_uint_le, write_byte,
}
use optolink.Maintenance.Snapshot.{Snapshot, snapshot, maintenance_state}
use optolink.Maintenance.Settings.{reading, status}

pub data Warning : Type 0 where
  total_decreased : Warning
  starts_decreased : Warning
  reference_above_total : Warning
  reference_behind_total : Warning
  interval_not_set : Warning
  interval_did_not_change : Warning

pub data Note : Type 0 where
  burner_rebaselined : Note
  burner_kept_without_threshold : Note
  burner_kept_despite_threshold : Note
  interval_rebaselined : Note

abbrev pub if_so : {A : Type 0} → Bool → A → List A
if_so b a = if b then a ∷ [] else []

-- `warnings`
unfoldable pub warnings_of : Snapshot → Snapshot → List Warning
warnings_of before after =
    if_so (ltb after.total.0 before.total.0) total_decreased
    ++ if_so (ltb after.starts.0 before.starts.0) starts_decreased
    ++ (if ltb after.total.0 after.baseline.0
        then reference_above_total ∷ []
        else if_so (ltb 0 after.baseline.0 && ltb 300 (after.total.0 - after.baseline.0))
            reference_behind_total)
    ++ (if leb after.interval.0 0
        then interval_not_set ∷ []
        else if_so (after.interval.0 == before.interval.0) interval_did_not_change)

-- `notes`
unfoldable pub notes_of : Snapshot → Snapshot → List Note
notes_of before after =
    (if not (after.baseline.0 == before.baseline.0)
      then burner_rebaselined ∷ []
      else if before.hours == 0
      then burner_kept_without_threshold ∷ []
      else burner_kept_despite_threshold ∷ [])
    ++ if_so (not (after.interval.0 == before.interval.0)) interval_rebaselined

-- the dictionary of a reset that was done
pub record ResetReport : Type 0 where
  pub interval_changed : Bool
  pub burner_changed : Bool
  pub before : Snapshot
  pub after : Snapshot
  pub notes : List Note
  pub warnings : List Warning

abbrev pub report : Snapshot → Snapshot → ResetReport
report before after = record {
  interval_changed = not (after.interval.0 == before.interval.0);
  burner_changed = not (after.baseline.0 == before.baseline.0);
  before = before;
  after = after;
  notes = notes_of before after;
  warnings = warnings_of before after;
}

module _ {W : Type 0} (broker : Broker W) where
  abbrev pub expect_one : ℕ × Text → Op MaintenanceError W (Unit {0})
  expect_one v = if not (v.0 == 1) then raise (reset_state_mismatch v.0) else give tt

  -- the body of the `try`
  unfoldable pub enter_state : Op MaintenanceError W (Unit {0})
  unfolding write_byte read_uint_le
  enter_state = lift exchange_failed (write_byte broker maintenance_state (pos 1)) >>= λ _.
      first_do (sleep broker) (reading broker maintenance_state 1 >>= expect_one)

  abbrev pub expect_zero :
      Option Failure → Result Failure (ℕ × Text) → Op MaintenanceError W (Unit {0})
  expect_zero ack (err e) = raise (restore_not_verified ack e)
  expect_zero ack (ok v) = if not (v.0 == 0) then raise (restore_not_zero ack v.0) else give tt

  -- the `finally`, whose condition always holds
  unfoldable pub leave_state : Op MaintenanceError W (Unit {0})
  unfolding write_byte read_uint_le
  leave_state = attempt (write_byte broker maintenance_state (pos 0)) λ ack.
      first_do (sleep broker)
        (attempt (read_uint_le broker maintenance_state 1) λ read. expect_zero (error_of ack) read)

  -- what follows the `finally`, given the error of the `try`
  unfoldable pub conclude :
      Snapshot → Result MaintenanceError (Unit {0}) → Op MaintenanceError W ResetReport
  unfolding snapshot
  conclude before (err e) = raise (reset_aborted e)
  conclude before (ok _) = status broker >>= λ after. give (report before after)

  -- `operation` of `reset_maintenance`
  unfoldable pub reset_operation : Op MaintenanceError W ResetReport
  unfolding snapshot enter_state leave_state conclude
  reset_operation = status broker >>= λ before.
      attempt enter_state λ entered. leave_state >>= λ _. conclude before entered
