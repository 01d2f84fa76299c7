-- ===== src/Maintenance/Settings.antt =====
-- `set_hours` and `set_months`: a threshold is written only when it differs or the write is forced,
-- only with a confirmation, and with a readback.
use optolink.Base.{ℕ, ◌*◌, ◌/◌, Bool, ◌&&◌, not, some, ◌==◌, if◌then◌else◌}
use optolink.Text.{Text, pos}
use optolink.Maintenance.Device.{Broker, Op, give, raise, lift, ◌>>=◌}
use optolink.Maintenance.Bytes.{
  MaintenanceError, exchange_failed, confirmation_required, read_uint_le, write_verify_byte,
}
use optolink.Maintenance.Snapshot.{
  Snapshot, snapshot, hours_threshold, interval_months, interval_reference, burner_reference,
}

-- The dictionaries of `set_hours` and `set_months`. `previous` is in the unit of the request, and a
-- reference is its number and its raw text; whether it changed is its last field.
pub record Changed : Type 0 where
  pub previous : ℕ
  pub requested : ℕ
  pub before : ℕ × Text
  pub after : ℕ × Text
  pub reference_changed : Bool
  pub status : Snapshot

pub data Outcome : Type 0 where
  unchanged : ℕ → Text → Snapshot → Outcome
  changed : Changed → Outcome

module _ {W : Type 0} (broker : Broker W) where
  -- a read among steps that raise the errors of the module
  abbrev pub reading : ℕ → ℕ → Op MaintenanceError W (ℕ × Text)
  reading address n = lift exchange_failed (read_uint_le broker address n)

  abbrev pub status : Op MaintenanceError W Snapshot
  status = lift exchange_failed (snapshot broker)

  -- The two `operation`s from the confirmation on: the byte `raw` at `address` is written, whose old
  -- value is `current`, between two readings of the reference that the write may move.
  unfoldable pub change : ℕ → ℕ → ℕ → ℕ → ℕ → ℕ → Op MaintenanceError W Outcome
  unfolding write_verify_byte snapshot read_uint_le
  change address reference raw current previous requested = reading reference 4 >>= λ before.
      write_verify_byte broker address (pos raw) (some current) >>= λ _.
      reading reference 4 >>= λ after. status >>= λ now. give (
        changed (record {
          previous = previous;
          requested = requested;
          before = before;
          after = after;
          reference_changed = not (after.0 == before.0);
          status = now;
        }))

  -- `operation` of `set_hours`
  unfoldable pub hours_operation : ℕ → Bool → Bool → Op MaintenanceError W Outcome
  unfolding change
  hours_operation hours confirmed force = reading hours_threshold 1 >>= λ current.
      if current.0 == hours / 100 && not force
      then (status >>= λ now. give (unchanged hours current.1 now))
      else if not confirmed
      then raise confirmation_required
      else change hours_threshold burner_reference (hours / 100) current.0 (current.0 * 100) hours

  -- `operation` of `set_months`
  unfoldable pub months_operation : ℕ → Bool → Bool → Op MaintenanceError W Outcome
  unfolding change
  months_operation months confirmed force = reading interval_months 1 >>= λ current.
      if current.0 == months && not force
      then (status >>= λ now. give (unchanged months current.1 now))
      else if not confirmed
      then raise confirmation_required
      else change interval_months interval_reference months current.0 current.0 months
