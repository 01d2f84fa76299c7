-- ===== src/Maintenance/Bytes.antt =====
-- `read_raw`, `read_uint_le`, `write_byte`, `_restore_byte` and `write_verify_byte`.
use optolink.Base.{ℕ, ◌*◌, Bool, false, not, Option, none, some, leb, ◌==◌, if◌then◌else◌, length}
use optolink.Base.Result.{Result, ok, err}
use optolink.Text.{Text, ℤ, pos, negsuc, is_nat, lower}
use optolink.Text.Hex.{from_hex, from_le}
use optolink.Maintenance.Commands.{
  Failure, invalid_raw_length, invalid_raw_payload, invalid_value, payload, read_command,
  write_command,
}
use optolink.Maintenance.Device.{Broker, Op, give, raise, first_do, attempt, request, sleep, ◌>>=◌}

-- The result of `_restore_byte`: `attempted` is always true, and the message repeats the rest.
pub record Restore : Type 0 where
  pub verified : Bool
  pub readback : Option ℕ
  pub ack_error : Option Failure
  pub read_error : Option Failure

-- `details` of the two errors of `write_verify_byte`
pub record Mismatch : Type 0 where
  pub address : ℕ
  pub requested : ℤ
  pub readback : Option ℕ
  pub readback_error : Option Failure
  pub ack_error : Option Failure
  pub restore : Option Restore

pub data MaintenanceError : Type 0 where
  exchange_failed : Failure → MaintenanceError
  write_verification_failed : Mismatch → MaintenanceError
  write_readback_mismatch : Mismatch → MaintenanceError
  mqtt_disabled : MaintenanceError
  mqtt_connect_failed : MaintenanceError
  busy : MaintenanceError
  invalid_hours : MaintenanceError
  invalid_months : MaintenanceError
  confirmation_required : MaintenanceError
  reset_state_mismatch : ℕ → MaintenanceError
  restore_not_verified : Option Failure → Failure → MaintenanceError
  restore_not_zero : Option Failure → ℕ → MaintenanceError
  reset_aborted : MaintenanceError → MaintenanceError

abbrev pub error_of : {A : Type 0} → Result Failure A → Option Failure
error_of (ok a) = none
error_of (err e) = some e

-- the checks of `read_raw` on the payload
abbrev pub raw_of : ℕ → ℕ → Text → Result Failure Text
raw_of address length_ raw =
    if not (length raw == length_ * 2)
    then err (invalid_raw_length address length_ raw)
    else elim (from_hex raw) [ none ↦ err (invalid_raw_payload address raw) | some _ ↦ ok raw ]

-- `read_raw` behind the request: what it makes of the response
unfoldable pub raw_response : ℕ → ℕ → Text → Result Failure Text
unfolding payload from_hex
raw_response address length_ response = elim (payload response address) [
  | err e ↦ err e
  | ok value ↦ raw_of address length_ (lower value)
]

-- `int.from_bytes(bytes.fromhex(raw), "little")` beside the text
abbrev pub uint_of : Text → ℕ × Text
uint_of raw = elim (from_hex raw) [ none ↦ (0, raw) | some bytes ↦ (from_le bytes, raw) ]

module _ {W : Type 0} (broker : Broker W) where
  -- `read_raw`
  unfoldable pub read_raw : ℕ → ℕ → Op Failure W Text
  unfolding raw_response request
  read_raw address length_ = request broker (read_command address length_) >>= λ response.
      λ s. (raw_response address length_ response, s)

  -- `read_uint_le`
  unfoldable pub read_uint_le : ℕ → ℕ → Op Failure W (ℕ × Text)
  unfolding read_raw
  read_uint_le address length_ = read_raw address length_ >>= λ raw. give (uint_of raw)

  -- `write_byte`
  unfoldable pub write_byte : ℕ → ℤ → Op Failure W Text
  unfolding request
  write_byte address (negsuc n) = raise (invalid_value (negsuc n))
  write_byte address (pos n) =
      if not (leb n 255)
      then raise (invalid_value (pos n))
      else request broker (write_command address n)

  -- the result of `_restore_byte` for an error of the write and an outcome of the read
  abbrev pub restored : ℕ → Option Failure → Result Failure (ℕ × Text) → Restore
  restored old ack (err e) = record {
    verified = false;
    readback = none;
    ack_error = ack;
    read_error = some e;
  }
  restored old ack (ok v) = record {
    verified = v.0 == old;
    readback = some v.0;
    ack_error = ack;
    read_error = none;
  }

  -- `_restore_byte`: it does not raise
  unfoldable pub restore_byte : {E : Type 0} → ℕ → ℕ → Op E W Restore
  unfolding write_byte read_uint_le
  restore_byte address old = attempt (write_byte address (pos old)) λ ack.
      first_do (sleep broker)
        (attempt (read_uint_le address 1) λ read. give (restored old (error_of ack) read))

  -- the restore that `write_verify_byte` does when it knows the old value
  abbrev pub restore_if_known : {E : Type 0} → ℕ → Option ℕ → Op E W (Option Restore)
  restore_if_known address none = give none
  restore_if_known address (some old) = restore_byte address old >>= λ r. give (some r)

  abbrev pub mismatch :
      ℕ → ℤ → Option Failure → Result Failure (ℕ × Text) → Option Restore → MaintenanceError
  mismatch address new ack (err e) restore = write_verification_failed (record {
    address = address;
    requested = new;
    readback = none;
    readback_error = some e;
    ack_error = ack;
    restore = restore;
  })
  mismatch address new ack (ok v) restore = write_readback_mismatch (record {
    address = address;
    requested = new;
    readback = some v.0;
    readback_error = none;
    ack_error = ack;
    restore = restore;
  })

  -- whether the byte that was read back is the one asked for
  abbrev pub confirms : ℤ → Result Failure (ℕ × Text) → Option ℕ
  confirms new (err e) = none
  confirms new (ok v) = if is_nat new v.0 then some v.0 else none

  -- the end of `write_verify_byte` without a verified byte
  abbrev pub refuse :
      ℕ → ℤ → Option ℕ → Option Failure → Result Failure (ℕ × Text) → Op MaintenanceError W ℕ
  refuse address new old ack read =
      restore_if_known address old >>= λ r. raise (mismatch address new ack read r)

  -- `write_verify_byte` from the readback on
  abbrev pub judge :
      ℕ → ℤ → Option ℕ → Option Failure → Result Failure (ℕ × Text) → Op MaintenanceError W ℕ
  judge address new old ack read = elim (confirms new read) [
    | some v ↦ give v
    | none ↦ refuse address new old ack read
  ]

  -- `write_verify_byte`
  unfoldable pub write_verify_byte : ℕ → ℤ → Option ℕ → Op MaintenanceError W ℕ
  unfolding restore_byte
  write_verify_byte address new old = attempt (write_byte address new) λ ack.
      first_do (sleep broker)
        (attempt (read_uint_le address 1) λ read. judge address new old (error_of ack) read)
