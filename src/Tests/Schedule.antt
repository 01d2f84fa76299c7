-- ===== src/Tests/Schedule.antt =====
-- optolink-schedule-manager.py at the payloads of its own documentation.
use optolink.Base.{ℕ, ◌≡◌, ◌≤◌, refl, List, [], ◌∷◌, true, false, arith, length, All}
use optolink.Base.Result.{ok, err}
use optolink.Text.{Text, codes, strip, lstrip, rstrip, split}
use optolink.Text.Hex.{IsByte}
use optolink.Schedule.Times.{
  Window, time, parse_schedule, windows, stripped_parts, parse_time, half_empty_slot, overlapping,
  empty_payload, bad_minute, is_empty, encode_time, decode_time_byte,
}
use optolink.Schedule.Blocks.{
  encode_schedule, encode_windows, decode_block, decode_slots, decode_slot, canonical_schedule,
}
use optolink.Schedule.Windows.{IsSchedule, parse_schedule-IsSchedule}
use optolink.Schedule.RoundTrip.{decode_block-encode_schedule}
use optolink.Base.{none, some}
use optolink.Maintenance.Device.{Broker, Session, give, raise, first_do, attempt, ◌>>=◌}
use optolink.Schedule.Times.{ScheduleError}
use optolink.Schedule.Manager.{
  heating, block_address, bad_block, applied, rejected, written, failed, succeeded, apply,
  apply_block, read_block, write_block, readback_target, ask, listen, search_answer, block_response,
  block_of,
}
use optolink.Schedule.Rechecked.{Seen}
use optolink.Schedule.Confirmed.{apply-IsConfirmed}
use optolink.Text.Hex.{from_hex, to_hex}
use optolink.Text.{int_auto, int_hex}
use optolink.Maintenance.Commands.{address_text}
use optolink.Schedule.Canonical.{parse_schedule-canonical_schedule}

abbrev payload : Text
payload = codes " 05:00-8:00 ,16:00-24:00,"

abbrev pub two_windows : List Window
two_windows = (time 5 0, time 8 0) ∷ (time 16 0, time 24 0) ∷ []

payload_runs : parse_schedule payload ≡ ok two_windows
unfolding parse_schedule windows stripped_parts parse_time strip lstrip rstrip split
payload_runs = refl

rejected_run :
    (parse_schedule (codes "05:00-08:00,07:00-09:00") ≡ err overlapping)
    × (parse_schedule (codes "05:05-08:00") ≡ err bad_minute)
    × (parse_schedule (codes "  ") ≡ err empty_payload)
    × (parse_schedule (codes "NONE") ≡ ok [])
unfolding parse_schedule windows stripped_parts parse_time strip lstrip rstrip split
rejected_run = (refl, refl, refl, refl)

encode_runs :
    encode_schedule payload ≡ ok (40 ∷ 64 ∷ 128 ∷ 192 ∷ 255 ∷ 255 ∷ 255 ∷ 255 ∷ [], two_windows)
unfolding encode_schedule encode_windows encode_time parse_schedule windows stripped_parts
    parse_time strip lstrip rstrip split
encode_runs = refl

canonical_runs : canonical_schedule two_windows ≡ codes "05:00-08:00,16:00-24:00"
unfolding canonical_schedule
canonical_runs = refl

half_empty_runs :
    decode_block (40 ∷ 255 ∷ 255 ∷ 255 ∷ 255 ∷ 255 ∷ 255 ∷ 255 ∷ []) ≡ err half_empty_slot
unfolding decode_block decode_slots decode_slot
half_empty_runs = refl

decode_block-encode_schedule_example :
    IsSchedule 0 two_windows
    × (length two_windows ≤ 4)
    × (is_empty (strip payload) ≡ false)
    × (raw : List ℕ) × (encode_schedule payload ≡ ok (raw, two_windows))
    × (length raw ≡ 8)
    × All IsByte raw
    × (decode_block raw ≡ ok two_windows)
decode_block-encode_schedule_example = decode_block-encode_schedule payload two_windows payload_runs

parse_schedule-canonical_schedule_example :
    parse_schedule (canonical_schedule two_windows) ≡ ok two_windows
parse_schedule-canonical_schedule_example =
    parse_schedule-canonical_schedule two_windows
      (parse_schedule-IsSchedule payload two_windows payload_runs).0 (omega arith)

-- each look finds one response, and there is one look before the deadline
abbrev next_answer : List Text → List Text × List Text
next_answer [] = ([], [])
next_answer (r ∷ rs) = (r ∷ [], rs)

abbrev pub scripted : Broker (List Text)
scripted = record { publish = λ c w. (true, w); looks = λ w. 1; look = next_answer; pause = λ w. w }

abbrev pub start : List Text → Session (List Text)
start w = record { world = w; responses = []; sent = [] }

abbrev empty_day : Text
empty_day = codes "1;0x2000;ffffffffffffffff"

abbrev pub asked_day : Text
asked_day = codes "1;0x2000;284080c0ffffffff"

abbrev pub answers : List Text
answers = empty_day ∷ codes "1;0x2000;8" ∷ asked_day ∷ []

apply_runs :
    (apply scripted heating 0 payload (start answers)).0 ≡ applied written (some two_windows)
unfolding apply apply_block read_block write_block readback_target ask listen search_answer
    block_response block_of ◌>>=◌ give raise first_do attempt encode_schedule encode_windows
    decode_block decode_slots decode_slot encode_time decode_time_byte parse_schedule windows
    stripped_parts parse_time from_hex to_hex address_text strip lstrip rstrip split int_auto
    int_hex
apply_runs = refl

-- A readback that is no valid block ends `apply` before the original block is put back: the only block
-- written is the new one.
abbrev damaged_answers : List Text
damaged_answers = empty_day ∷ codes "1;0x2000;8" ∷ codes "1;0x2000;28ff80c0ffffffff" ∷ []

damaged_run :
    ((apply scripted heating 0 payload (start damaged_answers)).0
      ≡ applied (failed (bad_block half_empty_slot)) none)
    × ((apply scripted heating 0 payload (start damaged_answers)).1.sent
        ≡ codes "r;0x2000;8;raw;False"
          ∷ codes "wraw;0x2000;284080C0FFFFFFFF"
          ∷ codes "r;0x2000;8;raw;False"
          ∷ [])
unfolding apply apply_block read_block write_block readback_target ask listen search_answer
    block_response block_of ◌>>=◌ give raise first_do attempt encode_schedule encode_windows
    decode_block decode_slots decode_slot encode_time decode_time_byte parse_schedule windows
    stripped_parts parse_time from_hex to_hex address_text strip lstrip rstrip split int_auto
    int_hex
damaged_run = (refl, refl)

apply-IsConfirmed_example :
    ((vs : List Window)
      → (apply scripted heating 0 payload (start answers)).0.published ≡ some vs
      → (raw : List ℕ) × Seen scripted
          (block_address heating 0)
          raw
          (apply scripted heating 0 payload (start answers)).1
        × (decode_block raw ≡ ok vs))
    × (succeeded (apply scripted heating 0 payload (start answers)).0.outcome ≡ true
        → (target : List ℕ) × (ws : List Window) × (encode_schedule payload ≡ ok (target, ws))
          × Seen scripted
              (block_address heating 0)
              target
              (apply scripted heating 0 payload (start answers)).1
          × ((apply scripted heating 0 payload (start answers)).0.published ≡ some ws))
    × ((e : ScheduleError)
        → encode_schedule payload ≡ err e
        → apply scripted heating 0 payload (start answers)
          ≡ (applied (rejected e) none, start answers))
apply-IsConfirmed_example = apply-IsConfirmed scripted heating 0 payload (start answers)
