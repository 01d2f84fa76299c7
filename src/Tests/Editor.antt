-- ===== src/Tests/Editor.antt =====
-- The editor of optolink-schedule-manager.py at a draft of one day.
use optolink.Base.{
  ◌≡◌, ◌++◌, ◌⊎◌, map, refl, inl, inr, List, [], ◌∷◌, none, some, true, false, arith,
}
use optolink.Base.Result.{ok, err, OnOk}
use optolink.Base.Effect.{◌>>=◌, give, view, change, except}
use optolink.Text.{Text, codes, strip, lstrip, rstrip, split}
use optolink.Schedule.Times.{time, Window, parse_schedule, windows, stripped_parts, parse_time}
use optolink.Schedule.Blocks.{canonical_schedule}
use optolink.Maintenance.Device
use optolink.Maintenance.Device.{first_do, attempt}
use optolink.Text.Hex.{from_hex, to_hex}
use optolink.Text.{int_auto, int_hex}
use optolink.Maintenance.Commands.{address_text}
use optolink.Schedule.Blocks.{
  encode_schedule, encode_windows, decode_block, decode_slots, decode_slot,
}
use optolink.Schedule.Times.{encode_time, decode_time_byte}
use optolink.Schedule.Manager.{
  heating, apply, apply_block, read_block, write_block, readback_target, ask, listen, search_answer,
  block_response, block_of,
}
use optolink.Schedule.Editor.{
  Slot, off, incomplete, no_free_window, editor_slots_from_intervals, editor_schedule_from_slots,
  normalize_editor_time, others, default_editor_interval, time_plus_minutes,
}
use optolink.Schedule.Editor.State.{
  load, apply_now, confirmed, loading, applying, error, EditorStatus, Editor, end_side, Action,
  set_slot, reload,
}
use optolink.Schedule.Editor.Actions.{
  on_message, run, handle_editor_action, editor_action, set_editor_slot, put_side, publish_draft,
  publish_editor_slots, publish_editor_status, of_result, apply_editor, apply_day, load_editor,
  read_day,
}
use optolink.Schedule.Editor.Free.{IsFree, default_editor_interval-IsFree}
use optolink.Schedule.Editor.Slots.{AreFit}
use optolink.Schedule.Editor.Drafts.{OnlyReads, run-OnlyReads}
use optolink.Schedule.Editor.Reloaded.{Says}
use optolink.Schedule.Editor.Applied.{Confirmed, handle_editor_action-IsConfirmed}
use optolink.Schedule.Editor.Kept.{run-AreFit}
use optolink.Tests.Schedule.{scripted, start, answers, two_windows, asked_day}

abbrev day : List Window
day = (time 6 0, time 8 0) ∷ (time 16 30, time 24 0) ∷ []

abbrev draft : List Slot
draft = editor_slots_from_intervals day

draft-IsFit : AreFit draft
draft-IsFit = (
  refl,
  (
    ((omega arith, refl, omega arith), inl (omega arith, refl, omega arith), omega arith),
    (((omega arith, refl, omega arith), inr (refl, refl), omega arith), (tt, (tt, tt))),
  ),
)

draft_runs : editor_schedule_from_slots draft ≡ ok (codes "06:00-08:00,16:30-24:00")
unfolding editor_schedule_from_slots canonical_schedule parse_schedule windows stripped_parts
    parse_time strip lstrip rstrip split
draft_runs = refl

half_run : editor_schedule_from_slots ((some (time 6 0), none) ∷ []) ≡ err incomplete
unfolding editor_schedule_from_slots
half_run = refl

normalized_runs :
    (normalize_editor_time false (codes "06:04:59") ≡ codes "06:00")
    × (normalize_editor_time true (codes "00:00") ≡ codes "24:00")
    × (normalize_editor_time false (codes "23:58") ≡ codes "23:50")
    × (normalize_editor_time true (codes "23:58") ≡ codes "24:00")
    × (normalize_editor_time true (codes "00:04") ≡ codes "00:10")
    × (normalize_editor_time true (codes "0:00") ≡ codes "0:00")
unfolding normalize_editor_time strip lstrip rstrip
normalized_runs = (refl, refl, refl, refl, refl, refl)

-- the third slot is offered an hour after the second, which ends the day, so the first gap is taken
interval_runs :
    (default_editor_interval draft 2 ≡ ok (time 0 0, time 1 0))
    × (default_editor_interval draft 1 ≡ ok (time 8 0, time 9 0))
    × (default_editor_interval ((some (time 0 0), some (time 24 0)) ∷ off ∷ []) 1
        ≡ err no_free_window)
unfolding default_editor_interval
interval_runs = (refl, refl, refl)

abbrev editor : Editor (List Text)
editor = record {
  session = start answers;
  target = some (heating, 0);
  slots = draft;
  statuses = [];
  shown = [];
}

-- An end of 0:00 with one digit is not read as midnight, and leaves a slot that ends where it starts.
abbrev commands : List Action
commands = set_slot 2 end_side (codes "0:00") ∷ []

commands_done :
    (run scripted commands editor).slots
    ≡ (some (time 6 0), some (time 8 0))
      ∷ (some (time 16 30), some (time 24 0))
      ∷ (some (time 0 0), some (time 0 0))
      ∷ off
      ∷ []
unfolding run handle_editor_action editor_action set_editor_slot put_side publish_draft
    publish_editor_slots publish_editor_status of_result ◌>>=◌ give view change except
    normalize_editor_time parse_time time_plus_minutes strip lstrip rstrip
commands_done = refl

message_runs :
    (on_message (record { retained = true; payload = codes "ON"; action = reload }) [] ≡ [])
    × (on_message (record { retained = false; payload = codes " "; action = reload }) [] ≡ [])
    × (on_message (record { retained = false; payload = codes "1"; action = reload }) []
        ≡ reload ∷ [])
unfolding strip lstrip rstrip
message_runs = (refl, refl, refl)

default_editor_interval-IsFree_example :
    OnOk (IsFree (others 2 draft)) (default_editor_interval draft 2)
default_editor_interval-IsFree_example = default_editor_interval-IsFree draft 2 draft-IsFit.1

run-AreFit_example : AreFit (run scripted commands editor).slots
run-AreFit_example = run-AreFit scripted commands editor draft-IsFit

abbrev loads : List Action
loads = load (some (codes "heating", codes " Montag ")) ∷ commands

run-OnlyReads_example :
    OnlyReads editor.session.sent (run scripted loads editor).session
    × AreFit (run scripted loads editor).slots
run-OnlyReads_example = run-OnlyReads scripted loads editor (tt, (tt, tt)) draft-IsFit

-- the draft of the day that is written, and the answers of the apply and of the reading after it
abbrev ready_editor : Editor (List Text)
ready_editor = record {
  session = start (answers ++ asked_day ∷ []);
  target = some (heating, 0);
  slots = editor_slots_from_intervals two_windows;
  statuses = [];
  shown = [];
}

confirmed_run :
    map
      (λ (m : EditorStatus). m.state)
      (handle_editor_action scripted apply_now ready_editor).1.statuses
    ≡ confirmed ∷ loading ∷ applying ∷ []
unfolding handle_editor_action editor_action apply_editor apply_day load_editor read_day
    publish_editor_slots publish_editor_status of_result ◌>>=◌ give view change except
    editor_schedule_from_slots canonical_schedule apply apply_block read_block write_block
    readback_target ask listen search_answer block_response block_of first_do attempt
    encode_schedule encode_windows decode_block decode_slots decode_slot encode_time
    decode_time_byte parse_schedule windows stripped_parts parse_time from_hex to_hex address_text
    strip lstrip rstrip split int_auto int_hex Device.◌>>=◌ Device.give Device.raise
confirmed_run = refl

handle_editor_action-IsConfirmed_example :
    Says error (handle_editor_action scripted apply_now ready_editor).1
    ⊎ Confirmed scripted ready_editor.target ready_editor.slots
        (handle_editor_action scripted apply_now ready_editor).1
handle_editor_action-IsConfirmed_example = handle_editor_action-IsConfirmed scripted ready_editor
