-- ===== src/Schedule/Editor/State.antt =====
-- The state of the editor in tools/optolink-schedule-manager.py, its commands, what it publishes,
-- and the changes of one slot.
use optolink.Base.{
  ℕ, zero, suc, Bool, true, false, not, ◌||◌, Option, none, some, List, [], ◌∷◌, leb, if◌then◌else◌,
}
use optolink.Base.Effect.{Op}
use optolink.Base.Result.{Result, ok, err}
use optolink.Text.{Text, codes, same_text}
use optolink.Maintenance.Device.{Session}
use optolink.Schedule.Times.{Time, to_minutes, show_time}
use optolink.Schedule.Manager.{Program, heating, dhw, circulation}
use optolink.Schedule.Editor.{EditorError, bad_target, Slot, time_plus_minutes, editor_time_state}

pub data Side : Type 0 where
  start_side end_side : Side

-- The commands: that of a schedule topic, and those of the editor topics. The topics of a slot's time
-- and of a slot's text do the same.
pub data Action : Type 0 where
  set_schedule : Program → ℕ → Text → Action
  load : Option (Text × Text) → Action
  reload clear apply_now : Action
  set_enabled : ℕ → Text → Action
  set_slot : ℕ → Side → Text → Action

pub data EditorState : Type 0 where
  ready loading dirty applying confirmed error : EditorState

-- the payload of `publish_editor_status`
pub record EditorStatus : Type 0 where
  pub state : EditorState
  pub target : Option (Program × ℕ)
  pub preview : Option Text
  pub valid : Option Bool

-- what `publish_editor_slots` publishes of a slot
pub record Shown : Type 0 where
  pub start : Text
  pub end : Text
  pub enabled : Text
  pub start_time : Text
  pub end_time : Text

-- The manager. `statuses` and `shown` are no fields of the source: what was published, the latest first.
pub record Editor (W : Type 0) : Type 0 where
  pub session : Session W
  pub target : Option (Program × ℕ)
  pub slots : List Slot
  pub statuses : List EditorStatus
  pub shown : List (List Shown)

abbrev pub EditorOp : Type 0 → Type 0 → Type 0
EditorOp W A = Op EditorError (Editor W) A

-- `start or EDITOR_OFF`
abbrev pub time_or_off : Option Time → Text
time_or_off none = codes "Aus"
time_or_off (some t) = show_time t

abbrev pub is_set : Slot → Bool
is_set (some start, some end) = true
is_set _ = false

abbrev pub shown_slot : Slot → Shown
shown_slot s = record {
  start = time_or_off s.0;
  end = time_or_off s.1;
  enabled = if is_set s then codes "ON" else codes "OFF";
  start_time = editor_time_state false s.0;
  end_time = editor_time_state true s.1;
}

abbrev pub preview_of : Result EditorError Text → Option Text
preview_of (ok text) = some text
preview_of (err e) = none

abbrev pub is_valid : Result EditorError Text → Bool
is_valid (ok text) = true
is_valid (err e) = false

abbrev pub or_valid : Option Bool → Bool → Option Bool
or_valid none b = some b
or_valid (some v) b = some v

-- the payload, from the target and what the slots make
abbrev pub status_of :
    EditorState → Option Bool → Option (Program × ℕ) → Result EditorError Text → EditorStatus
status_of st valid none made = record { state = st; target = none; preview = none; valid = valid }
status_of st valid (some t) made = record {
  state = st;
  target = some t;
  preview = preview_of made;
  valid = or_valid valid (is_valid made);
}

-- an end after the start is kept
abbrev pub ends_after : Time → Option Time → Bool
ends_after start none = false
ends_after start (some end) = not (leb (to_minutes end) (to_minutes start))

abbrev pub starts_before : Time → Option Time → Bool
starts_before end none = false
starts_before end (some start) = not (leb (to_minutes end) (to_minutes start))

abbrev pub with_start : Time → Slot → Slot
with_start start s =
    (some start, if ends_after start s.1 then s.1 else some (time_plus_minutes true 60 0 start))

abbrev pub with_end : Time → Slot → Slot
with_end end s =
    (if starts_before end s.0 then s.0 else some (time_plus_minutes false 0 60 end), some end)

abbrev pub update : ℕ → (Slot → Slot) → List Slot → List Slot
update n f [] = []
update zero f (s ∷ slots) = f s ∷ slots
update (suc n) f (s ∷ slots) = s ∷ update n f slots

-- `payload.strip().lower() in {"on", "1", "true", "yes"}`
abbrev pub is_on : Text → Bool
is_on text =
    same_text text (codes "on")
    || same_text text (codes "1")
    || same_text text (codes "true")
    || same_text text (codes "yes")

abbrev pub program_named : Text → Result EditorError Program
program_named name =
    if same_text name (codes "heating")
    then ok heating
    else if same_text name (codes "dhw")
    then ok dhw
    else if same_text name (codes "circulation")
    then ok circulation
    else err bad_target

-- the index of a name
abbrev pub index_in : Text → List Text → Option ℕ
index_in name [] = none
index_in name (n ∷ ns) = elim (index_in name ns) [
  | none ↦ if same_text name n then some 0 else none
  | some i ↦ if same_text name n then some 0 else some (suc i)
]
