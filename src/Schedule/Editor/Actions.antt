-- ===== src/Schedule/Editor/Actions.antt =====
-- The editor's actions in tools/optolink-schedule-manager.py: `load_editor`, `set_editor_slot`,
-- `set_editor_enabled`, `clear_editor`, `apply_editor`, `handle_editor_action`, with what they publish,
-- and the queue of actions between `on_message` and `run`.
use optolink.Base.{
  ℕ, Bool, true, false, ◌||◌, Option, none, some, List, [], ◌∷◌, ◌++◌, map, if◌then◌else◌,
}
use optolink.Base.Effect.{give, raise, ◌>>=◌, ◌>>◌, change, view, except}
use optolink.Base.Result.{Result, ok, err}
use optolink.Text.{Text, codes, same_text, strip, lower}
use optolink.Maintenance.Device.{Broker}
use optolink.Schedule.Times.{ScheduleError, Time, Window, parse_time, is_empty}
use optolink.Schedule.Blocks.{decode_block}
use optolink.Schedule.Manager.{Program, block_address, bad_block, succeeded, read_block, apply}
use optolink.Schedule.Editor.{
  EditorError, no_target, bad_target, bad_time, link, Slot, off, editor_slots_from_intervals,
  editor_schedule_from_slots, normalize_editor_time, slot_at, default_editor_interval,
}
use optolink.Schedule.Editor.State.{
  Side, start_side, end_side, Action, set_schedule, load, reload, clear, apply_now, set_enabled,
  set_slot, EditorState, ready, loading, dirty, applying, confirmed, error, Editor, EditorOp,
  shown_slot, status_of, with_start, with_end, update, is_set, is_on, program_named, index_in,
}

-- the names of `DAYS`
abbrev pub day_names : List Text
day_names =
    codes "montag"
    ∷ codes "dienstag"
    ∷ codes "mittwoch"
    ∷ codes "donnerstag"
    ∷ codes "freitag"
    ∷ codes "samstag"
    ∷ codes "sonntag"
    ∷ []

abbrev pub day_named : Program → Option ℕ → Result EditorError (Program × ℕ)
day_named program none = err bad_target
day_named program (some day) = ok (program, day)

abbrev pub target_named : Text → Text → Result EditorError (Program × ℕ)
target_named name day = elim (program_named name) [
  | err e ↦ err e
  | ok program ↦ day_named program (index_in day day_names)
]

-- `parse_editor_target`, of the two fields of the payload, if it is an object
unfoldable pub parse_editor_target : Option (Text × Text) → Result EditorError (Program × ℕ)
unfolding strip
parse_editor_target none = err bad_target
parse_editor_target (some (name, day)) = target_named (strip name) (lower (strip day))

abbrev pub loaded : Result ScheduleError (List Window) → Result EditorError (List Window)
loaded (err e) = err (link (bad_block e))
loaded (ok intervals) = ok intervals

abbrev pub timed : Result ScheduleError Time → Result EditorError Time
timed (err e) = err (bad_time e)
timed (ok t) = ok t

module _ {W : Type 0} where
  unfoldable pub of_result : {A : Type 0} → Result EditorError A → EditorOp W A
  of_result r s = (r, s)

  -- `publish_editor_slots`
  unfoldable pub publish_editor_slots : EditorOp W (Unit {0})
  publish_editor_slots = change λ s. record s { shown = map shown_slot s.slots ∷ s.shown }

  -- `publish_editor_status`
  unfoldable pub publish_editor_status : EditorState → Option Bool → EditorOp W (Unit {0})
  publish_editor_status st valid = change λ s. record s {
    statuses = status_of st valid s.target (editor_schedule_from_slots s.slots) ∷ s.statuses;
  }

  abbrev pub put_slots : (List Slot → List Slot) → EditorOp W (Unit {0})
  put_slots f = change λ s. record s { slots = f s.slots }

  abbrev pub need_target : Option (Program × ℕ) → EditorOp W (Program × ℕ)
  need_target none = raise no_target
  need_target (some t) = give t

  -- `if self.editor_target is None: raise`
  abbrev pub the_target : EditorOp W (Program × ℕ)
  the_target = view (λ s. s.target) >>= need_target

  -- what follows a change of a slot: the preview and the message come from the slots
  unfoldable pub publish_draft : EditorOp W (Unit {0})
  publish_draft = publish_editor_slots >> publish_editor_status dirty none

  -- the three branches of `set_editor_slot`
  unfoldable pub put_side : ℕ → Side → Text → EditorOp W (Unit {0})
  put_side slot start_side value =
      of_result (timed (parse_time false (normalize_editor_time false value))) >>= λ start.
      put_slots (update slot (with_start start))
  put_side slot end_side value =
      of_result (timed (parse_time true (normalize_editor_time true value))) >>= λ end.
      put_slots (update slot (with_end end))

  -- `set_editor_slot`
  unfoldable pub set_editor_slot : ℕ → Side → Text → EditorOp W (Unit {0})
  unfolding strip
  set_editor_slot slot side value = the_target >>= λ _.
      (if same_text (strip value) (codes "Aus")
        then put_slots (update slot (λ _. off))
        else put_side slot side (strip value))
      >> publish_draft

  unfoldable pub fill_slot : ℕ → List Slot → EditorOp W (Unit {0})
  fill_slot slot slots =
      if is_set (slot_at slot slots)
      then give tt
      else of_result (default_editor_interval slots slot) >>= λ w.
          put_slots (update slot (λ _. (some w.0, some w.1)))

  -- `set_editor_enabled`
  unfoldable pub set_editor_enabled : ℕ → Text → EditorOp W (Unit {0})
  unfolding strip
  set_editor_enabled slot payload = the_target >>= λ _.
      (if is_on (lower (strip payload))
        then view (λ s. s.slots) >>= fill_slot slot
        else put_slots (update slot (λ _. off)))
      >> publish_draft

  -- `clear_editor`
  unfoldable pub clear_editor : EditorOp W (Unit {0})
  clear_editor = the_target >>= λ _.
      put_slots (λ _. editor_slots_from_intervals [])
      >> (publish_editor_slots >> publish_editor_status dirty (some true))

module _ {W : Type 0} (broker : Broker W) where
  -- `read_block`
  unfoldable pub read_day : ℕ → EditorOp W (List ℕ)
  read_day address s =
      let r = read_block broker address s.session in
      let t : Editor W = record s { session = r.1 } in
      elim r.0 [ err e ↦ (err (link e), t) | ok raw ↦ (ok raw, t) ]

  -- `apply`, which raises nothing
  unfoldable pub apply_day : Program → ℕ → Text → EditorOp W Bool
  apply_day program day payload s =
      let r = apply broker program day payload s.session in
      (ok (succeeded r.0.outcome), record s { session = r.1 })

  -- `load_editor`, with the state that it publishes at the end
  unfoldable pub load_editor : Program → ℕ → EditorState → EditorOp W (Unit {0})
  load_editor program day st = do
    change (λ s. record s { target = some (program, day) })
    publish_editor_status loading none
    raw ← read_day (block_address program day)
    intervals ← of_result (loaded (decode_block raw))
    put_slots (λ _. editor_slots_from_intervals intervals)
    publish_editor_slots
    publish_editor_status st (some true)

  -- `apply_editor`
  unfoldable pub apply_editor : EditorOp W (Unit {0})
  apply_editor = do
    target ← the_target
    payload ← view (λ s. editor_schedule_from_slots s.slots) >>= of_result
    publish_editor_status applying (some true)
    done ← apply_day target.0 target.1 payload
    if done
        then load_editor target.0 target.1 confirmed
        else publish_editor_status error (some true)

  -- the body of the `try` of `handle_editor_action`; a command of a schedule topic is none of the editor
  unfoldable pub editor_action : Action → EditorOp W (Unit {0})
  editor_action (set_schedule program day payload) = apply_day program day payload >>= λ _. give tt
  editor_action (load payload) =
      of_result (parse_editor_target payload) >>= λ t. load_editor t.0 t.1 ready
  editor_action reload = the_target >>= λ t. load_editor t.0 t.1 ready
  editor_action clear = clear_editor
  editor_action apply_now = apply_editor
  editor_action (set_enabled slot payload) = set_editor_enabled slot payload
  editor_action (set_slot slot side payload) = set_editor_slot slot side payload

  -- `handle_editor_action`, and the call of `apply` in `run`, which catches what it raises
  unfoldable pub handle_editor_action : Action → EditorOp W (Unit {0})
  handle_editor_action a = except (editor_action a) (λ e. publish_editor_status error (some false))

  -- the loop of `run` over the actions of the queue
  unfoldable pub run : List Action → Editor W → Editor W
  run [] s = s
  run (a ∷ actions) s = run actions (handle_editor_action a s).1

-- a message on a command topic, with the action of the topic
pub record Message : Type 0 where
  pub retained : Bool
  pub payload : Text
  pub action : Action

-- `on_message` on the queue: retained and empty messages are dropped
abbrev pub on_message : Message → List Action → List Action
on_message m queue =
    if m.retained || is_empty (strip m.payload) then queue else queue ++ m.action ∷ []
