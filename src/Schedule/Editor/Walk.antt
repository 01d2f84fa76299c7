-- ===== src/Schedule/Editor/Walk.antt =====
-- The editor's actions keep the slots fit, and keep what the reads and the applied drafts keep of the
-- session.
use optolink.Base.{◌⊎◌, inl, inr, ℕ, true, false, none, some, List, [], ◌∷◌, All}
use optolink.Base.Effect.{view, Outcome}
use optolink.Base.Effect.Triples.{Does-give, Does-view, Does-if, Does-except, Does-change}
use optolink.Base.Result.{Result, ok, err, OnOk}
use optolink.Text.{Text}
use optolink.Maintenance.Device.{Broker, Session}
use optolink.Schedule.Blocks.{decode_block}
use optolink.Schedule.Manager.{Program, block_address, LinkError, read_block, apply}
use optolink.Schedule.Editor.{EditorError, link, editor_schedule_from_slots}
use optolink.Schedule.Editor.State.{
  Action, set_schedule, load, reload, clear, apply_now, set_enabled, set_slot, EditorState, ready,
  loading, applying, confirmed, error, Editor,
}
use optolink.Schedule.Editor.Actions.{
  parse_editor_target, loaded, of_result, the_target, read_day, apply_day, load_editor,
  apply_editor, editor_action, handle_editor_action, run,
}
use optolink.Schedule.Editor.Steps.{
  Fits, Keeps, bind-Keeps, result-Keeps, of_result-Keeps, put_slots-Keeps,
  publish_editor_slots-Keeps, publish_editor_status-Keeps, the_target-Keeps, set_editor_slot-Keeps,
  set_editor_enabled-Keeps, clear_editor-Keeps,
}
use optolink.Schedule.Editor.Slots.{AreFit, IsDay, loaded-AreDays, slots_of-AreFit}

any-OnOk : {B : Type 0} (r : Result EditorError B) → OnOk (λ _. Unit {0}) r
any-OnOk (ok b) = tt
any-OnOk (err e) = tt

-- the actions of the editor other than the one that applies the draft
abbrev pub IsDraft : Action → Type 0
IsDraft (set_schedule program day payload) = ⊥
IsDraft apply_now = ⊥
IsDraft _ = Unit

abbrev pub AreDrafts : List Action → Type 0
AreDrafts = All IsDraft

module _ {W : Type 0} (broker : Broker W) (J : Session W → Type 0)
    (reads : (program : Program) (day : ℕ) (s : Session W)
      → J s
      → J (read_block broker (block_address program day) s).1) where
  abbrev pub Applies : Type 0
  Applies =
      (program : Program) (day : ℕ) (payload : Text) (s : Session W)
      → J s
      → J (apply broker program day payload s).1

  read_day-Keeps :
      (program : Program) (day : ℕ) → Keeps J (read_day broker (block_address program day))
  unfolding read_day
  read_day-Keeps program day = record {
    at = λ s i.
        outcome s (read_block broker (block_address program day) s.session).0 _
          (i.0, reads program day s.session i.1);
  }
    where
      outcome :
          (s : Editor W) (r : Result LinkError (List ℕ)) (t : Session W)
          → AreFit s.slots × J t
          → let u : Editor W = record s { session = t } in
            let o : Result EditorError (List ℕ) × Editor W = elim r [
              | err e ↦ (err (link e), u)
              | ok raw ↦ (ok raw, u)
            ] in
            Outcome (λ _. Fits J) (λ _. Fits J) o.0 o.1
      outcome s (ok raw) t i = i
      outcome s (err e) t i = i

  apply_day-Keeps :
      (program : Program) (day : ℕ) (payload : Text)
      → Applies
      → Keeps J (apply_day broker program day payload)
  unfolding apply_day
  apply_day-Keeps program day payload applies = record {
    at = λ s i. (i.0, applies program day payload s.session i.1);
  }

  load_editor-Keeps :
      (program : Program) (day : ℕ) (st : EditorState) → Keeps J (load_editor broker program day st)
  unfolding load_editor
  load_editor-Keeps program day st = bind-Keeps J _ _ (Does-change _ (λ s i. i)) λ _.
      bind-Keeps J _ _ (publish_editor_status-Keeps J loading none) λ _.
        bind-Keeps J _ _ (read_day-Keeps program day) λ raw.
          result-Keeps J (All IsDay) (loaded (decode_block raw)) _ (loaded-AreDays raw) λ ws h.
            bind-Keeps J _ _ (put_slots-Keeps J _ (λ slots i. slots_of-AreFit 4 ws h)) λ _.
              bind-Keeps J _ _ (publish_editor_slots-Keeps J)
                λ _. publish_editor_status-Keeps J st (some true)

  apply_editor-Keeps : Applies → Keeps J (apply_editor broker)
  unfolding apply_editor
  apply_editor-Keeps applies = bind-Keeps J the_target _ (the_target-Keeps J) λ target.
      bind-Keeps J _ _
        (bind-Keeps J (view (λ s. editor_schedule_from_slots s.slots)) of_result
          (Does-view _ (λ s i. i)) (of_result-Keeps J))
        λ payload. bind-Keeps J _ _ (publish_editor_status-Keeps J applying (some true)) λ _.
          bind-Keeps J _ _ (apply_day-Keeps target.0 target.1 payload applies) λ done.
            Does-if done _ _ (λ _. load_editor-Keeps target.0 target.1 confirmed)
              (λ _. publish_editor_status-Keeps J error (some true))

  editor_action-Keeps : (a : Action) → IsDraft a ⊎ Applies → Keeps J (editor_action broker a)
  unfolding editor_action
  editor_action-Keeps (set_schedule program day payload) (inl d) = absurd d
  editor_action-Keeps (set_schedule program day payload) (inr applies) =
      bind-Keeps J _ _ (apply_day-Keeps program day payload applies) (λ _. Does-give tt (λ s i. i))
  editor_action-Keeps (load payload) d =
      result-Keeps J (λ _. Unit {0}) (parse_editor_target payload) _ (any-OnOk _)
        λ t _. load_editor-Keeps t.0 t.1 ready
  editor_action-Keeps reload d =
      bind-Keeps J the_target _ (the_target-Keeps J) λ t. load_editor-Keeps t.0 t.1 ready
  editor_action-Keeps clear d = clear_editor-Keeps J
  editor_action-Keeps apply_now (inl d) = absurd d
  editor_action-Keeps apply_now (inr applies) = apply_editor-Keeps applies
  editor_action-Keeps (set_enabled n payload) d = set_editor_enabled-Keeps J n payload
  editor_action-Keeps (set_slot n side value) d = set_editor_slot-Keeps J n side value

  handle_editor_action-Fits :
      (a : Action) (s : Editor W)
      → IsDraft a ⊎ Applies
      → Fits J s
      → Fits J (handle_editor_action broker a s).1
  unfolding handle_editor_action
  handle_editor_action-Fits a s d h = after _ (
      (Does-except (λ _. Fits J) (editor_action broker a) _ (editor_action-Keeps a d)
          (λ e. publish_editor_status-Keeps J error (some false))).at
        s h)
    where
      after :
          (r : Result EditorError (Unit {0}) × Editor W)
          → Outcome (λ _. Fits J) (λ _. Fits J) r.0 r.1
          → Fits J r.1
      after (ok _, t) o = o
      after (err _, t) o = o

  pub run-Fits :
      (actions : List Action) (s : Editor W)
      → AreDrafts actions ⊎ Applies
      → Fits J s
      → Fits J (run broker actions s)
  unfolding run
  run-Fits [] s d h = h
  run-Fits (a ∷ actions) s (inl d) h =
      run-Fits actions _ (inl d.1) (handle_editor_action-Fits a s (inl d.0) h)
  run-Fits (a ∷ actions) s (inr applies) h =
      run-Fits actions _ (inr applies) (handle_editor_action-Fits a s (inr applies) h)
