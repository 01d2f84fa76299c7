-- ===== src/Schedule/Editor/Reloaded.antt =====
-- `load_editor` and the status messages of tools/optolink-schedule-manager.py: what the editor shows.
use optolink.Base.{ℕ, ◌≡◌, refl, ap, Bool, true, Option, none, some, List, ◌∷◌}
use optolink.Base.Effect.{Outcome, ◌>>◌}
use optolink.Base.Effect.Triples.{Does, Does-from, Does-change, Does-bind}
use optolink.Base.Result.{Result, ok, err}
use optolink.Maintenance.Device.{Broker, Session}
use optolink.Schedule.Times.{ScheduleError, Window}
use optolink.Schedule.Blocks.{decode_block}
use optolink.Schedule.Manager.{Program, block_address, LinkError, read_block}
use optolink.Schedule.Editor.{
  EditorError, link, Slot, editor_slots_from_intervals, editor_schedule_from_slots,
}
use optolink.Schedule.Editor.State.{EditorState, loading, EditorStatus, Editor, status_of}
use optolink.Schedule.Editor.Actions.{
  loaded, of_result, publish_editor_slots, publish_editor_status, put_slots, read_day, load_editor,
}

-- the state of the status published last
pub record Says {W : Type 0} (st : EditorState) (s : Editor W) : Type 0 where
  pub status : EditorStatus
  pub before : List EditorStatus
  pub last : s.statuses ≡ status ∷ before
  pub state : status.state ≡ st

-- The slots are the windows of the block that was read last, by a reading that ended in the session and
-- began in one with `P`.
pub record Shows {W : Type 0} (broker : Broker W) (address : ℕ) (P : Session W → Type 0)
    (now : Session W) (slots : List Slot) : Type 0 where
  pub from : Session W
  pub since : P from
  pub raw : List ℕ
  pub windows : List Window
  pub was_read : read_block broker address from ≡ (ok raw, now)
  pub decoded : decode_block raw ≡ ok windows
  pub shown : slots ≡ editor_slots_from_intervals windows

status_says :
    {W : Type 0} (st : EditorState) (valid : Option Bool) (s : Editor W)
    → (status_of st valid s.target (editor_schedule_from_slots s.slots)).state ≡ st
status_says st valid s = cases s.target
  where
    cases :
        (t : Option (Program × ℕ))
        → (status_of st valid t (editor_schedule_from_slots s.slots)).state ≡ st
    cases none = refl
    cases (some t) = refl

module _ {W : Type 0} where
  -- publishing keeps what speaks neither of the statuses nor of what was shown
  pub says :
      (P : Editor W → Type 0) (st : EditorState) (valid : Option Bool)
      {X : EditorError → Editor W → Type 0}
      → ((s : Editor W) (x : List EditorStatus) → P s → P (record s { statuses = x }))
      → Does P (publish_editor_status st valid) (λ _ s. P s × Says st s) X
  unfolding publish_editor_status
  says P st valid keep = Does-change _ λ s i. (
    keep s _ i,
    record { status = _; before = s.statuses; last = refl; state = status_says st valid s },
  )

  pub result_known :
      {A : Type 0} (P : Editor W → Type 0) (r : Result EditorError A)
      → Does P (of_result r) (λ a s. P s × (r ≡ ok a)) (λ _ _. Unit {0})
  unfolding of_result
  result_known P (ok a) = record { at = λ s i. (i, refl) }
  result_known P (err e) = record { at = λ s i. tt }

loaded_lem :
    (r : Result ScheduleError (List Window)) (ws : List Window) → loaded r ≡ ok ws → r ≡ ok ws
loaded_lem (ok vs) ws e = ap (λ v. ok v) (same vs ws e)
  where
    same :
        (vs ws : List Window) → ◌≡◌ {A = Result EditorError (List Window)} (ok vs) (ok ws) → vs ≡ ws
    same vs ws e = cc
loaded_lem (err x) ws e = absurd cc

module _ {W : Type 0} (broker : Broker W) where
  -- a block was read
  Fetched : ℕ → (Session W → Type 0) → List ℕ → Editor W → Type 0
  Fetched address P raw s =
      (from : Session W) × P from × (read_block broker address from ≡ (ok raw, s.session))

  fetches :
      (address : ℕ) (P : Session W → Type 0)
      → Does (λ s. P s.session) (read_day broker address) (Fetched address P) (λ _ _. Unit {0})
  unfolding read_day Fetched
  fetches address P = record { at = λ s i. outcome s i (read_block broker address s.session) refl }
    where
      outcome :
          (s : Editor W)
          → P s.session
          → (r : Result LinkError (List ℕ) × Session W) → read_block broker address s.session ≡ r
          → let t : Editor W = record s { session = r.1 } in
            let o : Result EditorError (List ℕ) × Editor W = elim r.0 [
              | err e ↦ (err (link e), t)
              | ok raw ↦ (ok raw, t)
            ] in
            Outcome (Fetched address P) (λ _ _. Unit {0}) o.0 o.1
      outcome s i (ok raw, t) e = (s.session, i, e)
      outcome s i (err x, t) e = tt

  pub load_editor-Shows :
      (program : Program) (day : ℕ) (st : EditorState) (P : Session W → Type 0)
      → Does
          (λ s. P s.session)
          (load_editor broker program day st)
          (λ _ s. Shows broker (block_address program day) P s.session s.slots × Says st s)
          (λ _ _. Unit {0})
  unfolding load_editor publish_editor_slots Fetched
  load_editor-Shows program day st P =
      let address = block_address program day in
      let R : Editor W → Type 0 = λ s. Shows broker address P s.session s.slots in
      Does-bind (λ _ s. P s.session) _ _ (Does-change _ (λ s i. i))
        λ _.
          Does-bind (λ _ s. P s.session × Says loading s) _ _
            (says (λ s. P s.session) loading none (λ s x i. i))
            λ _.
              Does-bind (Fetched address P) _ _
                (Does-from (λ s. P s.session) _ (λ s i. i.0) (fetches address P))
                λ raw.
                  Does-bind (λ ws s. Fetched address P raw s × (loaded (decode_block raw) ≡ ok ws))
                    _ _ (result_known (Fetched address P raw) (loaded (decode_block raw)))
                    (λ ws. shown address st P raw ws)
    where
      shown :
          (address : ℕ) (st : EditorState) (P : Session W → Type 0) (raw : List ℕ)
          (ws : List Window)
          → Does
              (λ s. Fetched address P raw s × (loaded (decode_block raw) ≡ ok ws))
              (put_slots (λ _. editor_slots_from_intervals ws)
                >> (publish_editor_slots >> publish_editor_status st (some true)))
              (λ _ s. Shows broker address P s.session s.slots × Says st s)
              (λ _ _. Unit {0})
      shown address st P raw ws =
          let R : Editor W → Type 0 = λ s. Shows broker address P s.session s.slots in
          Does-bind (λ _. R) _ _
            (Does-change _ λ s i. record {
              from = i.0.0;
              since = i.0.1;
              raw = raw;
              windows = ws;
              was_read = i.0.2;
              decoded = loaded_lem (decode_block raw) ws i.1;
              shown = refl;
            })
            λ _.
              Does-bind (λ _. R) _ _ (Does-change _ (λ s i. i))
                (λ _. says R st (some true) (λ s x i. i))
