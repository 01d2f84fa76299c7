-- ===== src/Schedule/Editor/Steps.antt =====
-- The steps of the editor keep its slots fit, and leave the session as it is.
use optolink.Base.{ℕ, ◌+◌, ◌≤◌, arith, Bool, true, false, Option, none, some, List, []}
use optolink.Base.Effect.{◌>>=◌, view}
use optolink.Base.Effect.Triples.{
  Does-give, Does-raise, Does-view, Does-bind, Does-if, Does, Does-change, Does-fact,
}
use optolink.Base.Result.{Result, ok, err, OnOk}
use optolink.Text.{Text, codes, same_text, strip, lower}
use optolink.Maintenance.Device.{Session}
use optolink.Schedule.Times.{ScheduleError, Time, parse_time}
use optolink.Schedule.Manager.{Program}
use optolink.Schedule.Windows.{IsStart, IsEnd, parse_time-IsStart, parse_time-IsEnd}
use optolink.Schedule.Editor.{
  EditorError, Slot, off, normalize_editor_time, slot_at, default_editor_interval,
}
use optolink.Schedule.Editor.State.{
  Side, start_side, end_side, EditorState, dirty, Editor, EditorOp, with_start, with_end, update,
  is_set, is_on,
}
use optolink.Schedule.Editor.Actions.{
  timed, of_result, publish_editor_slots, publish_editor_status, put_slots, need_target, the_target,
  publish_draft, put_side, set_editor_slot, fill_slot, set_editor_enabled, clear_editor,
}
use optolink.Schedule.Editor.Gaps.{IsFit}
use optolink.Schedule.Editor.Free.{default_editor_interval-IsFree}
use optolink.Schedule.Editor.Slots.{
  AreFit, slots_of-AreFit, with_start-IsFit, with_end-IsFit, update-AreFit,
}

timed-OnOk : (P : Time → Type 0) (r : Result ScheduleError Time) → OnOk P r → OnOk P (timed r)
timed-OnOk P (ok t) h = h
timed-OnOk P (err e) h = tt

-- The session keeps what `J` says, and the slots stay fit.
module _ {W : Type 0} (J : Session W → Type 0) where
  abbrev pub Fits : Editor W → Type 0
  Fits s = AreFit s.slots × J s.session

  abbrev pub Keeps : {A : Type 0} → EditorOp W A → Type 0
  Keeps m = Does Fits m (λ _. Fits) (λ _. Fits)

  pub bind-Keeps :
      {A B : Type 0} (m : EditorOp W B) (k : B → EditorOp W A)
      → Keeps m
      → ((b : B) → Keeps (k b))
      → Keeps (m >>= k)
  bind-Keeps m k hm hk = Does-bind (λ _. Fits) m k hm hk

  -- a result with a property of its value, before what relies on it
  pub result-Keeps :
      {A B : Type 0} (P : B → Type 0) (r : Result EditorError B) (k : B → EditorOp W A)
      → OnOk P r
      → ((b : B) → P b → Keeps (k b))
      → Keeps (of_result r >>= k)
  unfolding of_result ◌>>=◌
  result-Keeps P (ok b) k h hk = record { at = λ s i. (hk b h).at s i }
  result-Keeps P (err e) k h hk = record { at = λ s i. i }

  pub of_result-Keeps : {A : Type 0} (r : Result EditorError A) → Keeps (of_result r)
  unfolding of_result
  of_result-Keeps (ok a) = record { at = λ s i. i }
  of_result-Keeps (err e) = record { at = λ s i. i }

  pub put_slots-Keeps :
      (f : List Slot → List Slot)
      → ((slots : List Slot) → AreFit slots → AreFit (f slots))
      → Keeps (put_slots f)
  put_slots-Keeps f h = Does-change _ λ s i. (h s.slots i.0, i.1)

  pub publish_editor_slots-Keeps : Keeps publish_editor_slots
  unfolding publish_editor_slots
  publish_editor_slots-Keeps = Does-change _ λ s i. i

  pub publish_editor_status-Keeps :
      (st : EditorState) (valid : Option Bool) → Keeps (publish_editor_status st valid)
  unfolding publish_editor_status
  publish_editor_status-Keeps st valid = Does-change _ λ s i. i

  need_target-Keeps : (t : Option (Program × ℕ)) → Keeps (need_target t)
  need_target-Keeps none = Does-raise _ λ s i. i
  need_target-Keeps (some t) = Does-give t λ s i. i

  pub the_target-Keeps : Keeps the_target
  the_target-Keeps =
      bind-Keeps (view (λ s. s.target)) need_target (Does-view _ (λ s i. i)) need_target-Keeps

  publish_draft-Keeps : Keeps publish_draft
  unfolding publish_draft
  publish_draft-Keeps =
      bind-Keeps publish_editor_slots _ publish_editor_slots-Keeps
        (λ _. publish_editor_status-Keeps dirty none)

  slot-Keeps :
      (n : ℕ) (f : Slot → Slot)
      → ((s : Slot) → IsFit s → IsFit (f s))
      → Keeps (put_slots (update n f))
  slot-Keeps n f h = put_slots-Keeps (update n f) (λ slots i. update-AreFit n 4 f slots h i)

  put_side-Keeps : (n : ℕ) (side : Side) (value : Text) → Keeps (put_side n side value)
  unfolding put_side
  put_side-Keeps n start_side value =
      let r = parse_time false (normalize_editor_time false value) in
      result-Keeps IsStart (timed r) _ (timed-OnOk IsStart r (parse_time-IsStart _))
        λ start h. slot-Keeps n (with_start start) λ s i. with_start-IsFit start s h i
  put_side-Keeps n end_side value =
      let r = parse_time true (normalize_editor_time true value) in
      result-Keeps IsEnd (timed r) _ (timed-OnOk IsEnd r (parse_time-IsEnd _))
        λ end h. slot-Keeps n (with_end end) λ s i. with_end-IsFit end s h i

  pub set_editor_slot-Keeps :
      (n : ℕ) (side : Side) (value : Text) → Keeps (set_editor_slot n side value)
  unfolding set_editor_slot
  set_editor_slot-Keeps n side value = bind-Keeps the_target _ the_target-Keeps λ _.
      bind-Keeps _ (λ _. publish_draft)
        (Does-if (same_text (strip value) (codes "Aus")) _ _
          (λ _. slot-Keeps n (λ _. off) (λ s i. tt)) (λ _. put_side-Keeps n side (strip value)))
        (λ _. publish_draft-Keeps)

  fill_slot-Keeps : (n : ℕ) (slots : List Slot) → AreFit slots → Keeps (fill_slot n slots)
  unfolding fill_slot
  fill_slot-Keeps n slots h =
      Does-if (is_set (slot_at n slots)) _ _ (λ _. Does-give tt (λ s i. i))
        λ _.
          result-Keeps _ (default_editor_interval slots n) _
            (default_editor_interval-IsFree slots n h.1)
            λ w k. slot-Keeps n (λ _. (some w.0, some w.1)) λ s i. (k.0, k.1, shorter _ _ k.2)
    where
      shorter : (a b : ℕ) → a + 10 ≤ b → a ≤ b
      shorter a b h = omega (arith, h)

  pub set_editor_enabled-Keeps : (n : ℕ) (payload : Text) → Keeps (set_editor_enabled n payload)
  unfolding set_editor_enabled
  set_editor_enabled-Keeps n payload = bind-Keeps the_target _ the_target-Keeps λ _.
      bind-Keeps _ (λ _. publish_draft)
        (Does-if (is_on (lower (strip payload))) _ _
          (λ _.
            Does-bind (λ slots s. Fits s × AreFit slots) (view (λ s. s.slots)) (fill_slot n)
              (Does-view _ (λ s i. (i, i.0)))
              (λ slots. Does-fact (fill_slot n slots) (fill_slot-Keeps n slots)))
          (λ _. slot-Keeps n (λ _. off) (λ s i. tt)))
        (λ _. publish_draft-Keeps)

  pub clear_editor-Keeps : Keeps clear_editor
  unfolding clear_editor
  clear_editor-Keeps = bind-Keeps the_target _ the_target-Keeps λ _.
      bind-Keeps _ _ (put_slots-Keeps _ (λ slots i. slots_of-AreFit 4 [] tt)) λ _.
        bind-Keeps _ _ publish_editor_slots-Keeps λ _. publish_editor_status-Keeps dirty (some true)
