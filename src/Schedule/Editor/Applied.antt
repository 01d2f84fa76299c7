-- ===== src/Schedule/Editor/Applied.antt =====
-- `apply_editor` of tools/optolink-schedule-manager.py, from the draft to what is shown after it.
use optolink.Base.{
  ℕ, ◌≡◌, refl, sym, ap, ◌∙◌, ◌⊎◌, inl, inr, Bool, true, false, if◌then◌else◌, Option, none, some,
  List,
}
use optolink.Base.Effect.{◌>>=◌, except, view, ◌>>◌}
use optolink.Base.Effect.Triples.{
  Does, Does-either, Does-from, Does-except, Does-give, Does-raise, Does-view, Does-bind, Does-if,
  Does-any, Does-fact, Does-weaken,
}
use optolink.Base.Result.{ok}
use optolink.Text.{Text}
use optolink.Maintenance.Device.{Broker, Session}
use optolink.Schedule.Times.{Window}
use optolink.Schedule.Blocks.{encode_schedule}
use optolink.Schedule.Manager.{Program, block_address}
use optolink.Schedule.Rechecked.{Seen}
use optolink.Schedule.Confirmed.{apply-IsConfirmed}
use optolink.Schedule.Editor.{EditorError, Slot, editor_schedule_from_slots}
use optolink.Schedule.Editor.State.{apply_now, applying, confirmed, error, Editor}
use optolink.Schedule.Editor.Actions.{
  of_result, publish_editor_status, need_target, the_target, apply_day, load_editor, apply_editor,
  handle_editor_action, editor_action,
}
use optolink.Schedule.Editor.Reloaded.{Says, Shows, says, result_known, load_editor-Shows}

module _ {W : Type 0} (broker : Broker W) where
  -- The draft was encoded, a reading of the day's block gave the bytes of the encoded one, and the editor
  -- shows the windows of the block as it was read again after that.
  pub record Confirmed (aim : Option (Program × ℕ)) (draft : List Slot) (s : Editor W)
      : Type 0 where
    pub program : Program
    pub day : ℕ
    pub payload : Text
    pub target : List ℕ
    pub windows : List Window
    pub aimed : aim ≡ some (program, day)
    pub drafted : editor_schedule_from_slots draft ≡ ok payload
    pub encoded : encode_schedule payload ≡ ok (target, windows)
    pub shows :
        let address = block_address program day in
        Shows broker address (Seen broker address target) s.session s.slots
    pub says : Says confirmed s

  -- the block was read as the encoded payload
  record Written (program : Program) (day : ℕ) (payload : Text) (s : Session W) : Type 0 where
    pub target : List ℕ
    pub windows : List Window
    pub encoded : encode_schedule payload ≡ ok (target, windows)
    pub seen : Seen broker (block_address program day) target s

  writes :
      (P : Editor W → Type 0) (program : Program) (day : ℕ) (payload : Text)
      → Does P
          (apply_day broker program day payload)
          (λ done s. done ≡ true → Written program day payload s.session)
          (λ _ _. Unit {0})
  unfolding apply_day
  writes P program day payload = record {
    at = λ s i d.
        let (target, windows, encoded, seen, _) =
          (apply-IsConfirmed broker program day payload s.session).1 d in
        record { target = target; windows = windows; encoded = encoded; seen = seen };
  }

  module _ (aim : Option (Program × ℕ)) (draft : List Slot) where
    Done : Editor W → Type 0
    Done s = Says error s ⊎ Confirmed aim draft s

    reloads :
        (program : Program) (day : ℕ) (payload : Text)
        → aim ≡ some (program, day)
        → editor_schedule_from_slots draft ≡ ok payload
        → Does
            (λ s. Written program day payload s.session)
            (load_editor broker program day confirmed)
            (λ _. Confirmed aim draft)
            (λ _ _. Unit {0})
    reloads program day payload aimed drafted = record {
      at = λ s i.
          let address = block_address program day in
          (Does-weaken
              (λ _ t.
                Shows broker address (Seen broker address i.target) t.session t.slots
                × Says confirmed t)
              (λ _ _. Unit {0}) _
              (load_editor-Shows broker program day confirmed (Seen broker address i.target))
              (λ _ t j. record {
                program = program;
                day = day;
                payload = payload;
                target = i.target;
                windows = i.windows;
                aimed = aimed;
                drafted = drafted;
                encoded = i.encoded;
                shows = j.0;
                says = j.1;
              })
              (λ _ _ j. j)).at
            s i.seen;
    }

    -- a status of an error
    fails :
        {P : Editor W → Type 0} {X : EditorError → Editor W → Type 0} (valid : Option Bool)
        → Does P (publish_editor_status error valid) (λ _. Done) X
    unfolding Done
    fails {X = X} valid =
        Does-weaken (λ _ s. Unit {0} × Says error s) X _
          (Does-from (λ _. Unit {0}) _ (λ s i. tt) (says (λ _. Unit {0}) error valid (λ s x i. i)))
          (λ _ s i. inl i.1) (λ _ s i. i)

    Start : Editor W → Type 0
    Start s = (s.target ≡ aim) × (s.slots ≡ draft)

    aims : Does Start the_target (λ t s. (s.slots ≡ draft) × (aim ≡ some t)) (λ _ _. Unit {0})
    unfolding Start
    aims =
        Does-bind (λ o s. (s.slots ≡ draft) × (o ≡ aim)) _ _ (Does-view _ (λ s i. (i.1, i.0)))
          needed
      where
        needed :
            (o : Option (Program × ℕ))
            → Does
                (λ s. (s.slots ≡ draft) × (o ≡ aim))
                (need_target {W = W} o)
                (λ t s. (s.slots ≡ draft) × (aim ≡ some t))
                (λ _ _. Unit {0})
        needed none = Does-raise _ (λ s i. tt)
        needed (some t) = Does-give t (λ s i. (i.0, sym i.1))

    drafts :
        Does
          (λ s. s.slots ≡ draft)
          (view (λ s. editor_schedule_from_slots s.slots) >>= of_result {W = W})
          (λ payload s. editor_schedule_from_slots draft ≡ ok payload)
          (λ _ _. Unit {0})
    drafts =
        Does-bind (λ r s. editor_schedule_from_slots draft ≡ r) _ _
          (Does-view _ (λ s i. sym (ap (λ d. editor_schedule_from_slots d) i)))
          λ r.
            Does-weaken (λ p s. (editor_schedule_from_slots draft ≡ r) × (r ≡ ok p))
              (λ _ _. Unit {0}) _ (result_known (λ s. editor_schedule_from_slots draft ≡ r) r)
              (λ p s i. i.0 ∙ i.1) (λ e s i. i)

    apply_editor-Done : Does Start (apply_editor broker) (λ _. Done) (λ _ _. Unit {0})
    unfolding apply_editor Done Start
    apply_editor-Done =
        Does-bind (λ t s. (s.slots ≡ draft) × (aim ≡ some t)) _ _ aims
          λ t. Does-fact _ λ aimed.
            Does-bind (λ payload s. editor_schedule_from_slots draft ≡ ok payload) _ _ drafts
              λ payload. record { at = λ s drafted. (sends t.0 t.1 payload aimed drafted).at s tt }
      where
        sends :
            (program : Program) (day : ℕ) (payload : Text)
            → aim ≡ some (program, day)
            → editor_schedule_from_slots draft ≡ ok payload
            → Does
                (λ _. Unit {0})
                (publish_editor_status applying (some true)
                  >> (apply_day broker program day payload >>= λ done.
                      if done
                      then load_editor broker program day confirmed
                      else publish_editor_status error (some true)))
                (λ _. Done)
                (λ _ _. Unit {0})
        sends program day payload aimed drafted =
            Does-bind (λ _ _. Unit {0}) _ _ (Does-any _)
              λ _.
                Does-bind (λ done s. done ≡ true → Written program day payload s.session) _ _
                  (writes (λ _. Unit {0}) program day payload)
                  λ done.
                    Does-if done _ _
                      (λ d.
                        Does-from (λ s. Written program day payload s.session) _ (λ s i. i d)
                          (Does-weaken (λ _. Confirmed aim draft) (λ _ _. Unit {0}) _
                            (reloads program day payload aimed drafted) (λ _ s i. inr i)
                            (λ e s i. i)))
                      (λ _. fails (some true))

-- Whatever the draft, the controller and the broker do, `apply_editor` called by `handle_editor_action`
-- leaves either a status of an error as the last one published, or the status `confirmed`; and then the
-- draft's payload was encoded, the day's block was read as the encoded bytes, and the slots that the
-- editor shows after it are the windows of the block as it was read once more.
pub handle_editor_action-IsConfirmed :
    {W : Type 0} (broker : Broker W) (s : Editor W)
    → let t = (handle_editor_action broker apply_now s).1 in
      Says error t ⊎ Confirmed broker s.target s.slots t
unfolding handle_editor_action editor_action Done Start
handle_editor_action-IsConfirmed broker s =
    let m = except (apply_editor broker) (λ e. publish_editor_status error (some false)) in
    let handled : Does (Start broker s.target s.slots) m (λ _. Done broker s.target s.slots)
        (λ _. Done broker s.target s.slots) =
      Does-except (λ _ _. Unit {0}) _ _ (apply_editor-Done broker s.target s.slots)
        (λ e. fails broker s.target s.slots (some false)) in
    Does-either (Done broker s.target s.slots) m s (refl, refl) handled
