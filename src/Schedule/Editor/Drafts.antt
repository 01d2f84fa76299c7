-- ===== src/Schedule/Editor/Drafts.antt =====
-- What the editor's actions send to the splitter.
use optolink.Base.{
  ℕ, zero, suc, ◌≡◌, refl, ap, ◌∙◌, inl, not, Option, none, some, List, [], ◌∷◌, ◌++◌, All, if_elim,
}
use optolink.Base.Result.{Result, ok, err}
use optolink.Text.{Text}
use optolink.Maintenance.Device
use optolink.Maintenance.Device.{Broker, Session}
use optolink.Schedule.Manager.{
  Program, block_address, LinkError, timed_out, search_answer, block_response, read_block_command,
  listen_once, listen, put_out, ask, read_block,
}
use optolink.Schedule.Editor.State.{Action, Editor}
use optolink.Schedule.Editor.Slots.{AreFit}
use optolink.Schedule.Editor.Walk.{AreDrafts, run-Fits}
use optolink.Schedule.Editor.Actions.{run}

module _ {W : Type 0} (broker : Broker W) where
  listen-sent : (n address : ℕ) (s : Session W) → (listen broker n address s).1.sent ≡ s.sent
  unfolding listen
  listen-sent zero address s = found (search_answer address (listen_once broker s).responses)
    where
      found :
          (o : Option Text)
          → let h = listen_once broker s in
            (elim o as (λ _. Result LinkError Text × Session W) [
              | none ↦ (err timed_out, h)
              | some r ↦ (ok r, h)
            ]).1.sent
            ≡ s.sent
      found none = refl
      found (some r) = refl
  listen-sent (suc n) address s =
      found (listen-sent n address (listen_once broker s))
        (search_answer address (listen_once broker s).responses)
    where
      found :
          (listen broker n address (listen_once broker s)).1.sent ≡ s.sent
          → (o : Option Text)
          → let h = listen_once broker s in
            (elim o as (λ _. Result LinkError Text × Session W) [
              | none ↦ listen broker n address h
              | some r ↦ (ok r, h)
            ]).1.sent
            ≡ s.sent
      found later none = later
      found later (some r) = refl

  ask-sent : (c : Text) (address : ℕ) (s : Session W) → (ask broker c address s).1.sent ≡ c ∷ s.sent
  unfolding ask
  ask-sent c address s =
      if_elim (λ (r : Result LinkError Text × Session W). r.1.sent ≡ c ∷ s.sent)
        (not (broker.publish c s.world).0) (λ _. refl)
        (λ _. listen-sent _ address (put_out broker c s))

  -- one command is published, that of the read
  read_block-sent :
      (address : ℕ) (s : Session W)
      → (read_block broker address s).1.sent ≡ read_block_command address ∷ s.sent
  unfolding read_block Device.◌>>=◌
  read_block-sent address s =
      found (ask broker (read_block_command address) address s).0 _
        (ask-sent (read_block_command address) address s)
    where
      found :
          (r : Result LinkError Text) (t : Session W)
          → t.sent ≡ read_block_command address ∷ s.sent
          → (elim r as (λ _. Result LinkError (List ℕ) × Session W) [
            | err e ↦ (err e, t)
            | ok response ↦ (block_response response, t)
          ]).1.sent
            ≡ read_block_command address ∷ s.sent
      found (ok r) t e = e
      found (err x) t e = e

-- the command that reads a day
abbrev pub IsDayRead : Text → Type 0
IsDayRead c = (program : Program) × (day : ℕ) × (c ≡ read_block_command (block_address program day))

-- what has been published since is reads of days
pub record OnlyReads {W : Type 0} (before : List Text) (s : Session W) : Type 0 where
  pub reads : List Text
  pub all_reads : All IsDayRead reads
  pub sent : s.sent ≡ reads ++ before

-- Drafting leaves the controller alone. Whatever actions of the editor are handled, other than the one
-- that applies the draft, what they publish to the splitter is reads of days, whatever it answers; and
-- the draft stays fit.
pub run-OnlyReads :
    {W : Type 0} (broker : Broker W) (actions : List Action) (s : Editor W)
    → AreDrafts actions
    → AreFit s.slots
    → OnlyReads s.session.sent (run broker actions s).session × AreFit (run broker actions s).slots
run-OnlyReads broker actions s drafts fit =
    let h =
      run-Fits broker (OnlyReads s.session.sent) read actions s (inl drafts)
        (fit, record { reads = []; all_reads = tt; sent = refl }) in
    (h.1, h.0)
  where
    read :
        (program : Program) (day : ℕ) (t : Session _)
        → OnlyReads s.session.sent t
        → OnlyReads s.session.sent (read_block broker (block_address program day) t).1
    read program day t j = record {
      reads = read_block_command (block_address program day) ∷ j.reads;
      all_reads = ((program, day, refl), j.all_reads);
      sent =
          read_block-sent broker (block_address program day) t
          ∙ ap (λ cs. read_block_command (block_address program day) ∷ cs) j.sent;
    }
