-- ===== src/Maintenance/Device.antt =====
-- `MqttSession` and `request`: one command to the splitter and the answer to it, found by its address
-- on a topic that other helpers share.
use optolink.Base.{
  ℕ, zero, suc, ◌-◌, Bool, not, Option, none, some, List, [], ◌∷◌, ◌++◌, if◌then◌else◌, length,
}
use optolink.Base.Result.{Result, ok, err}
use optolink.Text.{Text, ℤ}
use optolink.Maintenance.Commands.{Failure, no_transport, splitter_timeout, command_addr, is_answer}

-- The MQTT client, the splitter, the controller and the clock, with states `W`. `publish` is the
-- publication and the wait for it, false when that raises. `looks` says how often the clock is found
-- before the deadline, `look` what arrives up to the next look, `pause` is the `time.sleep(settle)`.
pub record Broker (W : Type 0) : Type 0 where
  pub publish : Text → W → Bool × W
  pub looks : W → ℕ
  pub look : W → List Text × W
  pub pause : W → W

-- `sent` keeps the commands that were published, the latest first.
pub record Session (W : Type 0) : Type 0 where
  pub world : W
  pub responses : List Text
  pub sent : List Text

-- a method on the session that may raise
abbrev pub Op : Type 0 → Type 0 → Type 0 → Type 0
Op E W A = Session W → Result E A × Session W

module _ {E W A : Type 0} where
  unfoldable pub give : A → Op E W A
  give a s = (ok a, s)

  unfoldable pub raise : E → Op E W A
  raise e s = (err e, s)

  -- a step that cannot raise, before another
  unfoldable pub first_do : (Session W → Session W) → Op E W A → Op E W A
  first_do f m s = m (f s)

  -- `try`, with what comes after either outcome
  unfoldable pub attempt : {F B : Type 0} → Op F W B → (Result F B → Op E W A) → Op E W A
  attempt m k s = k (m s).0 (m s).1

  -- the errors of one kind among those of another
  unfoldable pub lift : {F : Type 0} → (F → E) → Op F W A → Op E W A
  lift f m s = elim (m s).0 [ err e ↦ (err (f e), (m s).1) | ok a ↦ (ok a, (m s).1) ]

  infixl 5 ◌>>=◌
  unfoldable pub ◌>>=◌ : {B : Type 0} → Op E W B → (B → Op E W A) → Op E W A
  (m >>= k) s = elim (m s).0 [ err e ↦ (err e, (m s).1) | ok b ↦ k b (m s).1 ]

abbrev pub drop : ℕ → List Text → List Text
drop zero rs = rs
drop (suc n) [] = []
drop (suc n) (_ ∷ rs) = drop n rs

-- `on_message`: at most a hundred responses are kept, the latest
abbrev pub deliver : List Text → List Text → List Text
deliver rs [] = rs
deliver rs (m ∷ ms) = let all = rs ++ m ∷ [] in deliver (drop (length all - 100) all) ms

-- The inner loop of `request`: responses are taken from the front up to the answer.
unfoldable pub pick : Option ℤ → List Text → Option Text × List Text
pick a [] = (none, [])
pick a (m ∷ ms) = let rest = pick a ms in if is_answer a m then (some m, ms) else rest

module _ {W : Type 0} (broker : Broker W) where
  -- what arrives up to the next look
  abbrev pub receive : Session W → Session W
  receive s = record s {
    world = (broker.look s.world).1;
    responses = deliver s.responses (broker.look s.world).0;
  }

  -- The outer loop of `request`: as many turns as the clock is found before the deadline.
  unfoldable pub await : ℕ → Text → Op Failure W Text
  unfolding pick
  await zero command s = (err (splitter_timeout command), s)
  await (suc n) command s =
      let found = pick (command_addr command) (receive s).responses in
      let left = record (receive s) { responses = found.1 } in
      let later = await n command left in
      elim found.0 [ none ↦ later | some answer ↦ (ok answer, left) ]

  -- what `request` does before it waits: old responses are dropped, the command is published
  abbrev pub post : Text → Session W → Session W
  post command s = record s {
    world = (broker.publish command s.world).1;
    responses = [];
    sent = command ∷ s.sent;
  }

  -- `request`
  unfoldable pub request : Text → Op Failure W Text
  unfolding await
  request command s =
      let p = post command s in
      if not (broker.publish command s.world).0
      then (err no_transport, p)
      else await (broker.looks p.world) command p

  -- `time.sleep(settle)`
  abbrev pub sleep : Session W → Session W
  sleep s = record s { world = broker.pause s.world }
