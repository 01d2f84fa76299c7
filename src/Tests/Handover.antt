-- ===== src/Tests/Handover.antt =====
-- The coordinator (tools/handover_acceleration/coordinator.py) on a bench with a controller that
-- answers both protocols.
use optolink.Base.{
  ℕ, zero, suc, ◌+◌, ◌≤◌, ◌≡◌, ◌≢◌, ◌↔◌, refl, Bool, true, false, Option, some, List, [], ◌∷◌, ◌++◌,
  arith, if◌then◌else◌, length, All,
}
use optolink.Base.Result.{ok, err, OnOk}
use optolink.Base.Effect.{give, raise, ◌>>=◌, view, change, on_raise, demand, check}
use optolink.Handover.{
  Bytes, same_bytes, is_one_of, device_id, software, eot, stx, start, vs1_id, vs1_software, p80,
  p09, gfa, gfa_values, p300_id, p300_software, ram_0f20_32, p300_ram_reads, Mode, WirePhase,
  protocol, stuck,
}
use optolink.Handover.Wire.{
  Port, Wire, new_wire, clock, nap, event, put, get, tx, receive, exact_turns, exact_until, exact,
  gap, silence, quiet_turns, quiet,
}
use optolink.Handover.Vs1.{vs1_read}
use optolink.Handover.Owner.{Owner, new_owner}
use optolink.Handover.Owner.Switches.{to_p300, p300_window, p300_identity}
use optolink.Handover.Window.{p300_window_returns}
use optolink.Handover.Calls.{
  entering, exiting, starting, identity, snapshot, ram, Call, plain, window, call, run,
}
use optolink.Handover.Calls
use optolink.Handover.Calls.Laws.{run-Allowed, run-Fits, call_ends}
use optolink.Handover.Guarded.{Allowed, Moves}
use optolink.Handover.Sound.{Rests, Fits}
use optolink.Handover.Spec.{Reach, recoveries, entries}
use optolink.Handover.Spec.Calls.{view_of, run-Refines}
use optolink.Handover.P300.Frames.{telegram, accepts, IsTelegram, accepts_iff}

pub record Bench : Type 0 where
  pub now : ℕ
  pub inbox : Bytes
  pub asking : Bool

abbrev pub zeros : ℕ → Bytes
zeros zero = []
zeros (suc n) = 0 ∷ zeros n

abbrev pub framed : ℕ → ℕ → Bytes → Bytes
framed fc addr bytes = 0x06 ∷ 0x41 ∷ (5 + length bytes) ∷ telegram fc addr bytes

abbrev pub reply : Bytes → Bytes
reply m =
    if is_one_of m ((stx ++ vs1_id) ∷ vs1_id ∷ [])
    then device_id
    else if same_bytes m vs1_software
    then software
    else if same_bytes m (gfa p80)
    then 0x20 ∷ []
    else if is_one_of m gfa_values
    then 0x31 ∷ []
    else if same_bytes m start
    then 0x06 ∷ []
    else if same_bytes m p300_id
    then framed 1 0x00f8 device_id
    else if same_bytes m p300_software
    then framed 1 0x778c software
    else if same_bytes m (p300_ram_reads ram_0f20_32).request
    then framed 3 0x0f20 (zeros 32)
    else []

abbrev pub taken : ℕ → Bytes → Bytes × Bytes
taken zero bs = ([], bs)
taken (suc n) [] = ([], [])
taken (suc n) (b ∷ bs) = let r = taken n bs in (b ∷ r.0, r.1)

abbrev pub written : Bytes → Bench → Option ℕ × Bench
written m w = (
  some (length m),
  if same_bytes m eot
      then record w { inbox = []; asking = true }
      else record w { inbox = w.inbox ++ reply m; asking = false },
)

-- while it is not addressed the controller sends ENQ
abbrev pub read_out : ℕ → Bench → Option Bytes × Bench
read_out n w = elim w.inbox [
  | [] ↦ (some (if w.asking then 0x05 ∷ [] else []), w)
  | b ∷ bs ↦ (let r = taken n (b ∷ bs) in (some r.0, record w { inbox = r.1 }))
]

abbrev pub bench : Port Bench
bench = record {
  time = λ w. w.now;
  tick = λ w. w;
  sleep = λ d w. record w { now = w.now + d };
  write = written;
  read = read_out;
  reset = λ w. (true, record w { inbox = [] });
  open_port = λ w. (true, w);
  close = λ w. (true, w);
  lock = λ w. (true, w);
  unlock = λ w. w;
}

abbrev pub idle : Wire Bench
idle = new_wire bench (record { now = 0; inbox = []; asking = true }) []

abbrev pub owner : Bool → Owner Bench
owner borrowed = new_owner borrowed idle

abbrev visit : List Call
visit =
    plain entering
    ∷ plain (Calls.gfa (some p09))
    ∷ window (identity ∷ ram (some ram_0f20_32) ∷ [])
    ∷ plain (snapshot 750000)
    ∷ []

-- `to_p300` before `enter` is refused and sends nothing.
start_refused :
    let r = call bench (plain starting) (owner false) in (r.0 ≡ err protocol) × (r.1.wire.sent ≡ [])
unfolding to_p300 ◌>>=◌ check
start_refused = (refl, refl)

abbrev at_vs1 : Wire Bench
at_vs1 = record idle { phase = WirePhase.vs1_verified }

-- A read of a verified session takes the byte of the controller; a write is not sent at all.
read_p09 : (vs1_read bench (gfa p09) 1 at_vs1).0 ≡ ok (0x31 ∷ [])
unfolding vs1_read gap tx exact quiet clock nap event put get receive exact_turns exact_until
    silence quiet_turns ◌>>=◌ view demand change on_raise give raise
read_p09 = refl

write_refused :
    let r = tx bench (0xf4 ∷ 0x23 ∷ 0x23 ∷ 0x01 ∷ 0x02 ∷ []) at_vs1 in
    (r.0 ≡ err protocol) × (r.1.sent ≡ [])
unfolding tx ◌>>=◌ view demand
write_refused = (refl, refl)

moving : Moves bench
moving = record {
  tick_on = λ w. omega arith;
  read_on = λ n w. unread n w w.inbox;
  sleep_on = λ d w. omega arith;
}
  where
    unread :
        (n : ℕ) (w : Bench) (bs : Bytes)
        → w.now
          ≤ (elim bs as (λ _. Option Bytes × Bench) [
            | [] ↦ (some (if w.asking then 0x05 ∷ [] else []), w)
            | b ∷ bs ↦ (let r = taken n (b ∷ bs) in (some r.0, record w { inbox = r.1 }))
          ]).1.now
    unread n w [] = omega arith
    unread n w (b ∷ bs) = omega arith

run-Allowed_example : All Allowed (run bench visit (owner false)).wire.sent
run-Allowed_example = run-Allowed bench false idle refl visit

run-Fits_example :
    let s = run bench visit (owner false) in
    Rests s.mode × (s.has_wire ≡ true → Fits s.mode s.wire.phase s.wire.handshake_gfa)
run-Fits_example = run-Fits bench false idle refl visit

call_ends_example : (call bench (plain exiting) (run bench visit (owner false))).0 ≢ err stuck
call_ends_example = call_ends bench false idle refl moving visit (plain exiting)

run-Refines_example :
    (r : Reach (view_of (owner true)) (view_of (run bench visit (owner true)))) × (recoveries r
      ≤ entries r + 1)
run-Refines_example = run-Refines bench visit (owner true)

abbrev entered : Owner Bench
entered = (call bench (plain entering) (owner false)).1

p300_window_returns_example :
    let r = p300_window bench (p300_identity bench) entered in
    OnOk (λ _. r.1.mode ≡ Mode.vs1_verified) r.0
p300_window_returns_example = p300_window_returns bench (p300_identity bench) entered

accepts_iff_example :
    (accepts 1 0x00f8 2 (0x01 ∷ 0x01 ∷ 0x00 ∷ 0xf8 ∷ 0x02 ∷ 0x20 ∷ 0xc2 ∷ 0xe5 ∷ []) ≡ true)
    ↔ IsTelegram 1 0x00f8 2 (0x01 ∷ 0x01 ∷ 0x00 ∷ 0xf8 ∷ 0x02 ∷ 0x20 ∷ 0xc2 ∷ 0xe5 ∷ [])
accepts_iff_example =
    accepts_iff 1 0x00f8 2 (0x01 ∷ 0x01 ∷ 0x00 ∷ 0xf8 ∷ 0x02 ∷ 0x20 ∷ 0xc2 ∷ 0xe5 ∷ [])
      (omega arith) (omega arith)
