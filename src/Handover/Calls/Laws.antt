-- ===== src/Handover/Calls/Laws.antt =====
-- What holds of a coordinator (tools/handover_acceleration/coordinator.py) after any calls.
use optolink.Base.{◌≡◌, ◌≢◌, sym, Bool, true, List, [], ◌∷◌, All}
use mathlib.Core.Path.{subst}
use optolink.Base.Effect.{give, ◌>>=◌, Outcome}
use optolink.Base.Effect.Triples.{Does-bind, Does-give}
use optolink.Base.Result.{Result, ok, err}
use optolink.Handover.{Raised, stuck}
use optolink.Handover.Wire.{Port, Wire}
use optolink.Handover.Owner.{Owner, OwnerOp, new_owner}
use optolink.Handover.Calls.{
  Method, entering, exiting, starting, starting_early, returning, returning_early, restoring,
  identity, snapshot, gfa, ram, Call, plain, window, method, callback, call, run,
}
use optolink.Handover.Guarded.{Allowed, Moves, Watch, any_raise, no_loop}
use optolink.Handover.Sound.{Rests, Fits, IsSound, Raises, Keeps}
use optolink.Handover.Sound.Sessions.{enter-Keeps}
use optolink.Handover.Sound.Switches.{
  exit-Keeps, to_p300-Keeps, early_start_experiment-Keeps, to_vs1_fast-Keeps, early_identity-Keeps,
  restore_vs1-Keeps,
}
use optolink.Handover.Sound.Reads.{
  verified_gfa_snapshot-Keeps, gfa_read-Keeps, p300_identity-Keeps, p300_ram_read-Keeps,
  p300_window-Keeps,
}

module _ {W : Type 0} (watch : Watch W) where
  open watch use {port, Fine}

  dropped : {A : Type 0} (m : OwnerOp W A) → Keeps watch m → Keeps watch (m >>= λ _. give tt)
  dropped m h = Does-bind (λ _. IsSound) _ _ h (λ _. Does-give tt (λ s i. i))

  method-Keeps : (m : Method) → Keeps watch (method port m)
  method-Keeps entering = enter-Keeps watch
  method-Keeps exiting = exit-Keeps watch
  method-Keeps starting = to_p300-Keeps watch
  method-Keeps starting_early = early_start_experiment-Keeps watch
  method-Keeps returning = to_vs1_fast-Keeps watch
  method-Keeps returning_early = early_identity-Keeps watch
  method-Keeps restoring = restore_vs1-Keeps watch
  method-Keeps identity = dropped _ (p300_identity-Keeps watch)
  method-Keeps (snapshot age) = dropped _ (verified_gfa_snapshot-Keeps watch age)
  method-Keeps (gfa name) = dropped _ (gfa_read-Keeps watch name)
  method-Keeps (ram name) = dropped _ (p300_ram_read-Keeps watch name)

  callback-Keeps : (ms : List Method) → Keeps watch (callback port ms)
  callback-Keeps [] = Does-give tt (λ s i. i)
  callback-Keeps (m ∷ ms) = Does-bind (λ _. IsSound) _ _ (method-Keeps m) (λ _. callback-Keeps ms)

  call-Keeps : (c : Call) → Keeps watch (call port c)
  call-Keeps (plain m) = method-Keeps m
  call-Keeps (window ms) = p300_window-Keeps watch (callback port ms) (callback-Keeps ms)

  sound_after :
      (r : Result Raised (Unit {0})) (t : Owner W)
      → Outcome (λ _. IsSound) (Raises watch) r t
      → IsSound t
  sound_after (ok a) t o = o
  sound_after (err e) t o = o.0

  pub run-IsSound : (cs : List Call) (s : Owner W) → IsSound s → IsSound (run port cs s)
  unfolding run
  run-IsSound [] s i = i
  run-IsSound (c ∷ cs) s i =
      run-IsSound cs (call port c s).1 (sound_after (call port c s).0 _ ((call-Keeps c).at s i))

module _ {W : Type 0} (port : Port W) (borrowed : Bool) (wire : Wire W) (new : wire.sent ≡ []) where
  started : IsSound (new_owner borrowed wire)
  started = (subst (All Allowed) (sym new) tt, tt, λ h. absurd (cc))

  -- Whatever methods and windows are called in whatever order, each message that was given to the
  -- port is one of the fixed read-only messages, and one that the phase of the wire at that time
  -- lets through: nothing but VS1 reads in a verified VS1 session, nothing but the identity and the
  -- two blocks in a verified P300 session, nothing on a closed wire. This holds whatever the port
  -- answers or raises.
  pub run-Allowed : (cs : List Call) → All Allowed (run port cs (new_owner borrowed wire)).wire.sent
  run-Allowed cs = (run-IsSound (any_raise port) cs _ started).0

  -- After any calls the mode is none of the transitional ones, and it tells the truth about an open
  -- wire: a verified VS1 mode has the verified VS1 phase and the samples of its own handshake, with
  -- `P80` read as 20 and `P06` as no FF; a verified P300 mode has the verified P300 phase and no VS1
  -- sample; a failed mode has a closed wire and no sample; a detached coordinator has no wire.
  pub run-Fits :
      (cs : List Call)
      → let s = run port cs (new_owner borrowed wire) in
        Rests s.mode × (s.has_wire ≡ true → Fits s.mode s.wire.phase s.wire.handshake_gfa)
  run-Fits cs =
      let i = run-IsSound (any_raise port) cs (new_owner borrowed wire) started in (i.1, i.2)

  -- Where the clock does not go back and a sleep lasts as long as asked, every loop of every call
  -- ends by its deadline, its count or what it waits for, whatever the port delivers and however it
  -- is cut into pieces: no call after any calls runs out of turns.
  pub call_ends :
      Moves port
      → (cs : List Call) (c : Call)
      → (call port c (run port cs (new_owner borrowed wire))).0 ≢ err stuck
  call_ends moves cs c =
      not_stuck _ _
        ((call-Keeps (no_loop port moves) c).at _ (run-IsSound (any_raise port) cs _ started))
    where
      not_stuck :
          (r : Result Raised (Unit {0})) (t : Owner W)
          → Outcome (λ _. IsSound) (Raises (no_loop port moves)) r t
          → r ≢ err stuck
      not_stuck (ok a) t o h = absurd cc
      not_stuck (err e) t o h = o.1 (cc)
