-- ===== src/Tests/Readbacks.antt =====
-- pending_refresh.py on two readbacks, one of which never begins.
use optolink.Base.{ℕ, ◌+◌, arith, ◌≡◌, ◌≤◌, ◌⊎◌, refl, none, some, List, [], ◌∷◌, true, false}
use optolink.Base.Result.{ok, err}
use optolink.Readbacks.{
  Call, call_register, call_consume, call_complete, call_cancel, ticketed, legacy, run, step,
  register, consume, complete_forced, cancel_not_scheduled, require_idle, at_start, not_idle, Item,
  new_ledger,
}
use optolink.Readbacks.Lossless.{Occurs}
use optolink.Readbacks.Settled.{require_idle-Settled}
use optolink.Readbacks.Barred.{failed_read_bars}
use optolink.Readbacks.Install
use optolink.Readbacks.Install.{
  install_before_mqtt_connect, connected, installed, Event, forces, wakes, polls, completes,
  happens, tracked_force_delayed, worker, tracked_is_forced,
}
use optolink.Readbacks.Queued.{TakesOne, times, require_idle-NothingSleeps}

abbrev calls : List Call
calls =
    call_register (some 7)
    ∷ call_register (some 9)
    ∷ call_cancel 2
    ∷ call_consume (legacy none)
    ∷ call_consume (ticketed 1 7)
    ∷ call_complete true
    ∷ []

idle_runs : require_idle (run calls at_start).ledger ≡ ok tt
unfolding run step register consume complete_forced cancel_not_scheduled require_idle
idle_runs = refl

require_idle-Settled_example :
    ((t : ℕ)
      → 1 ≤ t
      → t ≤ (run calls at_start).ledger.seen
      → Occurs t (run calls at_start).retired ⊎ Occurs t (run calls at_start).cancelled)
    × ((run calls at_start).ledger.inflight ≡ none)
    × ((run calls at_start).ledger.failed_closed ≡ false)
require_idle-Settled_example = require_idle-Settled calls idle_runs

abbrev in_flight : List Call
in_flight = call_register (some 7) ∷ call_consume (ticketed 1 7) ∷ []

flight_runs : (run in_flight at_start).ledger.inflight ≡ some 1
unfolding run step register consume
flight_runs = refl

failed_read_bars_example :
    require_idle (run calls (step (call_complete false) (run in_flight at_start))).ledger
    ≡ err not_idle
failed_read_bars_example = failed_read_bars (run in_flight at_start) 1 calls flight_runs

-- an upstream `is_forced` that takes the oldest entry, or makes a naked one
abbrev pop : List Item → Item × List Item
pop [] = (legacy none, [])
pop (i ∷ is) = (i, is)

pop-TakesOne : TakesOne pop
pop-TakesOne [] t = omega arith
pop-TakesOne (i ∷ is) t = omega arith

abbrev naked : List Item
naked = legacy (some 3) ∷ []

abbrev events : List Event
events =
    forces (some 7) (some 1000000) true
    ∷ forces (some 9) (some 0) false
    ∷ polls
    ∷ wakes 0
    ∷ polls
    ∷ completes true
    ∷ []

install_runs :
    (install_before_mqtt_connect (record {
      has_ledger = false;
      has_client = false;
      queue_is_list = true;
      can_force = true;
      can_delay = true;
    })
      ≡ ok new_ledger)
    × (install_before_mqtt_connect (record {
      has_ledger = false;
      has_client = true;
      queue_is_list = true;
      can_force = true;
      can_delay = true;
    })
        ≡ err connected)
unfolding install_before_mqtt_connect
install_runs = (refl, refl)

events_idle : require_idle (Install.run pop events (installed new_ledger naked)).ledger ≡ ok tt
unfolding Install.run happens tracked_force_delayed worker tracked_is_forced register consume
    complete_forced cancel_not_scheduled require_idle
events_idle = refl

-- while the timer sleeps, the empty queue does not count as idle
sleeping_bars :
    require_idle
      (Install.run pop (forces (some 7) (some 1000000) true ∷ []) (installed new_ledger [])).ledger
    ≡ err not_idle
unfolding Install.run happens tracked_force_delayed register require_idle
sleeping_bars = refl

require_idle-NothingSleeps_example :
    ((t : ℕ)
      → times t (Install.run pop events (installed new_ledger naked)).sleeping
          + times t (Install.run pop events (installed new_ledger naked)).queue
        ≡ 0)
    × ((Install.run pop events (installed new_ledger naked)).ledger.inflight ≡ none)
require_idle-NothingSleeps_example =
    require_idle-NothingSleeps pop naked events pop-TakesOne (tt, tt) events_idle
