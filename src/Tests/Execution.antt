-- ===== src/Tests/Execution.antt =====
-- The plan carried out (tools/handover_acceleration/phase_executor.py) on the bench.
use optolink.Base.{◌≡◌, ◌⊎◌, refl, true, false, [], ◌∷◌, map}
use optolink.Base.Effect.{◌>>=◌, check}
use optolink.Base.Result.{err, ok, OnOk, OnErr}
use optolink.Text.{codes}
use optolink.Reads.{p300_id, vs1, micros}
use optolink.Freshness.{empty}
use optolink.Planner.{ReadJob, default_budget, dependency_safe_order}
use optolink.Planner.Windows.{plan_phase_windows}
use optolink.Handover.Owner.{Owner}
use optolink.Handover.Guarded.{any_raise}
use optolink.Handover.Sound.{IsSound}
use optolink.Handover.Calls.Laws.{run-IsSound}
use optolink.Handover.Calls.{run, plain, entering}
use optolink.Execution.{Run, rejected, execute_read_phases}
use optolink.Execution.Laws.{IsAnswered, execute_read_phases-IsAnswered, execute_read_phases_clears}
use optolink.Tests.Handover.{Bench, bench, owner}

abbrev job : ReadJob
job = record {
  name = codes "id";
  kind = p300_id;
  duration = 100000;
  deadline = 9000000;
  queued = 0;
  independent = true;
}

abbrev on : Owner Bench → Run Bench
on o = record { owner = o; ledger = empty; generation = 1; p300_windows = 0; results = [] }

abbrev session : Run Bench
session = on (run bench (plain entering ∷ []) (owner false))

session-IsSound : IsSound session.owner
session-IsSound =
    run-IsSound (any_raise bench) (plain entering ∷ []) (owner false) (tt, tt, λ h. absurd cc)

-- Before the coordinator is entered nothing is carried out.
not_entered :
    execute_read_phases bench (job ∷ []) default_budget (micros 0) (micros 0) (on (owner false))
    ≡ (err rejected, on (owner false))
unfolding execute_read_phases ◌>>=◌ check
not_entered = refl

execute_read_phases-IsAnswered_example :
    let e = execute_read_phases bench (job ∷ []) default_budget (micros 0) (micros 0) session in
    OnOk
      (λ r.
        (plan_phase_windows (job ∷ []) default_budget (micros 0) (micros 0) vs1 ≡ ok r.plan)
        × IsAnswered (map (λ j. j.name) (dependency_safe_order (job ∷ []) vs1)) r e.1)
      e.0
execute_read_phases-IsAnswered_example =
    execute_read_phases-IsAnswered bench (job ∷ []) default_budget 0 0 session session-IsSound

execute_read_phases_clears_example :
    let e = execute_read_phases bench (job ∷ []) default_budget (micros 0) (micros 0) session in
    OnErr (λ _. IsSound e.1.owner × ((e.1 ≡ session) ⊎ (e.1.ledger ≡ empty))) e.0
execute_read_phases_clears_example =
    execute_read_phases_clears bench (job ∷ []) default_budget (micros 0) (micros 0) session
      session-IsSound
