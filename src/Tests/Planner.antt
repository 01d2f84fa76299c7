-- ===== src/Tests/Planner.antt =====
-- The planner on a P06 read, two P300 reads and a barrier.
use optolink.Base.{◌≡◌, refl, Bool, List, [], ◌∷◌, true, false, keep}
use optolink.Base.Result.{ok, err}
use optolink.Reads.{ReadKind, vs1, p300, vs1_p06, p300_id, p300_ram_0f20_32, micros}
use optolink.Text.{Text, codes}
use optolink.Planner.{
  Budget, default_budget, ReadJob, runs_in, dependency_safe_order, vs1_absent_too_long,
}
use optolink.Planner.Windows.{plan_phase_windows, PhasePlan}
use optolink.Planner.Order.{keep-dependency_safe_order}
use optolink.Planner.Plans.{IsPlan, plan_phase_windows-IsPlan}

abbrev job : Text → ReadKind → Bool → ReadJob
job name kind free = record {
  name = name;
  kind = kind;
  duration = 100000;
  deadline = 20000000;
  queued = 0;
  independent = free;
}

abbrev identity : ReadJob
identity = job (codes "id") p300_id true

abbrev speed : ReadJob
speed = job (codes "p06") vs1_p06 true

abbrev barrier : ReadJob
barrier = job (codes "ram") p300_ram_0f20_32 false

abbrev jobs : List ReadJob
jobs = identity ∷ speed ∷ barrier ∷ []

order_runs : dependency_safe_order jobs vs1 ≡ speed ∷ identity ∷ barrier ∷ []
unfolding dependency_safe_order
order_runs = refl

keep-dependency_safe_order_example :
    keep (runs_in p300) (dependency_safe_order jobs vs1) ≡ keep (runs_in p300) jobs
keep-dependency_safe_order_example = keep-dependency_safe_order jobs vs1 p300

abbrev plan : PhasePlan
plan = elim (plan_phase_windows jobs default_budget (micros 0) (micros 5) vs1) [
  | ok p ↦ p
  | err _ ↦ record {
    steps = [];
    request_order = [];
    handovers = 0;
    p300_windows = 0;
    duration = 0;
    max_p06_gap = 0;
    max_vs1_unavailable = 0;
  }
]

plan_runs : plan_phase_windows jobs default_budget (micros 0) (micros 5) vs1 ≡ ok plan
unfolding plan_phase_windows
plan_runs = refl

plan_handovers : plan.handovers ≡ 2
unfolding plan_phase_windows
plan_handovers = refl

plan_phase_windows-IsPlan_example : IsPlan jobs default_budget 0 5 plan
plan_phase_windows-IsPlan_example = plan_phase_windows-IsPlan jobs default_budget 0 5 plan_runs

abbrev impatient : Budget
impatient = record default_budget { max_vs1_unavailable = 4000000 }

window_too_long :
    plan_phase_windows jobs impatient (micros 0) (micros 0) vs1 ≡ err vs1_absent_too_long
unfolding plan_phase_windows
window_too_long = refl
