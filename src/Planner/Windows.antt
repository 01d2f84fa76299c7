-- ===== src/Planner/Windows.antt =====
-- The plan of `plan_phase_windows` (tools/handover_acceleration/phase_planner.py): the timeline of
-- exclusive P300 windows.
use optolink.Base.{
  ℕ, ◌+◌, ◌-◌, max, Bool, true, not, ◌&&◌, Option, none, some, List, [], ◌∷◌, ◌++◌, map, ltb, leb,
  if◌then◌else◌, length, some_of, every,
}
use optolink.Base.Result.{Result, ok, err, ◌>>=◌}
use optolink.Text.{Text, same_text}
use optolink.Reads.{vs1_p06, Protocol, vs1, p300, same_kind, is_p300, Quantity}
use optolink.Planner.{
  PlanError, finite_number, Budget, ReadJob, job_mode, dependency_safe_order, no_vs1_start,
  p06_already_stale, too_many_jobs, not_arrived, duplicate_name, never_absent, vs1_absent_too_long,
  p06_gap_too_long, waited_too_long, past_deadline, p06_stale,
}

pub data StepKind : Type 0 where
  verified_vs1_return verified_p300_entry : StepKind
  read : ReadJob → StepKind

-- `PlanStep`; the step of a read carries its job, whose name is the request
pub record PlanStep : Type 0 where
  pub kind : StepKind
  pub mode : Protocol
  pub started : ℕ
  pub finished : ℕ

-- The variables of `plan_phase_windows`. `last_p06` has the initial age added, so that it is no
-- negative number: an age at time `t` is `t + age₀ - last_p06`.
pub record Timeline : Type 0 where
  pub steps : List PlanStep
  pub mode : Protocol
  pub t : ℕ
  pub age₀ : ℕ
  pub last_p06 : ℕ
  pub absence_started : Option ℕ
  pub windows : ℕ
  pub handovers : ℕ
  pub max_gap : ℕ
  pub max_absence : ℕ

abbrev pub p06_age : Timeline → ℕ
p06_age s = s.t + s.age₀ - s.last_p06

-- `stage`
abbrev pub stage : StepKind → Protocol → ℕ → Timeline → Timeline
stage kind mode duration s = record s {
  t = s.t + duration;
  steps =
      s.steps
      ++ (record { kind = kind; mode = mode; started = s.t; finished = s.t + duration }) ∷ [];
}

-- the return from a P300 window that began at `began`
unfoldable pub return_from : Budget → ℕ → Timeline → Result PlanError Timeline
return_from b began s =
    let r = stage verified_vs1_return vs1 b.return_vs1 s in
    let absence = r.t - began in
    let gap = p06_age r in
    if ltb b.max_vs1_unavailable absence
    then err vs1_absent_too_long
    else if ltb b.max_p06_age gap
    then err p06_gap_too_long
    else ok (record r {
      handovers = s.handovers + 1;
      max_absence = max s.max_absence absence;
      max_gap = max s.max_gap gap;
      mode = vs1;
      absence_started = none;
      last_p06 = r.t + s.age₀;
    })

-- `return_vs1`; `never_absent` is the `TypeError` of a subtraction of `None`
unfoldable pub return_vs1 : Budget → Timeline → Result PlanError Timeline
unfolding return_from
return_vs1 b s =
    if not (is_p300 s.mode)
    then ok s
    else elim s.absence_started [ none ↦ err never_absent | some began ↦ return_from b began s ]

-- the entry into P300 before a job that needs it
unfoldable pub enter_p300 : Budget → Timeline → Timeline
enter_p300 b s =
    if is_p300 s.mode
    then s
    else let e = stage verified_p300_entry p300 b.enter_p300 s in
      record e {
        absence_started = some s.t;
        mode = p300;
        windows = s.windows + 1;
        handovers = s.handovers + 1;
      }

abbrev pub is_p06 : ReadJob → Bool
is_p06 j = same_kind j.kind vs1_p06

-- the part of the loop's body that stages the read itself
unfoldable pub read_job : Budget → ReadJob → Timeline → Result PlanError Timeline
read_job b j s =
    if ltb (j.queued + b.max_queue_wait) s.t
    then err waited_too_long
    else if ltb j.deadline (s.t + j.duration)
    then err past_deadline
    else let r = stage (read j) (job_mode j) j.duration s in
      let f = record r { last_p06 = if is_p06 j then r.t + s.age₀ else s.last_p06 } in
      if not (is_p300 (job_mode j)) && ltb b.max_p06_age (p06_age f) then err p06_stale else ok f

-- the change of protocol that a job asks for
unfoldable pub switch : Budget → Protocol → Timeline → Result PlanError Timeline
switch b vs1 s = return_vs1 b s
switch b p300 s = ok (enter_p300 b s)

-- one round of the loop over the planned jobs
unfoldable pub plan_job : Budget → ReadJob → Timeline → Result PlanError Timeline
plan_job b j s = do w ← switch b (job_mode j) s; read_job b j w

unfoldable pub plan_jobs : Budget → List ReadJob → Timeline → Result PlanError Timeline
plan_jobs b [] s = return_vs1 b s
plan_jobs b (j ∷ js) s = do w ← plan_job b j s; plan_jobs b js w

-- `PhasePlan`
pub record PhasePlan : Type 0 where
  pub steps : List PlanStep
  pub request_order : List Text
  pub handovers : ℕ
  pub p300_windows : ℕ
  pub duration : ℕ
  pub max_p06_gap : ℕ
  pub max_vs1_unavailable : ℕ

abbrev pub start : ℕ → ℕ → Timeline
start now age = record {
  steps = [];
  mode = vs1;
  t = now;
  age₀ = age;
  last_p06 = now;
  absence_started = none;
  windows = 0;
  handovers = 0;
  max_gap = age;
  max_absence = 0;
}

abbrev pub plan_of : List ReadJob → ℕ → Timeline → PhasePlan
plan_of planned now s = record {
  steps = s.steps;
  request_order = map (λ j. j.name) planned;
  handovers = s.handovers;
  p300_windows = s.windows;
  duration = s.t - now;
  max_p06_gap = s.max_gap;
  max_vs1_unavailable = s.max_absence;
}

abbrev pub has_name : Text → ReadJob → Bool
has_name n j = same_text n j.name

abbrev pub distinct_names : List ReadJob → Bool
distinct_names [] = true
distinct_names (j ∷ js) = not (some_of (has_name j.name) js) && distinct_names js

unfoldable pub plan_checked : Budget → List ReadJob → ℕ → ℕ → Result PlanError PhasePlan
unfolding plan_jobs plan_job switch return_vs1 enter_p300 read_job dependency_safe_order
plan_checked b jobs now age =
    if ltb b.max_p06_age age
    then err p06_already_stale
    else if ltb 1000 (length jobs)
    then err too_many_jobs
    else if not (every (λ j. leb j.queued now) jobs)
    then err not_arrived
    else if not (distinct_names jobs)
    then err duplicate_name
    else let planned = dependency_safe_order jobs vs1 in
      (plan_jobs b planned (start now age) >>= λ s. ok (plan_of planned now s))

-- `plan_phase_windows`
unfoldable pub plan_phase_windows :
    List ReadJob → Budget → Quantity → Quantity → Protocol → Result PlanError PhasePlan
unfolding plan_checked finite_number
plan_phase_windows jobs b now age p300 = err no_vs1_start
plan_phase_windows jobs b now age vs1 = do
  n ← finite_number 0 now
  a ← finite_number 0 age
  plan_checked b jobs n a
