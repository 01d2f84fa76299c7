-- ===== src/Planner/Plans.antt =====
-- What a plan that `plan_phase_windows` returns promises.
use optolink.Base.{
  ℕ, ◌+◌, ◌*◌, ◌≤◌, ◌≡◌, not, List, [], map, arith, refl, if_elim, ltb, length, every, leb,
}
use optolink.Base.Result.{Result, ok, ◌>>=◌, >>=-eq-ok}
use optolink.Reads.{vs1, micros}
use optolink.Planner.{PlanError, Budget, ReadJob, dependency_safe_order}
use optolink.Planner.Windows.{
  PhasePlan, plan_phase_windows, plan_checked, plan_jobs, plan_of, start, distinct_names,
}
use optolink.Planner.Monitor.{Line, Accepted, line_of, jobs_of, start-IsSound}
use optolink.Planner.Bounds.{plan_jobs-IsSound}

-- A plan that begins in VS1 at `now` with a P06 of the given age.
pub record IsPlan (jobs : List ReadJob) (b : Budget) (now age : ℕ) (plan : PhasePlan) : Type 0 where
  pub last : Line
  pub accepted : Accepted b age (line_of (start now age)) plan.steps last
  pub ends_in_vs1 : last.mode ≡ vs1
  pub ends_at : last.clock ≡ now + plan.duration
  pub reads_all : jobs_of plan.steps ≡ dependency_safe_order jobs vs1
  pub names : plan.request_order ≡ map (λ j. j.name) (dependency_safe_order jobs vs1)
  pub paired : plan.handovers ≡ 2 * plan.p300_windows
  pub gap_bounded : plan.max_p06_gap ≤ b.max_p06_age
  pub absence_bounded : plan.max_vs1_unavailable ≤ b.max_vs1_unavailable

plan_jobs-IsPlan :
    (jobs : List ReadJob) (b : Budget) (now age : ℕ) {plan : PhasePlan}
    → age ≤ b.max_p06_age
    → (plan_jobs b (dependency_safe_order jobs vs1) (start now age) >>= λ s.
        ok (plan_of (dependency_safe_order jobs vs1) now s))
      ≡ ok plan
    → IsPlan jobs b now age plan
plan_jobs-IsPlan jobs b now age {plan} fresh h =
    let planned = dependency_safe_order jobs vs1 in
    let (s, looped, made) =
      >>=-eq-ok (plan_jobs b planned (start now age)) (λ s. ok (plan_of planned now s)) h in
    let is_plan : plan_of planned now s ≡ plan = cc made in
    let (v, home) =
      plan_jobs-IsSound b now age [] planned (start now age) (start-IsSound b now age fresh)
        looped in
    rw (← is_plan) (record {
      last = line_of s;
      accepted = v.accepted;
      ends_in_vs1 = home;
      ends_at = omega (arith, v.advances);
      reads_all = v.reads;
      names = refl;
      paired = let w = v.paired in ground arith;
      gap_bounded = v.gap_bounded;
      absence_bounded = v.absence_bounded;
    })

plan_checked-IsPlan :
    (jobs : List ReadJob) (b : Budget) (now age : ℕ) {plan : PhasePlan}
    → plan_checked b jobs now age ≡ ok plan
    → IsPlan jobs b now age plan
unfolding plan_checked
plan_checked-IsPlan jobs b now age {plan} =
    let P : Result PlanError PhasePlan → Type 0 = λ r. r ≡ ok plan → IsPlan jobs b now age plan in
    if_elim P (ltb b.max_p06_age age) (λ _ h. absurd (cc h))
      λ fresh.
        if_elim P (ltb 1000 (length jobs)) (λ _ h. absurd (cc h))
          λ _.
            if_elim P (not (every (λ j. leb j.queued now) jobs)) (λ _ h. absurd (cc h))
              λ _.
                if_elim P (not (distinct_names jobs)) (λ _ h. absurd (cc h))
                  (λ _ h. plan_jobs-IsPlan jobs b now age (ground arith) h)

-- A plan that is returned begins and ends in VS1 and is a timeline that the monitor accepts: its
-- steps follow one another without a gap, each read runs in its own protocol within its deadline and
-- the queue wait, each P300 window is entered once and left within the unavailability bound, and P06
-- is never older than its bound when VS1 is read or restored. It reads just the jobs, in the
-- dependency-safe order, has two handovers for each window, and reports bounds that are kept.
pub plan_phase_windows-IsPlan :
    (jobs : List ReadJob) (b : Budget) (now age : ℕ) {plan : PhasePlan}
    → plan_phase_windows jobs b (micros now) (micros age) vs1 ≡ ok plan
    → IsPlan jobs b now age plan
unfolding plan_phase_windows
plan_phase_windows-IsPlan jobs b now age h = plan_checked-IsPlan jobs b now age (ground arith)
