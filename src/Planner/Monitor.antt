-- ===== src/Planner/Monitor.antt =====
-- A monitor of timelines, as a relation that knows nothing of the planner, and the invariant that
-- ties the planner's variables to it.
use optolink.Base.{
  ℕ, ◌+◌, ◌*◌, ◌≤◌, ◌≡◌, true, Option, none, some, List, [], ◌∷◌, ◌++◌, arith, refl,
}
use optolink.Reads.{Protocol, vs1, p300}
use optolink.Planner.{Budget, ReadJob, job_mode}
use optolink.Planner.Windows.{
  StepKind, verified_vs1_return, verified_p300_entry, read, PlanStep, Timeline, is_p06, start,
}

-- What the monitor knows: the protocol on the line, the time, when VS1 was left, and the time of the
-- last real P06 (with the initial age added, as in `Timeline`).
pub record Line : Type 0 where
  pub mode : Protocol
  pub clock : ℕ
  pub since : Option ℕ
  pub last_p06 : ℕ

-- One step that may follow on the line.
pub data Allowed (b : Budget) (age : ℕ) (l : Line) (p : PlanStep) (l' : Line) : Type 0 where
  enter :
      p.kind ≡ verified_p300_entry
      → l.mode ≡ vs1
      → p.started ≡ l.clock
      → p.finished ≡ l.clock + b.enter_p300
      → l' ≡ record l { mode = p300; clock = p.finished; since = some p.started }
      → Allowed b age l p l'
  go_back :
      (began : ℕ)
      → p.kind ≡ verified_vs1_return
      → l.mode ≡ p300
      → l.since ≡ some began
      → p.started ≡ l.clock
      → p.finished ≡ l.clock + b.return_vs1
      → p.finished ≤ began + b.max_vs1_unavailable
      → p.finished + age ≤ l.last_p06 + b.max_p06_age
      → l' ≡ record { mode = vs1; clock = p.finished; since = none; last_p06 = p.finished + age }
      → Allowed b age l p l'
  read_p06 :
      (j : ReadJob)
      → p.kind ≡ read j
      → is_p06 j ≡ true
      → l.mode ≡ vs1
      → p.started ≡ l.clock
      → p.finished ≡ l.clock + j.duration
      → p.started ≤ j.queued + b.max_queue_wait
      → p.finished ≤ j.deadline
      → l' ≡ record l { clock = p.finished; last_p06 = p.finished + age }
      → Allowed b age l p l'
  read_vs1 :
      (j : ReadJob)
      → p.kind ≡ read j
      → l.mode ≡ vs1
      → job_mode j ≡ vs1
      → p.started ≡ l.clock
      → p.finished ≡ l.clock + j.duration
      → p.started ≤ j.queued + b.max_queue_wait
      → p.finished ≤ j.deadline
      → p.finished + age ≤ l.last_p06 + b.max_p06_age
      → l' ≡ record l { clock = p.finished }
      → Allowed b age l p l'
  read_p300 :
      (j : ReadJob)
      → p.kind ≡ read j
      → l.mode ≡ p300
      → job_mode j ≡ p300
      → p.started ≡ l.clock
      → p.finished ≡ l.clock + j.duration
      → p.started ≤ j.queued + b.max_queue_wait
      → p.finished ≤ j.deadline
      → l' ≡ record l { clock = p.finished }
      → Allowed b age l p l'

-- A sequence of allowed steps.
pub data Accepted (b : Budget) (age : ℕ) (l : Line) : List PlanStep → Line → Type 0 where
  idle : Accepted b age l [] l
  follow :
      {ps qs : List PlanStep} {k m : Line} (p : PlanStep)
      → Accepted b age l qs k
      → Allowed b age k p m
      → ps ≡ qs ++ p ∷ []
      → Accepted b age l ps m

abbrev pub line_of : Timeline → Line
line_of s = record { mode = s.mode; clock = s.t; since = s.absence_started; last_p06 = s.last_p06 }

-- the jobs that a timeline has read
abbrev pub jobs_of : List PlanStep → List ReadJob
jobs_of [] = []
jobs_of (p ∷ ps) = elim p.kind [ read j ↦ j ∷ jobs_of ps | _ ↦ jobs_of ps ]

abbrev pub in_window : Protocol → ℕ
in_window vs1 = 0
in_window p300 = 1

pub record IsSound (b : Budget) (now age : ℕ) (done : List ReadJob) (s : Timeline) : Type 0 where
  pub accepted : Accepted b age (line_of (start now age)) s.steps (line_of s)
  pub reads : jobs_of s.steps ≡ done
  pub paired : s.handovers + in_window s.mode ≡ 2 * s.windows
  pub absence_bounded : s.max_absence ≤ b.max_vs1_unavailable
  pub gap_bounded : s.max_gap ≤ b.max_p06_age
  pub same_age : s.age₀ ≡ age
  pub advances : now ≤ s.t

pub jobs_of-append :
    (ps : List PlanStep) (p : PlanStep) → jobs_of (ps ++ p ∷ []) ≡ jobs_of ps ++ jobs_of (p ∷ [])
jobs_of-append [] p = ground arith
jobs_of-append (q ∷ ps) p = ground (arith, jobs_of-append ps p)

pub start-IsSound :
    (b : Budget) (now age : ℕ) → age ≤ b.max_p06_age → IsSound b now age [] (start now age)
start-IsSound b now age h = record {
  accepted = idle;
  reads = refl;
  paired = omega arith;
  absence_bounded = omega arith;
  gap_bounded = h;
  same_age = refl;
  advances = omega arith;
}

-- the step that `stage` appends
abbrev pub staged : StepKind → Protocol → ℕ → Timeline → PlanStep
staged k m d s = record { kind = k; mode = m; started = s.t; finished = s.t + d }
