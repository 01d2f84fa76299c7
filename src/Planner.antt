-- ===== src/Planner.antt =====
-- tools/handover_acceleration/phase_planner.py: the order of the reads, the timeline of one plan and
-- the refusals. Times and durations are microseconds (the source's milliseconds to three places, the
-- precision of its budgets); the rounding of floats is not modelled.
pub mod Order
pub mod Monitor
pub mod Bounds
pub mod Plans
pub mod Windows
use optolink.Base.{
  ℕ, ◌+◌, Bool, true, false, not, Option, none, some, List, [], ◌∷◌, ◌++◌, ltb, leb, if◌then◌else◌,
  length, keep,
}
use optolink.Base.Result.{Result, ok, err, ◌>>=◌}
use optolink.Text.{Text}
use optolink.Reads.{ReadKind, Protocol, mode_of, same_mode, Quantity, not_finite, negative, micros}

-- the refusals of `PlanRejected`, in the order of the source
pub data PlanError : Type 0 where
  not_numeric too_small bad_name bad_kind bad_independence deadline_before_queue : PlanError
  no_vs1_start p06_already_stale too_many_jobs not_arrived duplicate_name : PlanError
  never_absent vs1_absent_too_long p06_gap_too_long waited_too_long past_deadline p06_stale :
      PlanError

-- `_finite_number`
unfoldable pub finite_number : ℕ → Quantity → Result PlanError ℕ
finite_number min not_finite = err not_numeric
finite_number min negative = err too_small
finite_number min (micros n) = if ltb n min then err too_small else ok n

pub record Budget : Type 0 where
  pub enter_p300 : ℕ
  pub return_vs1 : ℕ
  pub max_vs1_unavailable : ℕ
  pub max_p06_age : ℕ
  pub max_queue_wait : ℕ

-- the default values of `Budget`
abbrev pub default_budget : Budget
default_budget = record {
  enter_p300 = 2175657;
  return_vs1 = 2295102;
  max_vs1_unavailable = 10000000;
  max_p06_age = 10000000;
  max_queue_wait = 10000000;
}

-- `Budget.__post_init__`; 0.001 ms is 1
unfoldable pub make_budget :
    Quantity → Quantity → Quantity → Quantity → Quantity → Result PlanError Budget
unfolding finite_number
make_budget enter return unavailable age wait = do
  e ← finite_number 1 enter
  r ← finite_number 1 return
  u ← finite_number 1 unavailable
  a ← finite_number 1 age
  w ← finite_number 1 wait
  ok (record {
    enter_p300 = e;
    return_vs1 = r;
    max_vs1_unavailable = u;
    max_p06_age = a;
    max_queue_wait = w;
  })

pub record ReadJob : Type 0 where
  pub name : Text
  pub kind : ReadKind
  pub duration : ℕ
  pub deadline : ℕ
  pub queued : ℕ
  pub independent : Bool

abbrev pub job_mode : ReadJob → Protocol
job_mode j = mode_of j.kind

abbrev pub is_valid_name : Text → Bool
is_valid_name [] = false
is_valid_name (c ∷ s) = leb (length (c ∷ s)) 120

make_times : Text → ReadKind → Bool → Quantity → Quantity → Quantity → Result PlanError ReadJob
unfolding finite_number
make_times name kind independent duration deadline queued = do
  d ← finite_number 1 duration
  l ← finite_number 0 deadline
  q ← finite_number 0 queued
  if ltb l q
      then err deadline_before_queue
      else ok (record {
        name = name;
        kind = kind;
        duration = d;
        deadline = l;
        queued = q;
        independent = independent;
      })

-- `ReadJob.__post_init__`; an argument of another type is `none`
unfoldable pub make_job :
    Option Text
    → Option ReadKind
    → Quantity
    → Quantity
    → Quantity
    → Option Bool
    → Result PlanError ReadJob
unfolding make_times
make_job none kind duration deadline queued independent = err bad_name
make_job (some name) kind duration deadline queued independent =
    if not (is_valid_name name) then err bad_name else elim kind [
      | none ↦ err bad_kind
      | some k ↦ elim independent [
        | none ↦ err bad_independence
        | some i ↦ make_times name k i duration deadline queued
      ]
    ]

abbrev pub runs_in : Protocol → ReadJob → Bool
runs_in m j = same_mode (job_mode j) m

-- an epoch of independent jobs: those of the current protocol first, both parts in their order
abbrev pub arrange : Protocol → List ReadJob → List ReadJob
arrange m epoch = keep (runs_in m) epoch ++ keep (λ j. not (runs_in m j)) epoch

-- `_dependency_safe_order` with the independent jobs of the present epoch collected so far: a job
-- that is not independent ends the epoch and sets the protocol.
unfoldable pub order_from : Protocol → List ReadJob → List ReadJob → List ReadJob
order_from m epoch [] = arrange m epoch
order_from m epoch (j ∷ js) = elim j.independent [
  | true ↦ order_from m (epoch ++ j ∷ []) js
  | false ↦ arrange m epoch ++ (j ∷ order_from (job_mode j) [] js)
]

-- `_dependency_safe_order`
unfoldable pub dependency_safe_order : List ReadJob → Protocol → List ReadJob
unfolding order_from
dependency_safe_order jobs initial = order_from initial [] jobs
