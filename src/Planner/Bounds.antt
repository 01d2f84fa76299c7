-- ===== src/Planner/Bounds.antt =====
-- Every timeline that the planner builds is one that the monitor accepts.
use mathlib.Core.List.{append-nil, append_assoc}
use optolink.Base.{
  ℕ, ◌+◌, ◌-◌, ◌≤◌, max, ◌≡◌, true, false, none, some, List, [], ◌∷◌, ◌++◌, arith, refl, ap, ◌∙◌,
  inl, inr, Bool-cases, Option-cases, if_elim, if◌then◌else◌,
}
use optolink.Base.Result.{ok, ◌>>=◌, >>=-eq-ok}
use optolink.Reads.{Protocol, vs1, p300, is_p300}
use optolink.Planner.{Budget, ReadJob, job_mode}
use optolink.Planner.Windows.{
  verified_vs1_return, verified_p300_entry, read, Timeline, p06_age, stage, return_from, return_vs1,
  enter_p300, is_p06, read_job, switch, plan_job, plan_jobs,
}
use optolink.Planner.Monitor.{
  Line, Allowed, enter, go_back, read_p06, read_vs1, read_p300, follow, line_of, IsSound, jobs_of,
  jobs_of-append, staged,
}

mode_p300 : (m : Protocol) → is_p300 m ≡ true → m ≡ p300
mode_p300 m h = ground arith

mode_vs1 : (m : Protocol) → is_p300 m ≡ false → m ≡ vs1
mode_vs1 m h = ground arith

entered : Budget → Timeline → Timeline
entered b s = record (stage verified_p300_entry p300 b.enter_p300 s) {
  absence_started = some s.t;
  mode = p300;
  windows = s.windows + 1;
  handovers = s.handovers + 1;
}

entered-IsSound :
    (b : Budget) (now age : ℕ) (done : List ReadJob) (s : Timeline)
    → s.mode ≡ vs1
    → IsSound b now age done s
    → IsSound b now age done (entered b s)
unfolding entered
entered-IsSound b now age done s m v = record {
  accepted =
      follow (staged verified_p300_entry p300 b.enter_p300 s) v.accepted
        (enter refl m refl refl refl) refl;
  reads = jobs_of-append s.steps _ ∙ append-nil (jobs_of s.steps) ∙ v.reads;
  paired = let w = v.paired in ground arith;
  absence_bounded = v.absence_bounded;
  gap_bounded = v.gap_bounded;
  same_age = v.same_age;
  advances = omega (arith, v.advances);
}

enter_p300-IsSound :
    (b : Budget) (now age : ℕ) (done : List ReadJob) (s : Timeline)
    → IsSound b now age done s
    → IsSound b now age done (enter_p300 b s) × ((enter_p300 b s).mode ≡ p300)
unfolding enter_p300 entered
enter_p300-IsSound b now age done s v =
    let P : Timeline → Type 0 = λ r. IsSound b now age done r × (r.mode ≡ p300) in
    if_elim P (is_p300 s.mode) (λ there. (v, mode_p300 s.mode there))
      (λ elsewhere. (entered-IsSound b now age done s (mode_vs1 s.mode elsewhere) v, refl))

returned : Budget → ℕ → Timeline → Timeline
returned b began s =
    let r = stage verified_vs1_return vs1 b.return_vs1 s in
    record r {
      handovers = s.handovers + 1;
      max_absence = max s.max_absence (r.t - began);
      max_gap = max s.max_gap (p06_age r);
      mode = vs1;
      absence_started = none;
      last_p06 = r.t + s.age₀;
    }

returned-IsSound :
    (b : Budget) (now age began : ℕ) (done : List ReadJob) (s : Timeline)
    → s.mode ≡ p300
    → s.absence_started ≡ some began
    → s.t + b.return_vs1 ≤ began + b.max_vs1_unavailable
    → s.t + b.return_vs1 + s.age₀ ≤ s.last_p06 + b.max_p06_age
    → IsSound b now age done s
    → IsSound b now age done (returned b began s)
unfolding returned
returned-IsSound b now age began done s m a absence gap v = record {
  accepted =
      follow (staged verified_vs1_return vs1 b.return_vs1 s) v.accepted
        (go_back began refl m a refl refl absence (rw (← v.same_age) gap) (
          ap
            (λ x. record {
              mode = vs1;
              clock = s.t + b.return_vs1;
              since = none;
              last_p06 = s.t + b.return_vs1 + x;
            })
            v.same_age))
        refl;
  reads = jobs_of-append s.steps _ ∙ append-nil (jobs_of s.steps) ∙ v.reads;
  paired = let w = v.paired in ground arith;
  absence_bounded = omega (arith, v.absence_bounded);
  gap_bounded = omega (arith, v.gap_bounded);
  same_age = v.same_age;
  advances = omega (arith, v.advances);
}

return_from_lem :
    (b : Budget) (began : ℕ) (s : Timeline) {w : Timeline}
    → return_from b began s ≡ ok w
    → (w ≡ returned b began s)
      × (s.t + b.return_vs1 ≤ began + b.max_vs1_unavailable)
      × (s.t + b.return_vs1 + s.age₀ ≤ s.last_p06 + b.max_p06_age)
unfolding return_from returned
return_from_lem b began s h = ground arith

return_vs1-IsSound :
    (b : Budget) (now age : ℕ) (done : List ReadJob) (s : Timeline) {w : Timeline}
    → IsSound b now age done s
    → return_vs1 b s ≡ ok w
    → IsSound b now age done w × (w.mode ≡ vs1)
return_vs1-IsSound b now age done s {w} v h = elim (Bool-cases (is_p300 s.mode)) [
  | inr home ↦
      let same : s ≡ w = unfold return_vs1 in ground arith in rw (← same) (v, mode_vs1 s.mode home)
  | inl away ↦ elim (Option-cases s.absence_started) [
    | inl never ↦ absurd (unfold return_vs1 in ground arith)
    | inr (began, e) ↦
        let returns : return_from b began s ≡ ok w = unfold return_vs1 in ground arith in
        let (is_w, absence, gap) = return_from_lem b began s returns in
        rw is_w (
          returned-IsSound b now age began done s (mode_p300 s.mode away) e absence gap v,
          unfold returned in refl,
        )
  ]
]

read_staged : ReadJob → Timeline → Timeline
read_staged j s =
    let r = stage (read j) (job_mode j) j.duration s in
    record r { last_p06 = if is_p06 j then r.t + s.age₀ else s.last_p06 }

read_job_lem :
    (b : Budget) (j : ReadJob) (s : Timeline) {w : Timeline}
    → read_job b j s ≡ ok w
    → (w ≡ read_staged j s)
      × (s.t ≤ j.queued + b.max_queue_wait)
      × (s.t + j.duration ≤ j.deadline)
      × (job_mode j ≡ vs1
          → is_p06 j ≡ false
          → s.t + j.duration + s.age₀ ≤ s.last_p06 + b.max_p06_age)
unfolding read_job read_staged
read_job_lem b j s h = ground arith

is_p06-vs1 : (j : ReadJob) → is_p06 j ≡ true → job_mode j ≡ vs1
is_p06-vs1 j h = ground arith

-- the line after a read
abbrev read_line : ReadJob → Timeline → Line
read_line j s = record {
  mode = s.mode;
  clock = s.t + j.duration;
  since = s.absence_started;
  last_p06 = if is_p06 j then s.t + j.duration + s.age₀ else s.last_p06;
}

read-Allowed :
    (b : Budget) (age : ℕ) (j : ReadJob) (s : Timeline)
    → s.mode ≡ job_mode j
    → s.age₀ ≡ age
    → s.t ≤ j.queued + b.max_queue_wait
    → s.t + j.duration ≤ j.deadline
    → (job_mode j ≡ vs1 → is_p06 j ≡ false → s.t + j.duration + s.age₀ ≤ s.last_p06 + b.max_p06_age)
    → Allowed b age (line_of s) (staged (read j) (job_mode j) j.duration s) (read_line j s)
read-Allowed b age j s m a waited timely fresh_vs1 = elim (Bool-cases (is_p06 j)) [
  | inl speed ↦
      read_p06 j refl speed (m ∙ is_p06-vs1 j speed) refl refl waited timely (ground arith)
  | inr other ↦ elim (Bool-cases (is_p300 (job_mode j))) [
    | inl away ↦
        read_p300 j refl (m ∙ mode_p300 (job_mode j) away) (mode_p300 (job_mode j) away) refl refl
          waited timely (ground arith)
    | inr home ↦
        let fresh_here = fresh_vs1 (mode_vs1 (job_mode j) home) other in
        read_vs1 j refl (m ∙ mode_vs1 (job_mode j) home) (mode_vs1 (job_mode j) home) refl refl
          waited timely (rw (← a) fresh_here) (ground arith)
  ]
]

read_job-IsSound :
    (b : Budget) (now age : ℕ) (done : List ReadJob) (j : ReadJob) (s : Timeline) {w : Timeline}
    → IsSound b now age done s
    → s.mode ≡ job_mode j
    → read_job b j s ≡ ok w
    → IsSound b now age (done ++ j ∷ []) w
read_job-IsSound b now age done j s v m h =
    let (is_w, waited, timely, fresh_vs1) = read_job_lem b j s h in
    rw is_w (
      unfold read_staged in
      record {
        accepted =
            follow (staged (read j) (job_mode j) j.duration s) v.accepted
              (read-Allowed b age j s m v.same_age waited timely fresh_vs1) refl;
        reads = jobs_of-append s.steps _ ∙ ap (λ r. r ++ j ∷ []) v.reads;
        paired = v.paired;
        absence_bounded = v.absence_bounded;
        gap_bounded = v.gap_bounded;
        same_age = v.same_age;
        advances = omega (arith, v.advances);
      })

switch-IsSound :
    (b : Budget) (now age : ℕ) (done : List ReadJob) (m : Protocol) (s : Timeline) {w : Timeline}
    → IsSound b now age done s
    → switch b m s ≡ ok w
    → IsSound b now age done w × (w.mode ≡ m)
switch-IsSound b now age done vs1 s v h = return_vs1-IsSound b now age done s v (unfold switch in h)
switch-IsSound b now age done p300 s {w} v h =
    let same : enter_p300 b s ≡ w = unfold switch in cc h in
    rw (← same) (enter_p300-IsSound b now age done s v)

-- The loop over the planned jobs and the final return: the timeline is accepted, has read just the
-- jobs, and stands in VS1.
pub plan_jobs-IsSound :
    (b : Budget) (now age : ℕ) (done js : List ReadJob) (s : Timeline) {w : Timeline}
    → IsSound b now age done s
    → plan_jobs b js s ≡ ok w
    → IsSound b now age (done ++ js) w × (w.mode ≡ vs1)
plan_jobs-IsSound b now age done [] s v h =
    rw (append-nil done) (return_vs1-IsSound b now age done s v (unfold plan_jobs in h))
plan_jobs-IsSound b now age done (j ∷ js) s {w} v h =
    let round : (plan_job b j s >>= plan_jobs b js) ≡ ok w = unfold plan_jobs in h in
    let (k, planned, rest) = >>=-eq-ok (plan_job b j s) (plan_jobs b js) round in
    let parts : (switch b (job_mode j) s >>= read_job b j) ≡ ok k = unfold plan_job in planned in
    let (u, switched, is_read) = >>=-eq-ok (switch b (job_mode j) s) (read_job b j) parts in
    let (sound, there) = switch-IsSound b now age done (job_mode j) s v switched in
    rw (← append_assoc done (j ∷ []) js) (
      plan_jobs-IsSound b now age (done ++ j ∷ []) js k
        (read_job-IsSound b now age done j u sound there is_read) rest)
