-- ===== src/Batcher/Select.antt =====
-- What `select` offers, and when.
use optolink.Base.{
  All, ℕ, suc, ◌≤◌, ◌≡◌, true, false, not, ◌&&◌, none, some, List, [], ◌∷◌, ◌++◌, map, arith, ap,
  sym, ◌∙◌, refl, inl, inr, Bool-cases, leb, length, length-append, if◌then◌else◌,
}
use optolink.Base.Result.{ok, Result-cases}
use optolink.Reads.{ReadKind, vs1, micros}
use optolink.Planner.{Budget, ReadJob}
use optolink.Planner.Windows.{PhasePlan, plan_phase_windows}
use optolink.Planner.Plans.{IsPlan, plan_phase_windows-IsPlan}
use optolink.Batcher.{Batcher, DemandTicket, DemandSelection, expire}
use optolink.Batcher.Jobs.{IsJobOf, Covered, jobs_lem}
use optolink.Batcher.Offer.{select, offer, collect, knows, job_of, is_spaced}

-- the kinds met never pass the limit
length-collect :
    (limit : ℕ) (ks : List ReadKind) (ts : List DemandTicket)
    → length ks ≤ limit
    → length (collect limit ks ts).1 ≤ limit
unfolding collect
length-collect limit ks [] h = h
length-collect limit ks (t ∷ ts) h = elim (Bool-cases (knows ks t.kind)) [
  | inl known ↦ ground (arith, length-collect limit ks ts h)
  | inr new ↦
      ground (arith, length-append ks (t.kind ∷ []), length-collect limit (ks ++ t.kind ∷ []) ts)
]

-- the tickets collected are a front part of the list
collect-front :
    (limit : ℕ) (ks : List ReadKind) (ts : List DemandTicket)
    → (rest : List DemandTicket) × (ts ≡ (collect limit ks ts).0 ++ rest)
unfolding collect
collect-front limit ks [] = ([], refl)
collect-front limit ks (t ∷ ts) =
    let ks' = if knows ks t.kind then ks else ks ++ t.kind ∷ [] in
    let (rest, e) = collect-front limit ks' ts in
    elim (Bool-cases (not (knows ks t.kind) && leb limit (length ks))) [
      | inl stop ↦ (t ∷ ts, rw stop refl)
      | inr go ↦ (rest, rw go (ap (λ r. t ∷ r) e))
    ]

length-map-jobs : (f : ReadKind → ReadJob) (ks : List ReadKind) → length (map f ks) ≡ length ks
length-map-jobs f [] = refl
length-map-jobs f (k ∷ ks) = ap suc (length-map-jobs f ks)

-- What a `select` that offers `s` has found.
pub record Offers (g : Budget) (age now₁ now₂ now₃ now₄ : ℕ) (b b' : Batcher) (s : DemandSelection)
    : Type 0 where
  pub rest : List DemandTicket
  pub front : (expire now₁ b).pending ≡ s.tickets ++ rest
  pub few_kinds : length s.jobs ≤ b.max_distinct_reads
  pub are_jobs : All (IsJobOf s.tickets) s.jobs
  pub covered : Covered s.jobs s.tickets
  pub is_plan : IsPlan s.jobs g now₃ age s.plan
  pub one_window : s.plan.p300_windows ≡ 1
  pub two_handovers : s.plan.handovers ≡ 2
  pub spaced : is_spaced now₂ b ≡ true
  pub free : b.reserved ≡ none
  pub not_shut : b.failed_closed ≡ false
  pub queue_kept : b'.pending ≡ (expire now₁ b).pending
  pub on_offer : b'.offered ≡ some s
  pub offer_time : b'.offered_at ≡ some now₄

-- the batcher as `select` leaves it before it plans
abbrev purged : ℕ → Batcher → Batcher
purged now b = expire now (record b { offered = none; offered_at = none })

abbrev found : ℕ → Batcher → List DemandTicket × List ReadKind
found now b = collect b.max_distinct_reads [] (purged now b).pending

abbrev jobs_for : ℕ → Batcher → List ReadJob
jobs_for now b = map (job_of (found now b).0) (found now b).1

select_inv :
    (caller : ℕ) (g : Budget) (age now₁ now₂ now₃ now₄ : ℕ) (b : Batcher) {s : DemandSelection}
    {b' : Batcher}
    → select caller (some g) (micros age) now₁ now₂ now₃ now₄ b ≡ (ok (some s), b')
    → (plan : PhasePlan) × (plan_phase_windows (jobs_for now₁ b) g (micros now₃) (micros age) vs1
        ≡ ok plan)
      × (is_spaced now₂ b ≡ true)
      × (b.reserved ≡ none)
      × (b.failed_closed ≡ false)
      × (offer (found now₁ b).0 (jobs_for now₁ b) plan now₄ (purged now₁ b) ≡ (ok (some s), b'))
unfolding select
select_inv caller g age now₁ now₂ now₃ now₄ b h =
    elim (Result-cases (plan_phase_windows (jobs_for now₁ b) g (micros now₃) (micros age) vs1)) [
      | inr (e, refused) ↦ absurd (ground arith)
      | inl (plan, e) ↦ (plan, e, ground arith, ground arith, ground arith, ground arith)
    ]

offer_lem :
    (ts : List DemandTicket) (jobs : List ReadJob) (plan : PhasePlan) (now : ℕ) (b : Batcher)
    {s : DemandSelection} {b' : Batcher}
    → offer ts jobs plan now b ≡ (ok (some s), b')
    → (plan.p300_windows ≡ 1)
      × (plan.handovers ≡ 2)
      × (s.tickets ≡ ts)
      × (s.jobs ≡ jobs)
      × (s.plan ≡ plan)
      × (b'.pending ≡ b.pending)
      × (b'.offered ≡ some s)
      × (b'.offered_at ≡ some now)
unfolding offer
offer_lem ts jobs plan now b h = (
  ground arith,
  ground arith,
  ground arith,
  ground arith,
  ground arith,
  ground arith,
  ground arith,
  ground arith,
)

-- A `select` that offers a selection found no batch in hand, no failure and the spacing since the last
-- batch passed. The offer is a front part of the unexpired queue, which stays as it is, with at most
-- `max_distinct_reads` jobs. Each of its tickets has a job of its kind; the deadline of each job is the
-- first deadline of the tickets of its kind, and its time of queueing the first of theirs; and the plan
-- for these jobs keeps every promise of a plan and has one P300 window and two handovers.
pub select-Offers :
    (caller : ℕ) (g : Budget) (age now₁ now₂ now₃ now₄ : ℕ) (b : Batcher) {s : DemandSelection}
    {b' : Batcher}
    → select caller (some g) (micros age) now₁ now₂ now₃ now₄ b ≡ (ok (some s), b')
    → Offers g age now₁ now₂ now₃ now₄ b b' s
select-Offers caller g age now₁ now₂ now₃ now₄ b {s} {b'} h =
    let (plan, planned, spaced, free, not_shut, offered) =
      select_inv caller g age now₁ now₂ now₃ now₄ b h in
    let (one, two, is_ts, is_jobs, is_p, kept, on_offer, time) =
      offer_lem (found now₁ b).0 (jobs_for now₁ b) plan now₄ (purged now₁ b) offered in
    let (rest, front) = collect-front b.max_distinct_reads [] (purged now₁ b).pending in
    let jobs = jobs_lem b.max_distinct_reads (purged now₁ b).pending in
    let same : (purged now₁ b).pending ≡ (expire now₁ b).pending = unfold expire in refl in
    let few = length-collect b.max_distinct_reads [] (purged now₁ b).pending (omega arith) in
    record {
      rest = rest;
      front = sym same ∙ front ∙ ap (λ r. r ++ rest) (sym is_ts);
      few_kinds = rw is_jobs (rw (length-map-jobs (job_of (found now₁ b).0) (found now₁ b).1) few);
      are_jobs = rw (is_jobs, is_ts) jobs.0;
      covered = rw (is_jobs, is_ts) jobs.1;
      is_plan = rw (is_jobs, is_p) (plan_phase_windows-IsPlan (jobs_for now₁ b) g now₃ age planned);
      one_window = rw is_p one;
      two_handovers = rw is_p two;
      spaced = spaced;
      free = free;
      not_shut = not_shut;
      queue_kept = kept ∙ same;
      on_offer = on_offer;
      offer_time = time;
    }
