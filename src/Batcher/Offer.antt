-- ===== src/Batcher/Offer.antt =====
-- `select` of `BoundedDemandBatcher` (tools/handover_acceleration/scheduler.py): the batch that is
-- put on offer.
use optolink.Base.{
  ℕ, ◌+◌, min, Bool, true, not, ◌&&◌, ◌||◌, Option, none, some, List, [], ◌∷◌, ◌++◌, map, leb, ◌==◌,
  if◌then◌else◌, length, some_of, is_some,
}
use optolink.Base.Result.{Result, ok, err}
use optolink.Reads.{
  ReadKind, p300_id, p300_ram_0f20_32, p300_ram_1c60_32, vs1, same_kind, Quantity, not_finite,
  negative, micros,
}
use optolink.Text.{Text, codes}
use optolink.Planner.{Budget, ReadJob}
use optolink.Planner.Windows.{PhasePlan, plan_phase_windows}
use optolink.Batcher.{
  DemandTicket, DemandSelection, Batcher, BatchError, expire, not_owner, bad_budget, bad_age,
  not_one_roundtrip,
}

abbrev pub knows : List ReadKind → ReadKind → Bool
knows ks k = some_of (same_kind k) ks

-- The loop that collects tickets from the front, up to `limit` distinct kinds, with the kinds met.
unfoldable pub collect : ℕ → List ReadKind → List DemandTicket → List DemandTicket × List ReadKind
collect limit kinds [] = ([], kinds)
collect limit kinds (t ∷ ts) =
    let known = knows kinds t.kind in
    let kinds' = if known then kinds else kinds ++ t.kind ∷ [] in
    let rest = collect limit kinds' ts in
    if not known && leb limit (length kinds) then ([], kinds) else (t ∷ rest.0, rest.1)

-- `_P300_ESTIMATED_READ_MS`
abbrev pub estimated_read : ReadKind → ℕ
estimated_read p300_id = 85000
estimated_read _ = 140000

-- `min(… for t in selected if t.kind is kind)`
abbrev pub least : (DemandTicket → ℕ) → ReadKind → List DemandTicket → Option ℕ
least f k [] = none
least f k (t ∷ ts) =
    let rest = least f k ts in
    if same_kind t.kind k then some (elim rest [ none ↦ f t | some m ↦ min (f t) m ]) else rest

abbrev pub or_zero : Option ℕ → ℕ
or_zero none = 0
or_zero (some n) = n

-- `ReadKind.value`
abbrev pub kind_name : ReadKind → Text
kind_name p300_id = codes "p300_identity"
kind_name p300_ram_0f20_32 = codes "p300_ram_0f20_32"
kind_name p300_ram_1c60_32 = codes "p300_ram_1c60_32"
kind_name ReadKind.vs1_p80 = codes "vs1_p80"
kind_name ReadKind.vs1_p06 = codes "vs1_p06"
kind_name ReadKind.vs1_p09 = codes "vs1_p09"
kind_name ReadKind.vs1_p87 = codes "vs1_p87"

-- the job of one kind; each kind has a selected ticket, so both minima exist
abbrev pub job_of : List DemandTicket → ReadKind → ReadJob
job_of selected k = record {
  name = kind_name k;
  kind = k;
  duration = estimated_read k;
  deadline = or_zero (least (λ t. t.expires_at) k selected);
  queued = or_zero (least (λ t. t.enqueued_at) k selected);
  independent = true;
}

-- `spacing` has passed since the last completed batch
abbrev pub is_spaced : ℕ → Batcher → Bool
is_spaced now b = elim b.last_completed [ none ↦ true | some c ↦ leb (c + b.min_spacing) now ]

-- The end of `select`: one P300 roundtrip or an error. `now` is the reading for the offer's time.
unfoldable pub offer :
    List DemandTicket
    → List ReadJob
    → PhasePlan
    → ℕ
    → Batcher
    → Result BatchError (Option DemandSelection) × Batcher
offer selected jobs plan now b =
    if not (plan.p300_windows == 1 && plan.handovers == 2)
    then (err not_one_roundtrip, b)
    else let s : DemandSelection = record {
      serial = b.made;
      tickets = selected;
      jobs = jobs;
      plan = plan;
    } in
      (ok (some s), record b { offered = some s; offered_at = some now; made = b.made + 1 })

-- the selection from pending tickets on; `now₁` is the planner's time
plan_batch : Budget → ℕ → ℕ → ℕ → Batcher → Result BatchError (Option DemandSelection) × Batcher
plan_batch budget age now₁ now₂ b =
    let found = collect b.max_distinct_reads [] b.pending in
    let jobs = map (job_of found.0) found.1 in
    elim (plan_phase_windows jobs budget (micros now₁) (micros age) vs1) [
      | err _ ↦ (ok none, b)
      | ok plan ↦ offer found.0 jobs plan now₂ b
    ]

-- `select` after its checks: the offer is withdrawn and the queue purged first
select_checked :
    Budget → ℕ → ℕ → ℕ → ℕ → ℕ → Batcher → Result BatchError (Option DemandSelection) × Batcher
unfolding plan_batch offer collect expire
select_checked budget age now₁ now₂ now₃ now₄ b =
    let e = expire now₁ (record b { offered = none; offered_at = none }) in
    if e.failed_closed || is_some e.reserved
    then (ok none, e)
    else if not (is_spaced now₂ e)
    then (ok none, e)
    else if length e.pending == 0
    then (ok none, e)
    else plan_batch budget age now₃ now₄ e

-- `select`; a budget that is no `Budget` is `none`
unfoldable pub select :
    ℕ
    → Option Budget
    → Quantity
    → ℕ
    → ℕ
    → ℕ
    → ℕ
    → Batcher
    → Result BatchError (Option DemandSelection) × Batcher
unfolding select_checked
select caller budget age now₁ now₂ now₃ now₄ b =
    if not (caller == b.owner) then (err not_owner, b) else elim budget [
      | none ↦ (err bad_budget, b)
      | some g ↦ elim age [
        | not_finite ↦ (err bad_age, b)
        | negative ↦ (err bad_age, b)
        | micros a ↦ select_checked g a now₁ now₂ now₃ now₄ b
      ]
    ]
