-- ===== src/Tests/Batcher.antt =====
-- The batcher of scheduler.py: two P300 requests, offered, reserved and completed.
use optolink.Base.{◌≡◌, refl, none, some, [], ◌∷◌, true, false}
use optolink.Base.Result.{ok}
use optolink.Reads.{p300_id, p300_ram_0f20_32, micros}
use optolink.Planner.{default_budget}
use optolink.Planner.Windows.{PhasePlan, plan_phase_windows}
use optolink.Batcher.{Batcher, DemandSelection, submit}
use optolink.Batcher.Offer.{select}
use optolink.Batcher.Served.{call_submit, call_complete, reserve, run, step}
use optolink.Batcher.Select.{Offers, select-Offers}
use optolink.Batcher.Reserve.{Reserved, reserve-Reserved}
use optolink.Batcher.Latch.{Refuses, failed_closed-Refuses}

abbrev fresh : Batcher
fresh = record {
  capacity = 16;
  max_distinct_reads = 3;
  min_spacing = 60000000;
  owner = 1;
  pending = [];
  reserved = none;
  offered = none;
  offered_at = none;
  next = 1;
  last_completed = none;
  failed_closed = false;
  left = [];
  made = 0;
}

abbrev filled : Batcher
filled =
    run
      (call_submit (some p300_id) (micros 30000000) 0 0
        ∷ call_submit (some p300_ram_0f20_32) (micros 30000000) 1 1
        ∷ call_submit (some p300_id) (micros 30000000) 2 2
        ∷ [])
      fresh

abbrev offered : Batcher
offered = (select 1 (some default_budget) (micros 0) 10 11 12 13 filled).1

abbrev no_plan : PhasePlan
no_plan = record {
  steps = [];
  request_order = [];
  handovers = 0;
  p300_windows = 0;
  duration = 0;
  max_p06_gap = 0;
  max_vs1_unavailable = 0;
}

abbrev batch : DemandSelection
batch = elim offered.offered [
  | some s ↦ s
  | none ↦ record { serial = 9; tickets = []; jobs = []; plan = no_plan }
]

select_runs :
    select 1 (some default_budget) (micros 0) 10 11 12 13 filled ≡ (ok (some batch), offered)
unfolding select run step submit plan_phase_windows
select_runs = refl

select-Offers_example : Offers default_budget 0 10 11 12 13 filled offered batch
select-Offers_example = select-Offers 1 default_budget 0 10 11 12 13 filled select_runs

reserve_runs : (reserve 1 (some 0) 20 21 offered).0 ≡ ok tt
unfolding reserve select run step submit plan_phase_windows
reserve_runs = refl

reserve-Reserved_example :
    (s : DemandSelection) × Reserved 20 21 offered (reserve 1 (some 0) 20 21 offered).1 s
reserve-Reserved_example = reserve-Reserved 1 20 21 (some 0) offered reserve_runs

abbrev in_hand : Batcher
in_hand = record filled { reserved = some batch }

failed_closed-Refuses_example :
    Refuses (
      run (call_complete 1 (some true) (some true) 40 ∷ []) (record fresh { failed_closed = true }))
failed_closed-Refuses_example =
    failed_closed-Refuses (call_complete 1 (some true) (some true) 40 ∷ [])
      (record fresh { failed_closed = true }) refl
