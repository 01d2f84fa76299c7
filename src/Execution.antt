-- ===== src/Execution.antt =====
-- `execute_read_phases` of tools/handover_acceleration/phase_executor.py: a plan of reads carried out
-- on the coordinator, with the ledger of VS1 samples.
pub mod Reads
pub mod Steps
pub mod Laws
use optolink.Base.{
  ℕ, ◌+◌, Bool, true, false, not, ◌&&◌, Option, none, some, List, [], ◌∷◌, ◌++◌, map, ◌==◌,
  if◌then◌else◌, length,
}
use optolink.Base.Effect.{Op, give, raise, ◌>>=◌, ◌>>◌, view, change, on_raise, demand, check}
use optolink.Base.Result.{ok, err}
use optolink.Text.{Text, same_text}
use optolink.Reads.{
  ReadKind, vs1_p80, vs1_p06, vs1_p09, vs1_p87, p300_id, p300_ram_0f20_32, p300_ram_1c60_32,
  Protocol, vs1, same_mode, Quantity,
}
use optolink.Freshness.{LedgerError, Ledger, invalidate_all, record_sample}
use optolink.Planner.{PlanError, Budget, ReadJob, job_mode}
use optolink.Planner.Windows.{
  StepKind, verified_vs1_return, verified_p300_entry, read, PlanStep, PhasePlan, plan_phase_windows,
}
use optolink.Handover.{
  Bytes, same_bytes, device_id, GfaName, p80, p06, p09, p87, RamName, ram_0f20_32, ram_1c60_32,
  Raised,
}
use optolink.Handover.Wire.{Port}
use optolink.Handover.Owner.{
  Owner, OwnerOp, on_the_wire, is_vs1_verified, is_p300_verified, is_p80, is_p06,
}
use optolink.Handover.Owner.Switches.{
  to_p300, to_vs1_fast, verified_gfa_snapshot, gfa_read, p300_identity, p300_ram_read,
}

-- The exceptions: `ExecutionRejected`, `PlanRejected`, those of the coordinator and the ledger, and
-- `ProtocolError` of this module.
pub data Failure : Type 0 where
  rejected wrong_answer : Failure
  refused : PlanError → Failure
  raised : Raised → Failure
  unrecorded : LedgerError → Failure

pub record ReadResult : Type 0 where
  pub name : Text
  pub kind : ReadKind
  pub raw : Bytes
  pub generation : ℕ

pub record ExecutionResult : Type 0 where
  pub plan : PhasePlan
  pub reads : List ReadResult
  pub generation : ℕ
  pub p300_entry_count : ℕ

-- The coordinator, the ledger and the variables of the function. The ledger's clock is the
-- coordinator's.
pub record Run (W : Type 0) : Type 0 where
  pub owner : Owner W
  pub ledger : Ledger
  pub generation : ℕ
  pub p300_windows : ℕ
  pub results : List ReadResult

abbrev pub RunOp : Type 0 → Type 0 → Type 0
RunOp W A = Op Failure (Run W) A

-- `by_name[name]` of the dictionary of the jobs
abbrev pub by_name : Text → List ReadJob → Option ReadJob
by_name n [] = none
by_name n (j ∷ js) = elim (by_name n js) [
  | none ↦ if same_text n j.name then some j else none
  | some later ↦ some later
]

-- `snap[name]`
abbrev pub value_of : (GfaName → Bool) → List (GfaName × Bytes) → Option Bytes
value_of is_it [] = none
value_of is_it ((n, b) ∷ values) =
    let rest = value_of is_it values in if is_it n then some b else rest

-- `VS1_NAME`, of a VS1 kind
abbrev pub vs1_name : ReadKind → Option GfaName
vs1_name vs1_p80 = some p80
vs1_name vs1_p06 = some p06
vs1_name vs1_p09 = some p09
vs1_name vs1_p87 = some p87
vs1_name _ = none

module _ {W : Type 0} where
  -- an operation of the coordinator
  unfoldable pub on_owner : {A : Type 0} → OwnerOp W A → RunOp W A
  on_owner m s = elim (m s.owner).0 [
    | err e ↦ (err (raised e), record s { owner = (m s.owner).1 })
    | ok a ↦ (ok a, record s { owner = (m s.owner).1 })
  ]

  -- `ledger.invalidate_all()`
  abbrev pub forget : Run W → Run W
  forget s = record s { ledger = invalidate_all s.ledger }

  -- the variables before the `try`
  abbrev pub begin : Run W → Run W
  begin s = record (forget s) { generation = 1; p300_windows = 0; results = [] }

  abbrev pub add_result : ReadResult → Run W → Run W
  add_result r s = record s { results = s.results ++ (r ∷ []) }

  abbrev pub need : (Owner W → Bool) → RunOp W (Unit {0})
  need test = check (λ s. test s.owner) rejected

module _ {W : Type 0} (port : Port W) where
  -- a reading of the clock
  abbrev pub ticked : Run W → Run W
  ticked s = record s { owner = on_the_wire (λ w. record w { world = port.tick w.world }) s.owner }

  -- `ledger.record(kind, raw, session_generation=generation, vs1_verified=True)`
  unfoldable pub record_now : ReadKind → Option Bytes → RunOp W (Unit {0})
  record_now k raw s =
      let w = s.owner.wire.world in
      let r = record_sample (some k) raw (some s.generation) true (port.time w) s.ledger in
      let t : Run W = record s { ledger = r.1 } in
      elim r.0 [ err e ↦ (err (unrecorded e), t) | ok _ ↦ (ok tt, ticked t) ]

  -- `record_current_handshake_p80_p06`
  unfoldable pub record_handshake : RunOp W (Unit {0})
  record_handshake = do
    snap ← on_owner (verified_gfa_snapshot port 750000)
    record_now vs1_p80 (value_of is_p80 snap)
    record_now vs1_p06 (value_of is_p06 snap)

  -- the FC03 reads
  unfoldable pub read_ram : RamName → RunOp W Bytes
  read_ram name = do
    need (λ o. is_p300_verified o.mode)
    raw ← on_owner (p300_ram_read port (some name))
    demand (length raw == 32) wrong_answer
    give raw

  unfoldable pub read_gfa : ReadKind → RunOp W Bytes
  read_gfa k = do
    need (λ o. is_vs1_verified o.mode)
    raw ← on_owner (gfa_read port (vs1_name k))
    record_now k (some raw)
    give raw

  unfoldable pub read_id : RunOp W Bytes
  read_id = do
    need (λ o. is_p300_verified o.mode)
    raw ← on_owner (p300_identity port)
    demand (same_bytes raw device_id) wrong_answer
    give raw

  -- the three ways of a read
  unfoldable pub read_kind : ReadKind → RunOp W Bytes
  read_kind p300_ram_0f20_32 = read_ram ram_0f20_32
  read_kind p300_ram_1c60_32 = read_ram ram_1c60_32
  read_kind p300_id = read_id
  read_kind k = read_gfa k

  unfoldable pub read_job : ReadJob → RunOp W (Unit {0})
  read_job j = do
    raw ← read_kind j.kind
    g ← view (λ s. s.generation)
    change (add_result (record { name = j.name; kind = j.kind; raw = raw; generation = g }))

  -- one step of the plan; a read names its job
  unfoldable pub run_step : List ReadJob → StepKind → Protocol → RunOp W (Unit {0})
  run_step jobs verified_p300_entry mode = do
    need (λ o. is_vs1_verified o.mode)
    change forget
    on_owner (to_p300 port)
    change (λ s. record s { generation = s.generation + 1; p300_windows = s.p300_windows + 1 })
    give tt
  run_step jobs verified_vs1_return mode = do
    need (λ o. is_p300_verified o.mode)
    change forget
    on_owner (to_vs1_fast port)
    change (λ s. record s { generation = s.generation + 1 })
    record_handshake
  run_step jobs (read j) mode = elim (by_name j.name jobs) [
    | none ↦ raise rejected
    | some job ↦ if not (same_mode (job_mode job) mode) then raise rejected else read_job job
  ]

  unfoldable pub run_steps : List ReadJob → List PlanStep → RunOp W (Unit {0})
  run_steps jobs [] = give tt
  run_steps jobs (p ∷ ps) = run_step jobs p.kind p.mode >> run_steps jobs ps

abbrev pub same_names : List Text → List Text → Bool
same_names [] [] = true
same_names (n ∷ ns) (m ∷ ms) = same_text n m && same_names ns ms
same_names _ _ = false

module _ {W : Type 0} (port : Port W) where
  -- the `try` of `execute_read_phases`
  unfoldable pub carry_out : List ReadJob → PhasePlan → RunOp W ExecutionResult
  carry_out jobs plan = do
    record_handshake port
    run_steps port jobs plan.steps
    need (λ o. is_vs1_verified o.mode)
    check (λ s. same_names (map (λ r. r.name) s.results) plan.request_order) rejected
    view λ s. record {
      plan = plan;
      reads = s.results;
      generation = s.generation;
      p300_entry_count = s.p300_windows;
    }

  -- `execute_read_phases` on a coordinator and a ledger, the empty one where none is given
  unfoldable pub execute_read_phases :
      List ReadJob → Budget → Quantity → Quantity → RunOp W ExecutionResult
  execute_read_phases jobs budget now age = do
    need (λ o. is_vs1_verified o.mode && o.has_wire)
    elim (plan_phase_windows jobs budget now age vs1) as (λ _. RunOp W ExecutionResult) [
      | err e ↦ raise (refused e)
      | ok plan ↦ change begin >> on_raise forget (carry_out jobs plan)
    ]
