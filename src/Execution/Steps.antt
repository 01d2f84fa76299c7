-- ===== src/Execution/Steps.antt =====
-- The steps of `execute_read_phases` (tools/handover_acceleration/phase_executor.py): what each leaves.
use optolink.Base.{
  ℕ, ◌+◌, ◌≡◌, not, Option, none, some, List, [], ◌∷◌, if◌then◌else◌, length, All-append, ==_iff,
}
use optolink.Base.Effect.{raise, ◌>>◌, change}
use optolink.Base.Effect.Triples.{
  Does-give, Does-raise, Does-view, Does-bind, Does-if, Does, Does-change, Does-test,
}
use optolink.Text.{same_text-eq}
use optolink.Reads.{
  ReadKind, vs1_p80, vs1_p06, vs1_p09, vs1_p87, p300_id, p300_ram_0f20_32, p300_ram_1c60_32,
  Protocol, same_mode,
}
use optolink.Freshness.{invalidate_all}
use optolink.Freshness.Provenance.Samples.{AreSound}
use optolink.Planner.{ReadJob, job_mode}
use optolink.Planner.Windows.{StepKind, verified_vs1_return, verified_p300_entry, read, PlanStep}
use optolink.Handover.{Bytes, device_id, RamName, ram_0f20_32, ram_1c60_32}
use optolink.Handover.Wire.{Port}
use optolink.Handover.Owner.{OwnerOp}
use optolink.Handover.Guarded.{any_raise}
use optolink.Handover.Sound.{Keeps}
use optolink.Handover.Sound.Switches.{to_p300-Keeps, to_vs1_fast-Keeps}
use optolink.Handover.Sound.Reads.{gfa_read-Keeps, p300_identity-Keeps, p300_ram_read-Keeps}
use optolink.Execution.{
  rejected, wrong_answer, Run, RunOp, by_name, vs1_name, on_owner, forget, read_ram, read_gfa,
  read_id, read_kind, read_job, run_step, run_steps,
}
use optolink.Execution.Reads.{
  Real, Genuine, IsGood, Broken, Goes, on_owner-With, on_owner-Goes, record_now-Goes, behind,
  record_handshake-Goes,
}

module _ {W : Type 0} (port : Port W) where
  abbrev Read : ReadKind → Bytes → Run W → Type 0
  Read k raw s = IsGood s × Genuine k raw

  read_ram-Goes :
      (n : RamName) → Does IsGood (read_ram port n) (λ raw s. IsGood s × (length raw ≡ 32)) Broken
  unfolding read_ram
  read_ram-Goes n = behind port _ _ _ (
      Does-bind (λ _. IsGood) _ _
        (on_owner-Goes port _ (p300_ram_read-Keeps (any_raise port) (some n)))
        (λ raw.
          Does-test _ wrong_answer _ (λ s i _. i.0)
            (λ e. Does-give raw (λ s i. (i, (==_iff (length raw) 32).0 e)))))

  read_id-Goes : Does IsGood (read_id port) (λ raw s. IsGood s × (raw ≡ device_id)) Broken
  unfolding read_id
  read_id-Goes = behind port _ _ _ (
      Does-bind (λ _. IsGood) _ _ (on_owner-Goes port _ (p300_identity-Keeps (any_raise port)))
        (λ raw.
          Does-test _ wrong_answer _ (λ s i _. i.0)
            (λ e. Does-give raw (λ s i. (i, same_text-eq raw device_id e)))))

  read_gfa-Goes :
      (k : ReadKind) → Does IsGood (read_gfa port k) (λ raw s. IsGood s × Real k (some raw)) Broken
  unfolding read_gfa
  read_gfa-Goes k = behind port _ _ _ (
      Does-bind (λ _. IsGood) _ _
        (on_owner-Goes port _ (gfa_read-Keeps (any_raise port) (vs1_name k)))
        (λ raw.
          Does-bind (λ _ s. IsGood s × Real k (some raw)) _ _ (record_now-Goes port k (some raw))
            (λ _. Does-give raw (λ s i. i))))

  read_kind-Goes : (k : ReadKind) → Does IsGood (read_kind port k) (λ raw. Read k raw) Broken
  unfolding read_kind
  read_kind-Goes p300_ram_0f20_32 = read_ram-Goes ram_0f20_32
  read_kind-Goes p300_ram_1c60_32 = read_ram-Goes ram_1c60_32
  read_kind-Goes p300_id = read_id-Goes
  read_kind-Goes vs1_p80 = read_gfa-Goes vs1_p80
  read_kind-Goes vs1_p06 = read_gfa-Goes vs1_p06
  read_kind-Goes vs1_p09 = read_gfa-Goes vs1_p09
  read_kind-Goes vs1_p87 = read_gfa-Goes vs1_p87

  read_job-Goes : (j : ReadJob) → Goes (read_job port j)
  unfolding read_job
  read_job-Goes j =
      Does-bind (λ raw. Read j.kind raw) _ _ (read_kind-Goes j.kind)
        (λ raw.
          Does-bind (λ _. Read j.kind raw) _ _ (Does-view _ (λ s i. i))
            (λ g. Does-change _ (λ s i. (i.0.0, i.0.1, All-append _ s.results _ i.0.2 (i.1, tt)))))

  -- a change of the protocol, whose session has no samples yet
  forgotten : (g : ℕ) (s : Run W) → IsGood s → AreSound g (forget s).ledger
  unfolding invalidate_all
  forgotten g s i k x e = absurd cc

  -- without samples, for whatever session
  abbrev IsEmpty : Run W → Type 0
  IsEmpty s = (g : ℕ) → AreSound g s.ledger

  changes :
      (m : OwnerOp W (Unit {0})) (f : Run W → Run W) (k : RunOp W (Unit {0}))
      → Keeps (any_raise port) m
      → ((s : Run W) → IsGood s × IsEmpty s → IsGood (f s))
      → Goes k
      → Goes (change forget >> (on_owner m >> (change f >> k)))
  changes m f k h hf hk =
      Does-bind (λ _ s. IsGood s × IsEmpty s) _ _
        (Does-change _ (λ s i. ((i.0, forgotten s.generation s i, i.2), λ g. forgotten g s i)))
        (λ _.
          Does-bind (λ _ s. IsGood s × IsEmpty s) _ _ (on_owner-With port IsEmpty m (λ s o i. i) h)
            (λ _. Does-bind (λ _. IsGood) _ _ (Does-change f hf) (λ _. hk)))

  run_step-Goes :
      (jobs : List ReadJob) (k : StepKind) (mode : Protocol) → Goes (run_step port jobs k mode)
  unfolding run_step
  run_step-Goes jobs verified_p300_entry mode = behind port _ _ _ (
      changes _ _ _ (to_p300-Keeps (any_raise port)) (λ s i. (i.0.0, i.1 (s.generation + 1), i.0.2))
        (Does-give tt (λ s i. i)))
  run_step-Goes jobs verified_vs1_return mode = behind port _ _ _ (
      changes _ _ _ (to_vs1_fast-Keeps (any_raise port))
        (λ s i. (i.0.0, i.1 (s.generation + 1), i.0.2)) (record_handshake-Goes port))
  run_step-Goes jobs (read j) mode = of_name (by_name j.name jobs)
    where
      of_name :
          (o : Option ReadJob)
          → Goes (elim o as (λ _. RunOp W (Unit {0})) [
            | none ↦ raise rejected
            | some job ↦
                if not (same_mode (job_mode job) mode) then raise rejected else read_job port job
          ])
      of_name none = Does-raise rejected (λ s i. i.0)
      of_name (some job) =
          Does-if _ _ _ (λ _. Does-raise rejected (λ s i. i.0)) (λ _. read_job-Goes job)

  pub run_steps-Goes : (jobs : List ReadJob) (ps : List PlanStep) → Goes (run_steps port jobs ps)
  unfolding run_steps
  run_steps-Goes jobs [] = Does-give tt (λ s i. i)
  run_steps-Goes jobs (p ∷ ps) =
      Does-bind (λ _. IsGood) _ _ (run_step-Goes jobs p.kind p.mode) (λ _. run_steps-Goes jobs ps)
