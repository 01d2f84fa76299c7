-- ===== src/Execution/Laws.antt =====
-- What `execute_read_phases` (tools/handover_acceleration/phase_executor.py) gives out, and what it
-- leaves where it raises.
use optolink.Base.{
  ℕ, ◌≡◌, refl, sym, ap, ◌∙◌, ap₂, ◌⊎◌, inl, inr, true, List, [], ◌∷◌, map, All, &&-eq-true,
}
use mathlib.Core.Path.{subst}
use optolink.Base.Effect.{raise, ◌>>◌, change, on_raise, Outcome}
use optolink.Base.Effect.Triples.{
  Does-raise, Does-view, Does-bind, Does-from, Does-on_raise, Does-weaken, Does, Does-change,
  Does-check,
}
use optolink.Base.Result.{Result, ok, err, OnOk, OnErr}
use optolink.Text.{Text, same_text, same_text-eq}
use optolink.Reads.{vs1, Quantity, micros}
use optolink.Freshness.{empty, invalidate_all}
use optolink.Freshness.Provenance.Samples.{AreSound}
use optolink.Planner.{PlanError, Budget, ReadJob, dependency_safe_order}
use optolink.Planner.Windows.{PhasePlan, plan_phase_windows}
use optolink.Planner.Plans.{plan_phase_windows-IsPlan}
use optolink.Handover.{Mode}
use optolink.Handover.Wire.{Port}
use optolink.Handover.Sound.{IsSound}
use optolink.Handover.Sound.Reads.{vs1_mode}
use optolink.Execution.{
  Failure, rejected, refused, ReadResult, ExecutionResult, Run, RunOp, forget, same_names,
  carry_out, begin, execute_read_phases,
}
use optolink.Execution.Reads.{Genuine, IsGood, Broken, record_handshake-Goes}
use optolink.Execution.Steps.{run_steps-Goes}

same_names-eq : (ns ms : List Text) → same_names ns ms ≡ true → ns ≡ ms
same_names-eq [] [] h = refl
same_names-eq [] (m ∷ ms) h = absurd cc
same_names-eq (n ∷ ns) [] h = absurd cc
same_names-eq (n ∷ ns) (m ∷ ms) h =
    let (a, b) = &&-eq-true (same_text n m) _ h in
    ap₂ (λ x y. x ∷ y) (same_text-eq n m a) (same_names-eq ns ms b)

-- A batch that is given out: VS1 is verified, each answer is genuine for its kind, the answers are
-- those asked for, and the ledger has samples of the last session only.
pub record IsAnswered {W : Type 0} (order : List Text) (r : ExecutionResult) (s : Run W)
    : Type 0 where
  pub verified : s.owner.mode ≡ Mode.vs1_verified
  pub sound : IsSound s.owner
  pub genuine : All (λ (x : ReadResult). Genuine x.kind x.raw) r.reads
  pub in_order : map (λ (x : ReadResult). x.name) r.reads ≡ order
  pub current : AreSound r.generation s.ledger

module _ {W : Type 0} (port : Port W) where
  carry_out-IsAnswered :
      (jobs : List ReadJob) (plan : PhasePlan)
      → Does IsGood
          (carry_out port jobs plan)
          (λ r s. (r.plan ≡ plan) × IsAnswered plan.request_order r s)
          Broken
  unfolding carry_out
  carry_out-IsAnswered jobs plan =
      Does-bind (λ _. IsGood) _ _ (record_handshake-Goes port)
        (λ _.
          Does-bind (λ _. IsGood) _ _ (run_steps-Goes port jobs plan.steps)
            (λ _.
              Does-check _ rejected _ (λ s i _. i.0)
                (Does-check _ rejected _ (λ s i _. i.0.0)
                  (Does-view _ (λ s i. (
                    refl,
                    record {
                      verified = vs1_mode s.owner.mode i.0.1;
                      sound = i.0.0.0;
                      genuine = i.0.0.2;
                      in_order = same_names-eq _ plan.request_order i.1;
                      current = i.0.0.1;
                    },
                  ))))))

  -- an exception: the state is the old one, or the ledger is empty
  abbrev Cleared : Run W → Run W → Type 0
  Cleared s t = IsSound t.owner × ((t ≡ s) ⊎ (t.ledger ≡ empty))

  abbrev Answered : List ReadJob → Budget → Quantity → Quantity → ExecutionResult → Run W → Type 0
  Answered jobs b now age r t =
      (plan_phase_windows jobs b now age vs1 ≡ ok r.plan) × IsAnswered r.plan.request_order r t

  executes :
      (jobs : List ReadJob) (b : Budget) (now age : Quantity) (s : Run W)
      → Does
          (λ t. IsSound t.owner × (t ≡ s))
          (execute_read_phases port jobs b now age)
          (Answered jobs b now age)
          (λ _. Cleared s)
  unfolding execute_read_phases invalidate_all
  executes jobs b now age s =
      Does-check _ rejected _ (λ t i _. (i.0, inl i.1))
        (Does-from (λ t. IsSound t.owner × (t ≡ s)) _ (λ t i. i.0)
          (planned (plan_phase_windows jobs b now age vs1) refl))
    where
      cleared : (e : Failure) (t : Run W) → Broken e t → Cleared s (forget t)
      cleared e t i = (i, inr refl)

      started : (t : Run W) → IsSound t.owner × (t ≡ s) → IsGood (begin t)
      started t i = (i.0, (λ k x e. absurd (cc)), tt)

      planned :
          (p : Result PlanError PhasePlan)
          → plan_phase_windows jobs b now age vs1 ≡ p
          → Does
              (λ t. IsSound t.owner × (t ≡ s))
              (elim p as (λ _. RunOp W ExecutionResult) [
                | err e ↦ raise (refused e)
                | ok plan ↦ change begin >> on_raise forget (carry_out port jobs plan)
              ])
              (Answered jobs b now age)
              (λ _. Cleared s)
      planned (err x) e = Does-raise (refused x) (λ t i. (i.0, inl i.1))
      planned (ok plan) e =
          Does-bind (λ _. IsGood) _ _ (Does-change begin started)
            (λ _. Does-on_raise forget _ (
              Does-weaken (λ r s. (r.plan ≡ plan) × IsAnswered plan.request_order r s) Broken _
                (carry_out-IsAnswered jobs plan)
                (λ r t i. (
                  e ∙ sym (ap (λ p. ok p) i.0),
                  subst (λ p. IsAnswered p.request_order r t) (sym i.0) i.1,
                ))
                cleared))

  -- A batch is given out only if it is whole. Where `execute_read_phases` returns, its plan is the one
  -- that the planner made of the jobs; VS1 is verified again, so the coordinator is as sound as
  -- before; the answers are named like the jobs in their dependency-safe order; each is genuine for
  -- its kind, the exact identity, a block of 32 bytes, or a byte that is no FF, and 20 for `P80`; and
  -- each sample left in the ledger is of the session that the result names, whatever the port did.
  pub execute_read_phases-IsAnswered :
      (jobs : List ReadJob) (b : Budget) (now age : ℕ) (s : Run W)
      → IsSound s.owner
      → let e = execute_read_phases port jobs b (micros now) (micros age) s in
        OnOk
          (λ r.
            (plan_phase_windows jobs b (micros now) (micros age) vs1 ≡ ok r.plan)
            × IsAnswered (map (λ j. j.name) (dependency_safe_order jobs vs1)) r e.1)
          e.0
  execute_read_phases-IsAnswered jobs b now age s i =
      answered _ _ ((executes jobs b (micros now) (micros age) s).at s (i, refl))
    where
      answered :
          (r : Result Failure ExecutionResult) (t : Run W)
          → Outcome (Answered jobs b (micros now) (micros age)) (λ _. Cleared s) r t
          → OnOk
              (λ r.
                (plan_phase_windows jobs b (micros now) (micros age) vs1 ≡ ok r.plan)
                × IsAnswered (map (λ j. j.name) (dependency_safe_order jobs vs1)) r t)
              r
      answered (ok r) t o = (
        o.0,
        subst (λ names. IsAnswered names r t) (plan_phase_windows-IsPlan jobs b now age o.0).names
            o.1,
      )
      answered (err e) t o = tt

  -- A batch that fails leaves no proof behind. Where `execute_read_phases` raises, either nothing has
  -- been done at all, or the ledger holds no sample of any kind; and the coordinator's mode still
  -- tells the truth about its wire, so that its recovery can be trusted.
  pub execute_read_phases_clears :
      (jobs : List ReadJob) (b : Budget) (now age : Quantity) (s : Run W)
      → IsSound s.owner
      → let e = execute_read_phases port jobs b now age s in
        OnErr (λ _. IsSound e.1.owner × ((e.1 ≡ s) ⊎ (e.1.ledger ≡ empty))) e.0
  execute_read_phases_clears jobs b now age s i =
      left _ _ ((executes jobs b now age s).at s (i, refl))
    where
      left :
          (r : Result Failure ExecutionResult) (t : Run W)
          → Outcome (Answered jobs b now age) (λ _. Cleared s) r t
          → OnErr (λ _. Cleared s t) r
      left (ok r) t o = tt
      left (err e) t o = o
