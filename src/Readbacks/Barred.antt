-- ===== src/Readbacks/Barred.antt =====
-- A readback that failed bars the protocol change.
use optolink.Base.{
  ℕ, ◌≡◌, ◌≢◌, refl, Bool, true, false, ◌||◌, not, Option, none, some, List, [], ◌∷◌, if◌then◌else◌,
  is_some, if_elim,
}
use optolink.Base.Result.{Result, ok, err}
use optolink.Readbacks.{
  Readbacks, RefreshError, ticketed, legacy, pending_index, register, consume, retire,
  complete_forced, cancel_not_scheduled, require_idle, not_idle, Call, call_register, call_consume,
  call_complete, call_cancel, History, step, run, same_index, is_none,
}

retire_failed :
    (ticket : ℕ) (r : Readbacks) → r.failed_closed ≡ true → (retire ticket r).1.failed_closed ≡ true
retire_failed ticket r f =
    if_elim {A = Result RefreshError (Unit {0}) × Readbacks} (λ q. q.1.failed_closed ≡ true)
      (is_some (pending_index ticket r.pending)) (λ _. f) (λ _. f)

complete_failed :
    (success : Bool) (r : Readbacks)
    → r.failed_closed ≡ true
    → (complete_forced success r).1.failed_closed ≡ true
unfolding complete_forced
complete_failed success r f = cases r.inflight
  where
    cases :
        (o : Option ℕ)
        → (elim o as (λ _. Result RefreshError (Unit {0}) × Readbacks) [
          | none ↦ (ok tt, r)
          | some ticket ↦
              if success
              then retire ticket r
              else (ok tt, record r { inflight = none; failed_closed = true })
        ]).1.failed_closed
          ≡ true
    cases none = f
    cases (some ticket) =
        if_elim {A = Result RefreshError (Unit {0}) × Readbacks} (λ q. q.1.failed_closed ≡ true)
          success (λ _. retire_failed ticket r f) (λ _. refl)

-- a read that failed shuts the ledger
failed_read :
    (r : Readbacks) (ticket : ℕ)
    → r.inflight ≡ some ticket
    → (complete_forced false r).1.failed_closed ≡ true
unfolding complete_forced
failed_read r ticket e = cases r.inflight e
  where
    cases :
        (o : Option ℕ)
        → o ≡ some ticket
        → (elim o as (λ _. Result RefreshError (Unit {0}) × Readbacks) [
          | none ↦ (ok tt, r)
          | some ticket ↦ (ok tt, record r { inflight = none; failed_closed = true })
        ]).1.failed_closed
          ≡ true
    cases none h = absurd cc
    cases (some t) h = refl

step_failed :
    (c : Call) (h : History)
    → h.ledger.failed_closed ≡ true
    → (step c h).ledger.failed_closed ≡ true
unfolding step register consume complete_forced cancel_not_scheduled
step_failed (call_register none) h f = f
step_failed (call_register (some i)) h f = f
step_failed (call_consume (legacy item)) h f = f
step_failed (call_consume (ticketed ticket index)) h f =
    let P : Result RefreshError (Option ℕ) × Readbacks → Type 0 = λ q. q.1.failed_closed ≡ true in
    if_elim P (not (same_index (pending_index ticket h.ledger.pending) index)) (λ _. f)
      λ _. if_elim P (is_some h.ledger.inflight) (λ _. refl) (λ _. f)
step_failed (call_complete success) h f = complete_failed success h.ledger f
step_failed (call_cancel ticket) h f = f

run_failed :
    (cs : List Call) (h : History)
    → h.ledger.failed_closed ≡ true
    → (run cs h).ledger.failed_closed ≡ true
unfolding run
run_failed [] h f = f
run_failed (c ∷ cs) h f = run_failed cs (step c h) (step_failed c h f)

refused_lem : (r : Readbacks) → r.failed_closed ≡ true → require_idle r ≡ err not_idle
unfolding require_idle
refused_lem r f =
    if_elim {A = Result RefreshError (Unit {0})} (λ q. q ≡ err not_idle)
      (r.failed_closed || (is_some r.inflight || not (is_none r.pending))) (λ _. refl)
      (λ x. absurd (no r.failed_closed _ f x))
  where
    no : (b c : Bool) → b ≡ true → (b || c) ≢ false
    no true c e x = absurd cc
    no false c e x = absurd cc

-- A readback that was in flight and did not return 1 bars the protocol change for good: whatever calls
-- follow, the ledger never counts as idle.
pub failed_read_bars :
    (h : History) (ticket : ℕ) (cs : List Call)
    → h.ledger.inflight ≡ some ticket
    → require_idle (run cs (step (call_complete false) h)).ledger ≡ err not_idle
unfolding step
failed_read_bars h ticket cs e =
    refused_lem (run cs (step (call_complete false) h)).ledger
      (run_failed cs (step (call_complete false) h) (failed_read h.ledger ticket e))
