-- ===== src/Batcher/Latch.antt =====
-- A failed batch closes the batcher for good, and only a verified return completes a ticket.
use optolink.Base.{ℕ, ◌≡◌, ◌≢◌, Bool, true, Option, some, List, [], ◌∷◌, arith, ◌≤◌}
use optolink.Base.Result.{Result, ok}
use optolink.Reads.{ReadKind, Quantity, completed}
use optolink.Planner.{Budget}
use optolink.Batcher.{
  Batcher, BatchError, DemandTicket, DemandSelection, submit, cancel, pending_count,
}
use optolink.Batcher.Offer.{select}
use optolink.Batcher.Served.{
  Call, call_submit, call_pending_count, call_cancel, call_select, call_reserve, call_complete,
  step, run, reserve, complete,
}

abbrev Shut : {A : Type 0} → Result BatchError A × Batcher → Type 0
Shut r = r.1.failed_closed ≡ true

-- Once the latch is set it stays set.
step-failed_closed :
    (c : Call) (b : Batcher) → b.failed_closed ≡ true → (step c b).failed_closed ≡ true
unfolding step submit pending_count cancel select reserve complete
step-failed_closed (call_submit k ttl now₁ now₂) b h = ground arith
step-failed_closed (call_pending_count now) b h = h
step-failed_closed (call_cancel n) b h = ground arith
step-failed_closed (call_select c g a now₁ now₂ now₃ now₄) b h = ground arith
step-failed_closed (call_reserve c s now₁ now₂) b h = ground arith
step-failed_closed (call_complete c s v now) b h = ground arith

run-failed_closed :
    (cs : List Call) (b : Batcher) → b.failed_closed ≡ true → (run cs b).failed_closed ≡ true
unfolding run
run-failed_closed [] b h = h
run-failed_closed (c ∷ cs) b h = run-failed_closed cs (step c b) (step-failed_closed c b h)

-- what a shut batcher refuses: admission, selection and reservation
abbrev pub Refuses : Batcher → Type 0
Refuses b =
    ((k : Option ReadKind) (ttl : Quantity) (now₁ now₂ : ℕ) (t : DemandTicket)
      → (submit k ttl now₁ now₂ b).0 ≢ ok t)
    × ((c : ℕ) (g : Option Budget) (a : Quantity) (now₁ now₂ now₃ now₄ : ℕ) (s : DemandSelection)
        → (select c g a now₁ now₂ now₃ now₄ b).0 ≢ ok (some s))
    × ((c : ℕ) (s : Option ℕ) (now₁ now₂ : ℕ) → (reserve c s now₁ now₂ b).0 ≢ ok tt)

Refuses-of_failed : (b : Batcher) → b.failed_closed ≡ true → Refuses b
unfolding submit select reserve
Refuses-of_failed b h = (
  λ k ttl now₁ now₂ t e. ground arith,
  λ c g a now₁ now₂ now₃ now₄ s e. ground arith,
  λ c s now₁ now₂ e. ground arith,
)

-- After a batch has failed, whatever calls follow, no read is admitted, no batch is selected and
-- none is reserved.
pub failed_closed-Refuses :
    (cs : List Call) (b : Batcher) → b.failed_closed ≡ true → Refuses (run cs b)
failed_closed-Refuses cs b h = Refuses-of_failed (run cs b) (run-failed_closed cs b h)

-- a ticket may only be called completed by a successful read with a verified return, in time
abbrev pub Earned : Bool → Bool → ℕ → DemandTicket → Type 0
Earned success verified now t =
    t.state ≡ completed → (success ≡ true) × (verified ≡ true) × (now ≤ t.expires_at)
