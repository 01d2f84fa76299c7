-- ===== src/Readbacks/Settled.antt =====
-- The ledger of tools/handover_acceleration/pending_refresh.py is idle: each readback was read back
-- or never began.
use optolink.Base.{
  ℕ, ◌≤◌, ◌≡◌, refl, ◌⊎◌, inl, inr, Bool, true, false, ◌||◌, not, Option, none, some, List, [], ◌∷◌,
  if◌then◌else◌, is_some, arith,
}
use optolink.Base.Result.{Result, ok, err}
use optolink.Readbacks.{
  Readbacks, RefreshError, require_idle, not_idle, Call, run, at_start, is_none,
}
use optolink.Readbacks.Lossless.{IsPending, Occurs, run-IsLossless, at_start-IsLossless}

all_idle :
    (b : Bool) (o : Option ℕ) (ps : List (ℕ × ℕ))
    → (if◌then◌else◌ {A = Result RefreshError (Unit {0})}
        (b || (is_some o || not (is_none ps)))
        (err not_idle)
        (ok tt))
      ≡ ok tt
    → (b ≡ false) × (o ≡ none) × (ps ≡ [])
all_idle true o ps h = absurd cc
all_idle false (some t) ps h = absurd cc
all_idle false none (p ∷ ps) h = absurd cc
all_idle false none [] h = (refl, refl, refl)

pub idle_lem :
    (r : Readbacks)
    → require_idle r ≡ ok tt
    → (r.failed_closed ≡ false) × (r.inflight ≡ none) × (r.pending ≡ [])
unfolding require_idle
idle_lem r h = all_idle r.failed_closed r.inflight r.pending h

-- When the ledger lets a protocol change begin, after any calls in any order from its creation, each
-- ticket that was ever given out was retired by a read that returned 1, or was cancelled because its
-- thread did not start; none is in flight, and no completion failed.
pub require_idle-Settled :
    (cs : List Call)
    → require_idle (run cs at_start).ledger ≡ ok tt
    → ((t : ℕ)
        → 1 ≤ t
        → t ≤ (run cs at_start).ledger.seen
        → Occurs t (run cs at_start).retired ⊎ Occurs t (run cs at_start).cancelled)
      × ((run cs at_start).ledger.inflight ≡ none)
      × ((run cs at_start).ledger.failed_closed ≡ false)
require_idle-Settled cs idle =
    let h = run cs at_start in
    let (n, l) = run-IsLossless cs at_start at_start-IsLossless in
    let (no_failure, no_flight, no_pending) = idle_lem h.ledger idle in
    (
      λ t lo hi. settled t h.ledger.pending no_pending (l t lo (omega (arith, hi, n))),
      no_flight,
      no_failure,
    )
  where
    settled : {A : Type 0} (t : ℕ) (ps : List (ℕ × ℕ)) → ps ≡ [] → IsPending t ps ⊎ A → A
    settled t [] e (inl x) = elim x [ ]
    settled t (p ∷ ps) e x = absurd cc
    settled t [] e (inr x) = x
