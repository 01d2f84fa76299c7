-- ===== src/Readbacks/Lossless.antt =====
-- The ledger loses no readback: when it is idle, each one was read back or never began.
use optolink.Base.{
  ℕ, ◌+◌, ◌≤◌, ◌<◌, ◌≡◌, refl, ◌⊎◌, inl, inr, Bool, true, false, not, Option, none, some, List, [],
  ◌∷◌, ◌++◌, ◌==◌, if◌then◌else◌, is_some, arith, Any, if_elim, Bool-cases,
}
use optolink.Base.Result.{Result, ok, err}
use optolink.Readbacks.{
  Readbacks, RefreshError, Item, ticketed, legacy, pending_index, without, register, consume,
  retire, complete_forced, cancel_not_scheduled, missing_key, Call, call_register, call_consume,
  call_complete, call_cancel, History, retires, step, run, at_start, same_index,
}

-- the ticket is still pending
abbrev pub IsPending : ℕ → List (ℕ × ℕ) → Type 0
IsPending t = Any (λ p. t ≡ p.0)

-- the ticket is in the list
abbrev pub Occurs : ℕ → List ℕ → Type 0
Occurs t = Any (λ u. t ≡ u)

-- Each ticket given out is pending, was retired or was cancelled; as many were given out as were seen.
abbrev IsLossless : History → Type 0
IsLossless h =
    (h.ledger.next_ticket ≡ h.ledger.seen + 1)
    × ((t : ℕ)
        → 1 ≤ t
        → t < h.ledger.next_ticket
        → IsPending t h.ledger.pending ⊎ (Occurs t h.retired ⊎ Occurs t h.cancelled))

IsPending-without :
    (t u : ℕ) (ps : List (ℕ × ℕ)) → IsPending t ps → (t ≡ u) ⊎ IsPending t (without u ps)
IsPending-without t u [] h = elim h [ ]
IsPending-without t u ((v, i) ∷ ps) (inl x) =
    if_elim (λ qs. (t ≡ u) ⊎ IsPending t qs) (u == v) (λ e. inl (ground arith)) (λ _. inr (inl x))
IsPending-without t u ((v, i) ∷ ps) (inr x) =
    let rest = IsPending-without t u ps x in
    if_elim (λ qs. (t ≡ u) ⊎ IsPending t qs) (u == v) (λ _. rest) (λ _. onto rest)
  where
    onto : (t ≡ u) ⊎ IsPending t (without u ps) → (t ≡ u) ⊎ IsPending t ((v, i) ∷ without u ps)
    onto (inl y) = inl y
    onto (inr y) = inr (inr y)

Occurs-append : (t : ℕ) (xs ys : List ℕ) → Occurs t ys → Occurs t (xs ++ ys)
Occurs-append t [] ys h = h
Occurs-append t (x ∷ xs) ys h = inr (Occurs-append t xs ys h)

Occurs-front : (t : ℕ) (xs ys : List ℕ) → Occurs t xs → Occurs t (xs ++ ys)
Occurs-front t [] ys h = elim h [ ]
Occurs-front t (x ∷ xs) ys (inl e) = inl e
Occurs-front t (x ∷ xs) ys (inr h) = inr (Occurs-front t xs ys h)

-- The counters stay, and a pending ticket stays pending or is among the retired.
abbrev Keeps : Readbacks → Readbacks → List ℕ → Type 0
Keeps r r' gone =
    (r'.next_ticket ≡ r.next_ticket)
    × (r'.seen ≡ r.seen)
    × ((t : ℕ) → IsPending t r.pending → IsPending t r'.pending ⊎ Occurs t gone)

retire-Keeps :
    (ticket : ℕ) (r : Readbacks)
    → Keeps r
        (retire ticket r).1
        (if is_some (pending_index ticket r.pending) then ticket ∷ [] else [])
retire-Keeps ticket r = cases (is_some (pending_index ticket r.pending))
  where
    swap :
        (t : ℕ)
        → (t ≡ ticket) ⊎ IsPending t (without ticket r.pending)
        → IsPending t (without ticket r.pending) ⊎ Occurs t (ticket ∷ [])
    swap t (inl e) = inr (inl e)
    swap t (inr h) = inl h

    cases :
        (b : Bool)
        → Keeps r
            (if◌then◌else◌ {A = Result RefreshError (Unit {0}) × Readbacks} b
              (ok tt, record r { pending = without ticket r.pending; inflight = none })
              (err missing_key, record r { inflight = none })).1
            (if b then ticket ∷ [] else [])
    cases true = (refl, refl, λ t h. swap t (IsPending-without t ticket r.pending h))
    cases false = (refl, refl, λ t h. inl h)

complete_forced-Keeps :
    (success : Bool) (r : Readbacks) → Keeps r (complete_forced success r).1 (retires success r)
unfolding complete_forced
complete_forced-Keeps true r = cases r.inflight
  where
    cases :
        (o : Option ℕ)
        → Keeps r
            (elim o as (λ _. Result RefreshError (Unit {0}) × Readbacks) [
              | none ↦ (ok tt, r)
              | some ticket ↦ retire ticket r
            ]).1
            (elim o as (λ _. List ℕ) [
              | none ↦ []
              | some ticket ↦ if is_some (pending_index ticket r.pending) then ticket ∷ [] else []
            ])
    cases none = (refl, refl, λ t h. inl h)
    cases (some ticket) = retire-Keeps ticket r
complete_forced-Keeps false r = cases r.inflight
  where
    cases :
        (o : Option ℕ)
        → Keeps r
            (elim o as (λ _. Result RefreshError (Unit {0}) × Readbacks) [
              | none ↦ (ok tt, r)
              | some ticket ↦ (ok tt, record r { inflight = none; failed_closed = true })
            ]).1
            []
    cases none = (refl, refl, λ t h. inl h)
    cases (some ticket) = (refl, refl, λ t h. inl h)

consume-Keeps : (item : Item) (r : Readbacks) → Keeps r (consume item r).1 []
unfolding consume
consume-Keeps (legacy item) r = (refl, refl, λ t h. inl h)
consume-Keeps (ticketed ticket index) r =
    let P : Result RefreshError (Option ℕ) × Readbacks → Type 0 = λ q. Keeps r q.1 [] in
    if_elim P (not (same_index (pending_index ticket r.pending) index))
      (λ _. (refl, refl, λ t h. inl h))
      λ _.
        if_elim P (is_some r.inflight) (λ _. (refl, refl, λ t h. inl h))
          (λ _. (refl, refl, λ t h. inl h))

-- the invariant after a call that keeps the pending tickets or retires them
Keeps-IsLossless :
    (h : History) (r : Readbacks) (gone : List ℕ)
    → Keeps h.ledger r gone
    → IsLossless h
    → IsLossless (record h { ledger = r; retired = gone ++ h.retired })
Keeps-IsLossless h r gone (e, f, k) (n, l) =
    (omega (arith, e, f, n), λ t lo hi. cases t (l t lo (omega (arith, hi, e))))
  where
    moved :
        (t : ℕ)
        → IsPending t r.pending ⊎ Occurs t gone
        → IsPending t r.pending ⊎ (Occurs t (gone ++ h.retired) ⊎ Occurs t h.cancelled)
    moved t (inl x) = inl x
    moved t (inr x) = inr (inl (Occurs-front t gone h.retired x))

    cases :
        (t : ℕ)
        → IsPending t h.ledger.pending ⊎ (Occurs t h.retired ⊎ Occurs t h.cancelled)
        → IsPending t r.pending ⊎ (Occurs t (gone ++ h.retired) ⊎ Occurs t h.cancelled)
    cases t (inl x) = moved t (k t x)
    cases t (inr (inl x)) = inr (inl (Occurs-append t gone h.retired x))
    cases t (inr (inr x)) = inr (inr x)

step-IsLossless : (c : Call) (h : History) → IsLossless h → IsLossless (step c h)
unfolding step register cancel_not_scheduled
step-IsLossless (call_register none) h l = l
step-IsLossless (call_register (some i)) h (n, l) = (
  omega (arith, n),
  λ t lo hi. elim (Bool-cases (t == h.ledger.next_ticket)) [
    | inl e ↦ inl (inl (ground arith))
    | inr e ↦ shift t (l t lo (ground arith))
  ],
)
  where
    shift :
        (t : ℕ)
        → IsPending t h.ledger.pending ⊎ (Occurs t h.retired ⊎ Occurs t h.cancelled)
        → IsPending t ((h.ledger.next_ticket, i) ∷ h.ledger.pending)
          ⊎ (Occurs t h.retired ⊎ Occurs t h.cancelled)
    shift t (inl x) = inl (inr x)
    shift t (inr x) = inr x
step-IsLossless (call_consume item) h l =
    Keeps-IsLossless h (consume item h.ledger).1 [] (consume-Keeps item h.ledger) l
step-IsLossless (call_complete success) h l =
    Keeps-IsLossless h (complete_forced success h.ledger).1 (retires success h.ledger)
      (complete_forced-Keeps success h.ledger) l
step-IsLossless (call_cancel ticket) h (n, l) = (n, λ t lo hi. cases t (l t lo hi))
  where
    moved :
        (t : ℕ)
        → (t ≡ ticket) ⊎ IsPending t (without ticket h.ledger.pending)
        → IsPending t (without ticket h.ledger.pending)
          ⊎ (Occurs t h.retired ⊎ Occurs t (ticket ∷ h.cancelled))
    moved t (inl e) = inr (inr (inl e))
    moved t (inr x) = inl x

    cases :
        (t : ℕ)
        → IsPending t h.ledger.pending ⊎ (Occurs t h.retired ⊎ Occurs t h.cancelled)
        → IsPending t (without ticket h.ledger.pending)
          ⊎ (Occurs t h.retired ⊎ Occurs t (ticket ∷ h.cancelled))
    cases t (inl x) = moved t (IsPending-without t ticket h.ledger.pending x)
    cases t (inr (inl x)) = inr (inl x)
    cases t (inr (inr x)) = inr (inr (inr x))

pub run-IsLossless : (cs : List Call) (h : History) → IsLossless h → IsLossless (run cs h)
unfolding run
run-IsLossless [] h l = l
run-IsLossless (c ∷ cs) h l = run-IsLossless cs (step c h) (step-IsLossless c h l)

pub at_start-IsLossless : IsLossless at_start
at_start-IsLossless = (refl, λ t lo hi. absurd (omega (arith, lo, hi)))
