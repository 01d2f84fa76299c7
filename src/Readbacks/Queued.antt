-- ===== src/Readbacks/Queued.antt =====
-- The installed callbacks lose no readback to a timer or to the queue.
use optolink.Base.{
  ℕ, zero, suc, ◌+◌, ◌≤◌, ◌≡◌, refl, ap, Bool, true, false, not, Option, none, some, List, [], ◌∷◌,
  ◌++◌, ◌==◌, if◌then◌else◌, is_some, arith, if_elim, All,
}
use optolink.Base.Result.{Result, ok}
use optolink.Readbacks.{
  Readbacks, RefreshError, Item, ticketed, legacy, new_ledger, pending_index, without, register,
  consume, retire, complete_forced, cancel_not_scheduled, require_idle, same_index,
}
use optolink.Readbacks.Settled.{idle_lem}
use optolink.Readbacks.Install.{
  ForceError, Refreshes, installed, is_bounded, registered, tracked_force_delayed, nth, remove_nth,
  worker, tracked_is_forced, Event, forces, wakes, polls, completes, queues, happens, run,
}

-- how often the ticket stands in a list of items
abbrev of_item : ℕ → Item → ℕ
of_item t (ticketed u index) = if t == u then 1 else 0
of_item t (legacy item) = 0

abbrev pub times : ℕ → List Item → ℕ
times t [] = 0
times t (i ∷ is) = of_item t i + times t is

abbrev in_flight : ℕ → Option ℕ → ℕ
in_flight t none = 0
in_flight t (some u) = if t == u then 1 else 0

abbrev entries : ℕ → List (ℕ × ℕ) → ℕ
entries t [] = 0
entries t ((u, i) ∷ ps) = (if t == u then 1 else 0) + entries t ps

-- with its timer, in the queue or in flight
abbrev under_way : ℕ → Refreshes → ℕ
under_way t s = times t s.sleeping + times t s.queue + in_flight t s.ledger.inflight

-- What is under way is pending, and each ticket is pending at most once.
abbrev IsCounted : Refreshes → Type 0
IsCounted s =
    (t : ℕ)
    → (under_way t s ≤ entries t s.ledger.pending)
      × (entries t s.ledger.pending ≤ 1)
      × (s.ledger.next_ticket ≤ t → entries t s.ledger.pending ≡ 0)

times-append : (t : ℕ) (is js : List Item) → times t (is ++ js) ≡ times t is + times t js
times-append t [] js = omega arith
times-append t (i ∷ is) js = omega (arith, times-append t is js)

times-remove :
    (t n : ℕ) (is : List Item) → times t (nth n is) + times t (remove_nth n is) ≡ times t is
times-remove t n [] = omega arith
times-remove t zero (i ∷ is) = omega arith
times-remove t (suc n) (i ∷ is) = omega (arith, times-remove t n is)

entries-without :
    (t u : ℕ) (ps : List (ℕ × ℕ)) → entries t (without u ps) ≡ (if t == u then 0 else entries t ps)
entries-without t u [] = ground arith
entries-without t u ((v, i) ∷ ps) = ground (arith, entries-without t u ps)

-- The upstream `is_forced`: it takes at most one item out of the queue, the one that it gives; what it
-- makes itself is no item of the ledger.
abbrev pub TakesOne : (List Item → Item × List Item) → Type 0
TakesOne prior =
    (queue : List Item) (t : ℕ)
    → of_item t (prior queue).0 + times t (prior queue).1 ≤ times t queue

worker-IsCounted : (n : ℕ) (s : Refreshes) → IsCounted s → IsCounted (worker n s)
unfolding worker
worker-IsCounted n s h t =
    let (a, b, c) = h t in
    (omega (arith, a, times-append t s.queue (nth n s.sleeping), times-remove t n s.sleeping), b, c)

force-IsCounted :
    (index delay : Option ℕ) (starts : Bool) (s : Refreshes)
    → IsCounted s
    → IsCounted (tracked_force_delayed index delay starts s).1
unfolding tracked_force_delayed register cancel_not_scheduled
force-IsCounted index delay starts s h =
    if_elim {A = Result ForceError (Unit {0}) × Refreshes} (λ r. IsCounted r.1)
      (not (is_bounded delay)) (λ _. h) (λ _. cases index starts)
  where
    cases :
        (index : Option ℕ) (starts : Bool)
        → let r = register index s.ledger in
          IsCounted (registered starts r.0 (record s { ledger = r.1 })).1
    cases none starts t = h t
    cases (some i) true t = let (a, b, c) = h t in (ground arith, ground arith, λ le. ground arith)
    cases (some i) false t =
        let (a, b, c) = h t in
        let w = entries-without t s.ledger.next_ticket s.ledger.pending in
        (ground (arith, w), ground (arith, w), λ le. ground (arith, w))

poll-IsCounted :
    (prior : List Item → Item × List Item) (s : Refreshes)
    → TakesOne prior
    → IsCounted s
    → IsCounted (tracked_is_forced prior s).1
unfolding tracked_is_forced consume
poll-IsCounted prior s takes h = cases (prior s.queue).0 (prior s.queue).1 (takes s.queue)
  where
    free : (t : ℕ) (o : Option ℕ) → is_some o ≡ false → in_flight t o ≡ 0
    free t none e = refl
    free t (some u) e = absurd cc

    cases :
        (item : Item) (rest : List Item)
        → ((t : ℕ) → of_item t item + times t rest ≤ times t s.queue)
        → let r = consume item s.ledger in IsCounted (record s { ledger = r.1; queue = rest })
    cases (legacy item) rest k t = let (a, b, c) = h t in (omega (arith, a, k t), b, c)
    cases (ticketed u index) rest k t =
        let P : Result RefreshError (Option ℕ) × Readbacks → Type 0 =
          λ r. IsCounted (record s { ledger = r.1; queue = rest }) in
        (if_elim P (not (same_index (pending_index u s.ledger.pending) index))
            (λ _ t. let (a, b, c) = h t in (omega (arith, a, k t), b, c))
            λ _.
              if_elim P (is_some s.ledger.inflight)
                (λ _ t. let (a, b, c) = h t in (omega (arith, a, k t), b, c))
                (λ e t.
                  let (a, b, c) = h t in (omega (arith, a, k t, free t s.ledger.inflight e), b, c)))
          t

complete-IsCounted :
    (success : Bool) (s : Refreshes)
    → IsCounted s
    → IsCounted (record s { ledger = (complete_forced success s.ledger).1 })
unfolding complete_forced
complete-IsCounted success s h = cases success s.ledger.inflight refl
  where
    retired :
        (u : ℕ)
        → s.ledger.inflight ≡ some u
        → IsCounted (record s { ledger = (retire u s.ledger).1 })
    retired u e =
        if_elim {A = Result RefreshError (Unit {0}) × Readbacks}
          (λ r. IsCounted (record s { ledger = r.1 })) (is_some (pending_index u s.ledger.pending))
          (λ _ t.
            let (a, b, c) = h t in
            let w = entries-without t u s.ledger.pending in
            let f = ap (in_flight t) e in
            (ground (arith, w, f), ground (arith, w), λ le. ground (arith, w)))
          (λ _ t. let (a, b, c) = h t in (omega (arith, a), b, c))

    cases :
        (success : Bool) (o : Option ℕ)
        → s.ledger.inflight ≡ o
        → let r : Result RefreshError (Unit {0}) × Readbacks = elim o [
          | none ↦ (ok tt, s.ledger)
          | some u ↦
              if success
              then retire u s.ledger
              else (ok tt, record s.ledger { inflight = none; failed_closed = true })
        ] in
          IsCounted (record s { ledger = r.1 })
    cases success none e t = h t
    cases false (some u) e t = let (a, b, c) = h t in (omega (arith, a), b, c)
    cases true (some u) e t = retired u e t

happens-IsCounted :
    (prior : List Item → Item × List Item) (e : Event) (s : Refreshes)
    → TakesOne prior
    → IsCounted s
    → IsCounted (happens prior e s)
unfolding happens
happens-IsCounted prior (forces index delay starts) s takes h =
    force-IsCounted index delay starts s h
happens-IsCounted prior (wakes n) s takes h = worker-IsCounted n s h
happens-IsCounted prior polls s takes h = poll-IsCounted prior s takes h
happens-IsCounted prior (completes success) s takes h = complete-IsCounted success s h
happens-IsCounted prior (queues index) s takes h =
    λ t. let (a, b, c) = h t in (omega (arith, a, times-append t s.queue (legacy index ∷ [])), b, c)

run-IsCounted :
    (prior : List Item → Item × List Item) (es : List Event) (s : Refreshes)
    → TakesOne prior
    → IsCounted s
    → IsCounted (run prior es s)
unfolding run
run-IsCounted prior [] s takes h = h
run-IsCounted prior (e ∷ es) s takes h =
    run-IsCounted prior es (happens prior e s) takes (happens-IsCounted prior e s takes h)

-- The queue may hold naked indices at the installation.
abbrev pub IsNaked : Item → Type 0
IsNaked (ticketed ticket index) = ⊥
IsNaked (legacy item) = Unit

-- After an installation on a queue of naked indices, whatever happens in whatever order: when the ledger
-- lets a protocol change begin, no timer still sleeps with a readback, none waits in the queue, and
-- none is in flight. An empty queue alone never counts as idle.
pub require_idle-NothingSleeps :
    (prior : List Item → Item × List Item) (queue : List Item) (es : List Event)
    → TakesOne prior
    → All IsNaked queue
    → require_idle (run prior es (installed new_ledger queue)).ledger ≡ ok tt
    → let s = run prior es (installed new_ledger queue) in
      ((t : ℕ) → times t s.sleeping + times t s.queue ≡ 0) × (s.ledger.inflight ≡ none)
require_idle-NothingSleeps prior queue es takes naked idle =
    let s = run prior es (installed new_ledger queue) in
    let h = run-IsCounted prior es (installed new_ledger queue) takes (starts queue naked) in
    let (_, no_flight, no_pending) = idle_lem s.ledger idle in
    (λ t. none_left t s (h t).0 (ap (entries t) no_pending), no_flight)
  where
    times-naked : (t : ℕ) (queue : List Item) → All IsNaked queue → times t queue ≡ 0
    times-naked t [] h = refl
    times-naked t (legacy item ∷ is) h = omega (arith, times-naked t is h.1)
    times-naked t (ticketed u index ∷ is) h = absurd h.0

    starts : (queue : List Item) → All IsNaked queue → IsCounted (installed new_ledger queue)
    starts queue h t = (omega (arith, times-naked t queue h), omega arith, λ le. refl)

    none_left :
        (t : ℕ) (s : Refreshes)
        → under_way t s ≤ entries t s.ledger.pending
        → entries t s.ledger.pending ≡ 0
        → times t s.sleeping + times t s.queue ≡ 0
    none_left t s a e = omega (arith, a, e)
