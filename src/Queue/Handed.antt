-- ===== src/Queue/Handed.antt =====
-- The ticket that `take` of BoundedReadQueue (tools/handover_acceleration/scheduler.py) hands out: the
-- oldest unexpired request of its protocol.
use optolink.Base.{
  ℕ, ◌+◌, ◌≤◌, ◌<◌, ◌≡◌, Bool, true, false, not, Option, none, some, List, [], ◌∷◌, arith, ap, ◌∙◌,
  inl, inr, Option-cases, if_elim, first, remove_first, some_of, is_some, keep, refl, if◌then◌else◌,
}
use mathlib.Core.Path.{sym}
use optolink.Reads.{Protocol, vs1, p300, mode_of, other_mode, queued, running}
use optolink.Base.Result.{Result, ok}
use optolink.Queue.Order.{Between-keep, first-Between}
use optolink.Queue.Valid.{IsSound}
use optolink.Queue.{
  Ticket, Queue, QueueError, is_due, with_state, expire, take, take_pending, take_guarded,
  bind_consumer, owned_by, select, has_sequence, in_mode, desired_mode, repeats, Preference,
  anything, prefer, unknown_mode,
}

-- the tickets among which `take` chooses
abbrev pub waiting : ℕ → Queue → List Ticket
waiting now q = keep (λ t. not (is_due now t)) q.pending

some_of-first : (p : Ticket → Bool) (ts : List Ticket) → first p ts ≡ none → some_of p ts ≡ false
some_of-first p [] h = refl
some_of-first p (t ∷ ts) h = ground (arith, some_of-first p ts)

first-passes :
    (p : Ticket → Bool) (ts : List Ticket) (t : Ticket) → first p ts ≡ some t → p t ≡ true
first-passes p [] t h = cc
first-passes p (x ∷ ts) t h = ground (arith, first-passes p ts t)

-- The protocol that `take` settles on has a request waiting.
desired_waits :
    (q : Queue) (p : Preference) (l : Option Protocol) (t : Ticket) (ts : List Ticket)
    → q.pending ≡ t ∷ ts
    → some_of (in_mode (desired_mode q p l (mode_of t.kind))) q.pending ≡ true
desired_waits q p l t ts e = ground arith

-- the state in which `select` leaves the queue when it hands out `o`
abbrev after_select : Protocol → Ticket → Queue → Queue
after_select m o q = record q {
  pending = remove_first (has_sequence o.sequence) q.pending;
  inflight = some (with_state running o);
  last_mode = some m;
  same_mode_count = if repeats q.last_mode m then q.same_mode_count + 1 else 1;
}

select_lem :
    (m : Protocol) (q : Queue) (o : Ticket)
    → first (in_mode m) q.pending ≡ some o
    → select m q ≡ (ok (some (with_state running o)), after_select m o q)
unfolding select
select_lem m q o e = rw (e, select)

-- A queue with a ticket pending hands one out, in the protocol that `desired_mode` names.
pub take_pending_lem :
    (p : Preference) (q : Queue) (t : Ticket) (ts : List Ticket)
    → q.pending ≡ t ∷ ts
    → let m = desired_mode q p q.last_mode (mode_of t.kind) in
      (o : Ticket) × (first (in_mode m) q.pending ≡ some o)
      × (take_pending p (t ∷ ts) q ≡ (ok (some (with_state running o)), after_select m o q))
unfolding take_pending
take_pending_lem p q t ts e =
    let m = desired_mode q p q.last_mode (mode_of t.kind) in
    elim (Option-cases (first (in_mode m) q.pending)) [
      | inl missing ↦
          absurd
            (cc (some_of-first (in_mode m) q.pending missing, desired_waits q p q.last_mode t ts e))
      | inr (o, found) ↦ (o, found, select_lem m q o found)
    ]

-- After `max_same_mode` requests of one protocol the other one's turn has come, if it waits.
after_select_fair :
    (p : Preference) (q : Queue) (t o : Ticket) (ts : List Ticket)
    → 1 ≤ q.max_same_mode
    → q.pending ≡ t ∷ ts
    → let m = desired_mode q p q.last_mode (mode_of t.kind) in
      some_of (in_mode (other_mode m)) q.pending ≡ true
      → (after_select m o q).same_mode_count ≤ q.max_same_mode
after_select_fair p q t o ts h e w = fair p q t q.last_mode h w
  where
    fair :
        (p : Preference) (q : Queue) (t : Ticket) (l : Option Protocol)
        → 1 ≤ q.max_same_mode
        → some_of (in_mode (other_mode (desired_mode q p l (mode_of t.kind)))) q.pending ≡ true
        → (if repeats l (desired_mode q p l (mode_of t.kind)) then q.same_mode_count + 1 else 1)
          ≤ q.max_same_mode
    fair p q t none h w = ground arith
    fair p q t (some vs1) h w = ground arith
    fair p q t (some p300) h w = ground arith

-- What a `take` that handed out `t` has done.
pub record Handed (now : ℕ) (q q' : Queue) (t : Ticket) : Type 0 where
  pub oldest : first (in_mode (mode_of t.kind)) (waiting now q) ≡ some (with_state queued t)
  pub is_running : t.state ≡ running
  pub unexpired : now < t.deadline
  pub on_wire : q'.inflight ≡ some t
  pub others_wait : q'.pending ≡ remove_first (has_sequence t.sequence) (waiting now q)
  pub last : q'.last_mode ≡ some (mode_of t.kind)
  pub share :
      some_of (in_mode (other_mode (mode_of t.kind))) (waiting now q) ≡ true
      → q'.same_mode_count ≤ q.max_same_mode

first-waiting :
    (p : Ticket → Bool) (now : ℕ) (ts : List Ticket) (t : Ticket)
    → first p (keep (λ x. not (is_due now x)) ts) ≡ some t
    → now < t.deadline
first-waiting p now [] t h = cc
first-waiting p now (x ∷ ts) t h = ground (arith, first-waiting p now ts t)

in_mode-eq : (m : Protocol) (t : Ticket) → in_mode m t ≡ true → mode_of t.kind ≡ m
in_mode-eq m t h = ground arith

still_waiting :
    (a b : Protocol) (xs ys : List Ticket)
    → a ≡ b
    → ys ≡ xs
    → some_of (in_mode (other_mode a)) xs ≡ true
    → some_of (in_mode (other_mode b)) ys ≡ true
still_waiting a b xs ys ab same w = rw (← ab, same) w

serve :
    (now : ℕ) (q e : Queue) (p : Preference) (ts : List Ticket) {t : Ticket} {q' : Queue}
    → IsSound q
    → e.pending ≡ waiting now q
    → e.max_same_mode ≡ q.max_same_mode
    → e.pending ≡ ts
    → take_pending p ts e ≡ (ok (some t), q')
    → Handed now q q' t
serve now q e p [] v same share is_ts h = absurd (unfold take_pending in cc h)
serve now q e p (x ∷ ts) {t} {q'} v same share is_ts h =
    let m = desired_mode e p e.last_mode (mode_of x.kind) in
    let (o, found, result) = take_pending_lem p e x ts is_ts in
    let is_t : with_state running o ≡ t = cc (result, h) in
    let is_q' : after_select m o e ≡ q' = cc (result, h) in
    let found_waiting : first (in_mode m) (waiting now q) ≡ some o = rw (← same) found in
    let mode_o : mode_of o.kind ≡ m = in_mode-eq m o (first-passes (in_mode m) e.pending o found) in
    let (_, _, _, o_queued) =
      first-Between (in_mode m) 1 q.next_sequence (waiting now q) o
        (Between-keep (λ x. not (is_due now x)) 1 q.next_sequence q.pending v.ordered)
        found_waiting in
    rw (← is_t, ← is_q')
      (record {
        oldest = rw mode_o (found_waiting ∙ ap some (ground arith));
        is_running = refl;
        unexpired = first-waiting (in_mode m) now q.pending o found_waiting;
        on_wire = refl;
        others_wait = ap (remove_first (has_sequence o.sequence)) same;
        last = ap some (sym mode_o);
        share = λ w. rw (← share) (
            after_select_fair p e x o ts (rw share v.has_share) is_ts
              (still_waiting (mode_of o.kind) m (waiting now q) e.pending mode_o same w));
      })

take_guarded-Handed :
    (p : Preference) (caller now : ℕ) (q : Queue) {t : Ticket} {q' : Queue}
    → IsSound q
    → take_guarded p caller now q ≡ (ok (some t), q')
    → Handed now q q' t
unfolding take_guarded
take_guarded-Handed p caller now q {t} {q'} v =
    let P : Result QueueError (Option Ticket) × Queue → Type 0 =
      λ r. r ≡ (ok (some t), q') → Handed now q q' t in
    let b : Queue = bind_consumer caller q in
    if_elim P q.closed (λ _ h. cc)
      λ _.
        if_elim P (not (owned_by caller b.consumer)) (λ _ h. cc)
          λ _.
            if_elim P (is_some b.inflight) (λ _ h. cc)
              λ _ h.
                let e : Queue = expire now b in
                serve now q e p e.pending v (unfold expire in refl) (unfold expire in refl) refl h

pub take-Handed :
    (p : Preference) (caller now : ℕ) (q : Queue) {t : Ticket} {q' : Queue}
    → IsSound q
    → take p caller now q ≡ (ok (some t), q')
    → Handed now q q' t
unfolding take
take-Handed unknown_mode caller now q v h = absurd (cc h)
take-Handed anything caller now q v h = take_guarded-Handed anything caller now q v h
take-Handed (prefer m) caller now q v h = take_guarded-Handed (prefer m) caller now q v h
