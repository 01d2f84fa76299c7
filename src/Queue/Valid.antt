-- ===== src/Queue/Valid.antt =====
-- The invariant of the queue, and that every call keeps it.
use optolink.Base.{
  ℕ, ◌+◌, ◌≤◌, ◌≡◌, Bool, true, false, not, Option, none, some, List, [], ◌∷◌, ◌∙◌, map, arith, inl,
  inr, if_elim, Option-cases, length, length-append, length-keep, keep, first, All, All-append,
  refl, leb,
}
use optolink.Reads.{
  ReadKind, TicketState, queued, running, expired, cancelled, is_settled, Quantity, micros,
  negative, not_finite,
}
use optolink.Base.Result.{Result, ok}
use optolink.Queue.{
  bind_consumer, Ticket, Queue, QueueError, create, is_due, with_state, expire, submit, cancel,
  enqueue, submit_valid, has_sequence,
}
use optolink.Queue.Order.{
  Between, Between-append, Between-keep, Between-remove_first, length-remove_first,
}

abbrev pub Settled : Ticket → Type 0
Settled t = is_settled t.state ≡ true

-- how many requests are on the wire
abbrev pub on_wire : Option Ticket → ℕ
on_wire none = 0
on_wire (some t) = 1

abbrev pub IsRunning : Option Ticket → Type 0
IsRunning none = Unit
IsRunning (some t) = t.state ≡ running

-- Capacity and bounds, distinct queued tickets in order of arrival, one running ticket at most, and
-- an account of every ticket ever issued: it waits, is on the wire, or has left in a final state.
pub record IsSound (q : Queue) : Type 0 where
  pub has_room : 1 ≤ q.capacity
  pub has_share : 1 ≤ q.max_same_mode
  pub bounded : length q.pending ≤ q.capacity
  pub ordered : Between 1 q.next_sequence q.pending
  pub one_running : IsRunning q.inflight
  pub settled : All Settled q.left
  pub accounted : length q.pending + on_wire q.inflight + length q.left + 1 ≡ q.next_sequence
  pub closed_idle : q.closed ≡ true → (length q.pending ≡ 0) × (on_wire q.inflight ≡ 0)

-- the state that a method leaves, whether it returned or raised
abbrev pub Leaves : {A : Type 0} → Result QueueError A × Queue → Type 0
Leaves r = IsSound r.1

pub create-IsSound : (c m : Option ℕ) {q : Queue} → create c m ≡ ok q → IsSound q
unfolding create
create-IsSound c m {q} h = ground arith

pub length-map {ℓ κ} :
    {A : Type ℓ} {B : Type κ} (f : A → B) (xs : List A) → length (map f xs) ≡ length xs
length-map f [] = refl
length-map f (x ∷ xs) = omega (arith, length-map f xs)

pub All-map-state :
    (s : TicketState) (ts : List Ticket) → is_settled s ≡ true → All Settled (map (with_state s) ts)
All-map-state s [] h = tt
All-map-state s (t ∷ ts) h = (h, All-map-state s ts h)

length-keep_split :
    (p : Ticket → Bool) (ts : List Ticket)
    → length (keep (λ t. not (p t)) ts) + length (keep p ts) ≡ length ts
length-keep_split p [] = refl
length-keep_split p (t ∷ ts) = ground (arith, length-keep_split p ts)

pub expire-IsSound : (now : ℕ) (q : Queue) → IsSound q → IsSound (expire now q)
unfolding expire
expire-IsSound now q v = record {
  has_room = v.has_room;
  has_share = v.has_share;
  bounded = omega (arith, length-keep (λ t. not (is_due now t)) q.pending, v.bounded);
  ordered = Between-keep (λ t. not (is_due now t)) 1 q.next_sequence q.pending v.ordered;
  one_running = v.one_running;
  settled = All-append Settled q.left _ v.settled (All-map-state expired _ refl);
  accounted = omega (
    arith,
    v.accounted,
    length-append q.left (map (with_state expired) (keep (is_due now) q.pending)),
    length-map (with_state expired) (keep (is_due now) q.pending),
    length-keep_split (is_due now) q.pending,
  );
  closed_idle =
      λ c. omega (arith, v.closed_idle c, length-keep (λ t. not (is_due now t)) q.pending);
}

enqueue-IsSound :
    (k : ReadKind) (ttl now : ℕ) (q : Queue)
    → IsSound q
    → q.closed ≡ false
    → leb q.capacity (length q.pending) ≡ false
    → IsSound (enqueue k ttl now q).1
unfolding enqueue
enqueue-IsSound k ttl now q v open_yet room =
    let t : Ticket = record {
      sequence = q.next_sequence;
      kind = k;
      enqueued_at = now;
      deadline = now + ttl;
      state = queued;
    } in
    ground (
      arith,
      length-append q.pending (t ∷ []),
      Between-append 1 q.next_sequence q.pending t v.ordered,
    )

submit_valid-IsSound :
    (k : ReadKind) (ttl now₁ now₂ : ℕ) (q : Queue)
    → IsSound q
    → IsSound (submit_valid k ttl now₁ now₂ q).1
unfolding submit_valid
submit_valid-IsSound k ttl now₁ now₂ q v =
    if_elim (Leaves {A = Ticket}) q.closed (λ _. v)
      λ open_yet.
        let w : IsSound (expire now₁ q) = expire-IsSound now₁ q v in
        let unchanged : (expire now₁ q).closed ≡ q.closed = unfold expire in refl in
        if_elim (Leaves {A = Ticket})
          (leb (expire now₁ q).capacity (length (expire now₁ q).pending)) (λ _. w)
          (λ room. enqueue-IsSound k ttl now₂ (expire now₁ q) w (unchanged ∙ open_yet) room)

pub submit-IsSound :
    (k : Option ReadKind) (ttl : Quantity) (now₁ now₂ : ℕ) (q : Queue)
    → IsSound q
    → IsSound (submit k ttl now₁ now₂ q).1
unfolding submit
submit-IsSound none ttl now₁ now₂ q v = v
submit-IsSound (some k) not_finite now₁ now₂ q v = v
submit-IsSound (some k) negative now₁ now₂ q v = v
submit-IsSound (some k) (micros ttl) now₁ now₂ q v =
    ground (arith, submit_valid-IsSound k ttl now₁ now₂ q v)

pub cancel-IsSound : (n : ℕ) (q : Queue) → IsSound q → IsSound (cancel n q).1
unfolding cancel
cancel-IsSound n q v = elim (Option-cases (first (has_sequence n) q.pending)) [
  | inl missing ↦ ground arith
  | inr (t, e) ↦ ground (
    arith,
    length-remove_first (has_sequence n) q.pending t e,
    length-append q.left (with_state cancelled t ∷ []),
    All-append Settled q.left (with_state cancelled t ∷ []),
    Between-remove_first (has_sequence n) 1 q.next_sequence q.pending v.ordered,
  )
]

pub bind_consumer-IsSound : (caller : ℕ) (q : Queue) → IsSound q → IsSound (bind_consumer caller q)
bind_consumer-IsSound caller q v = record {
  has_room = v.has_room;
  has_share = v.has_share;
  bounded = v.bounded;
  ordered = v.ordered;
  one_running = v.one_running;
  settled = v.settled;
  accounted = v.accounted;
  closed_idle = v.closed_idle;
}
