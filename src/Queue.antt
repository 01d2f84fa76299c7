-- ===== src/Queue.antt =====
-- `BoundedReadQueue` of tools/handover_acceleration/scheduler.py: one definition for each method.
-- Every method runs under the queue's lock, so it is one step; a reading of the clock is an
-- argument, one for each call of `self.clock()`, and so is the caller's thread.
pub mod Order
pub mod Valid
pub mod Account
pub mod Invariant
pub mod Handed
pub mod Take
use optolink.Base.{
  ℕ, ◌+◌, Bool, true, false, not, ◌&&◌, Option, none, some, List, [], ◌∷◌, ◌++◌, map, leb, ◌==◌,
  if◌then◌else◌, length, keep, first, remove_first, some_of, is_some,
}
use optolink.Base.Result.{Result, ok, err}
use optolink.Reads.{
  ReadKind, Protocol, mode_of, same_mode, other_mode, TicketState, queued, running, completed,
  failed, cancelled, expired, is_queued, is_running, Quantity, not_finite, negative, micros,
}

-- `Ticket`; a producer's reference to one is its sequence number
pub record Ticket : Type 0 where
  pub sequence : ℕ
  pub kind : ReadKind
  pub enqueued_at : ℕ
  pub deadline : ℕ
  pub state : TicketState

-- `left` holds the tickets that no field of the object holds any more, with the state in which
-- those who still hold a reference find them.
pub record Queue : Type 0 where
  pub capacity : ℕ
  pub max_same_mode : ℕ
  pub pending : List Ticket
  pub inflight : Option Ticket
  pub left : List Ticket
  pub consumer : Option ℕ
  pub last_mode : Option Protocol
  pub same_mode_count : ℕ
  pub next_sequence : ℕ
  pub closed : Bool

-- The `raise` statements, in the order of the source; `no_candidate` is the `StopIteration` that
-- `next` in `take` would raise.
pub data QueueError : Type 0 where
  bad_bounds unknown_kind bad_deadline queue_closed queue_full invalid_mode other_consumer :
      QueueError
  request_in_flight no_candidate not_owner not_in_flight not_boolean busy_frame : QueueError

-- `__init__`; an argument that is no integer is `none`
unfoldable pub create : Option ℕ → Option ℕ → Result QueueError Queue
create (some (ℕ.suc c)) (some (ℕ.suc m)) = ok (record {
  capacity = ℕ.suc c;
  max_same_mode = ℕ.suc m;
  pending = [];
  inflight = none;
  left = [];
  consumer = none;
  last_mode = none;
  same_mode_count = 0;
  next_sequence = 1;
  closed = false;
})
create _ _ = err bad_bounds

abbrev pub is_due : ℕ → Ticket → Bool
is_due now t = leb t.deadline now

abbrev pub with_state : TicketState → Ticket → Ticket
with_state s t = record t { state = s }

-- `_expire`
unfoldable pub expire : ℕ → Queue → Queue
expire now q = record q {
  pending = keep (λ t. not (is_due now t)) q.pending;
  left = q.left ++ map (with_state expired) (keep (is_due now) q.pending);
}

-- the end of `submit`, once a place is known to be free
enqueue : ReadKind → ℕ → ℕ → Queue → Result QueueError Ticket × Queue
enqueue kind ttl now q =
    let t : Ticket = record {
      sequence = q.next_sequence;
      kind = kind;
      enqueued_at = now;
      deadline = now + ttl;
      state = queued;
    } in
    (ok t, record q { pending = q.pending ++ t ∷ []; next_sequence = q.next_sequence + 1 })

-- `submit` behind its type and range checks
submit_valid : ReadKind → ℕ → ℕ → ℕ → Queue → Result QueueError Ticket × Queue
submit_valid kind ttl now₁ now₂ q =
    if q.closed
    then (err queue_closed, q)
    else let e = expire now₁ q in
      if leb e.capacity (length e.pending) then (err queue_full, e) else enqueue kind ttl now₂ e

-- `submit`: the first reading of the clock is `_expire`'s, the second the time of admission
unfoldable pub submit :
    Option ReadKind → Quantity → ℕ → ℕ → Queue → Result QueueError Ticket × Queue
unfolding submit_valid enqueue expire
submit none ttl now₁ now₂ q = (err unknown_kind, q)
submit (some kind) not_finite now₁ now₂ q = (err bad_deadline, q)
submit (some kind) negative now₁ now₂ q = (err bad_deadline, q)
submit (some kind) (micros ttl) now₁ now₂ q =
    if ttl == 0 then (err bad_deadline, q) else submit_valid kind ttl now₁ now₂ q

abbrev pub has_sequence : ℕ → Ticket → Bool
has_sequence n t = t.sequence == n

-- `cancel`: a ticket that is not pending, or not queued, is left alone
unfoldable pub cancel : ℕ → Queue → Bool × Queue
cancel n q = elim (first (has_sequence n) q.pending) [
  | none ↦ (false, q)
  | some t ↦
      if is_queued t.state
      then (
        true,
        record q {
          pending = remove_first (has_sequence n) q.pending;
          left = q.left ++ with_state cancelled t ∷ [];
        },
      )
      else (false, q)
]

-- the `preferred_mode` argument of `take`
pub data Preference : Type 0 where
  anything : Preference
  prefer : Protocol → Preference
  unknown_mode : Preference

abbrev pub in_mode : Protocol → Ticket → Bool
in_mode m t = same_mode (mode_of t.kind) m

-- `forced_other`: the protocol that has had its share, while the other one waits
abbrev pub forced_other : Queue → Option Protocol → Bool
forced_other q none = false
forced_other q (some m) =
    leb q.max_same_mode q.same_mode_count && some_of (in_mode (other_mode m)) q.pending

abbrev pub preferred : Queue → Preference → Protocol → Protocol
preferred q (prefer m) head = if some_of (in_mode m) q.pending then m else head
preferred q _ head = head

-- `desired`, given the mode of the head of the pending tickets
abbrev pub desired_mode : Queue → Preference → Option Protocol → Protocol → Protocol
desired_mode q p none head = preferred q p head
desired_mode q p (some m) head =
    if forced_other q (some m) then other_mode m else preferred q p head

abbrev pub repeats : Option Protocol → Protocol → Bool
repeats none m = false
repeats (some l) m = same_mode l m

-- `take` from the choice of the ticket on
unfoldable pub select : Protocol → Queue → Result QueueError (Option Ticket) × Queue
select desired q = elim (first (in_mode desired) q.pending) [
  | none ↦ (err no_candidate, q)
  | some t ↦
      let chosen = with_state running t in
      let again = repeats q.last_mode desired in
      (
        ok (some chosen),
        record q {
          pending = remove_first (has_sequence t.sequence) q.pending;
          inflight = some chosen;
          last_mode = some desired;
          same_mode_count = if again then q.same_mode_count + 1 else 1;
        },
      )
]

-- `take` behind its guards, on the tickets that `_expire` has left
unfoldable pub take_pending :
    Preference → List Ticket → Queue → Result QueueError (Option Ticket) × Queue
take_pending p [] q = (ok none, q)
take_pending p (t ∷ rest) q = select (desired_mode q p q.last_mode (mode_of t.kind)) q

-- the consumer that `take` has bound before it goes on
abbrev pub bind_consumer : ℕ → Queue → Queue
bind_consumer caller q = record q {
  consumer = some (elim q.consumer [ none ↦ caller | some c ↦ c ]);
}

abbrev pub owned_by : ℕ → Option ℕ → Bool
owned_by caller none = false
owned_by caller (some c) = c == caller

-- `take` behind the check of its argument
take_guarded : Preference → ℕ → ℕ → Queue → Result QueueError (Option Ticket) × Queue
take_guarded p caller now q =
    if q.closed
    then (err queue_closed, q)
    else let b = bind_consumer caller q in
      if not (owned_by caller b.consumer)
      then (err other_consumer, b)
      else if is_some b.inflight
      then (err request_in_flight, b)
      else let e = expire now b in take_pending p e.pending e

-- `take`
unfoldable pub take : Preference → ℕ → ℕ → Queue → Result QueueError (Option Ticket) × Queue
unfolding take_guarded take_pending select expire
take unknown_mode caller now q = (err invalid_mode, q)
take p caller now q = take_guarded p caller now q

-- the `success` argument of `finish`
abbrev pub outcome : Bool → TicketState
outcome true = completed
outcome false = failed

abbrev pub is_inflight : ℕ → Ticket → Bool
is_inflight n t = has_sequence n t && is_running t.state

-- `finish`; a `success` that is no Boolean is `none`
finish_inflight : ℕ → Option Bool → Option Ticket → Queue → Result QueueError (Unit {0}) × Queue
finish_inflight n success none q = (err not_in_flight, q)
finish_inflight n none (some t) q =
    (err (if is_inflight n t then not_boolean else not_in_flight), q)
finish_inflight n (some success) (some t) q =
    if is_inflight n t
    then (ok tt, record q { inflight = none; left = q.left ++ with_state (outcome success) t ∷ [] })
    else (err not_in_flight, q)

unfoldable pub finish : ℕ → Option Bool → ℕ → Queue → Result QueueError (Unit {0}) × Queue
unfolding finish_inflight
finish n success caller q =
    if owned_by caller q.consumer
    then finish_inflight n success q.inflight q
    else (err not_owner, q)

-- `close`
unfoldable pub close : Queue → Result QueueError (Unit {0}) × Queue
close q = if is_some q.inflight then (err busy_frame, q) else (
  ok tt,
  record q { closed = true; left = q.left ++ map (with_state cancelled) q.pending; pending = [] },
)

-- `pending_count`
unfoldable pub pending_count : ℕ → Queue → ℕ × Queue
unfolding expire
pending_count now q = let e = expire now q in (length e.pending, e)

-- A call of any method, with what it is given by the caller, the threads and the clock.
pub data Call : Type 0 where
  call_submit : Option ReadKind → Quantity → ℕ → ℕ → Call
  call_cancel : ℕ → Call
  call_take : Preference → ℕ → ℕ → Call
  call_finish : ℕ → Option Bool → ℕ → Call
  call_close : Call
  call_pending_count : ℕ → Call

unfoldable pub step : Call → Queue → Queue
step (call_submit k ttl now₁ now₂) q = (submit k ttl now₁ now₂ q).1
step (call_cancel n) q = (cancel n q).1
step (call_take p caller now) q = (take p caller now q).1
step (call_finish n s caller) q = (finish n s caller q).1
step call_close q = (close q).1
step (call_pending_count now) q = (pending_count now q).1

unfoldable pub run : List Call → Queue → Queue
run [] q = q
run (c ∷ cs) q = run cs (step c q)
