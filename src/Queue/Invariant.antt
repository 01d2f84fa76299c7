-- ===== src/Queue/Invariant.antt =====
-- The invariant of BoundedReadQueue (tools/handover_acceleration/scheduler.py) through any calls.
use optolink.Base.{
  ℕ, ◌≡◌, Bool, false, not, Option, none, some, List, [], ◌∷◌, map, arith, inl, inr, if_elim,
  Option-cases, length-append, first, All-append, is_some, refl,
}
use optolink.Reads.{mode_of, Protocol, cancelled}
use optolink.Queue.{
  Ticket, Queue, with_state, expire, take, take_pending, select, bind_consumer, take_guarded,
  finish, close, finish_inflight, outcome, owned_by, pending_count, has_sequence, in_mode,
  desired_mode, Preference, anything, prefer, unknown_mode, Call, call_submit, call_cancel,
  call_take, call_finish, call_close, call_pending_count, step, run,
}
use optolink.Queue.Order.{Between-remove_first, length-remove_first, first-has_sequence, Between-le}
use optolink.Queue.Account.{IsValid}
use optolink.Queue.Account.Steps.{step-Accounts}
use optolink.Queue.Valid.{
  bind_consumer-IsSound, Settled, on_wire, IsSound, Leaves, length-map, All-map-state,
  expire-IsSound, submit-IsSound, cancel-IsSound,
}

finish_inflight-IsSound :
    (n : ℕ) (s : Option Bool) (o : Option Ticket) (q : Queue)
    → IsSound q
    → q.inflight ≡ o
    → IsSound (finish_inflight n s o q).1
unfolding finish_inflight
finish_inflight-IsSound n s none q v e = v
finish_inflight-IsSound n none (some t) q v e = v
finish_inflight-IsSound n (some b) (some t) q v e =
    let done : Ticket = with_state (outcome b) t in
    ground
      (arith, length-append q.left (done ∷ []), All-append Settled q.left (done ∷ []) v.settled)

finish-IsSound :
    (n : ℕ) (s : Option Bool) (caller : ℕ) (q : Queue) → IsSound q → IsSound (finish n s caller q).1
unfolding finish
finish-IsSound n s caller q v =
    if_elim (Leaves {A = Unit {0}}) (owned_by caller q.consumer)
      (λ _. finish_inflight-IsSound n s q.inflight q v refl) (λ _. v)

close-IsSound : (q : Queue) → IsSound q → IsSound (close q).1
unfolding close
close-IsSound q v = ground (
  arith,
  length-append q.left (map (with_state cancelled) q.pending),
  length-map (with_state cancelled) q.pending,
  All-append Settled q.left (map (with_state cancelled) q.pending),
  All-map-state cancelled q.pending,
  Between-le 1 q.next_sequence q.pending v.ordered,
)

select-IsSound :
    (m : Protocol) (q : Queue) → IsSound q → on_wire q.inflight ≡ 0 → IsSound (select m q).1
unfolding select
select-IsSound m q v idle = elim (Option-cases (first (in_mode m) q.pending)) [
  | inl missing ↦ rw (missing, select) v
  | inr (t, e) ↦
      let again : first (has_sequence t.sequence) q.pending ≡ some t =
        first-has_sequence (in_mode m) 1 q.next_sequence q.pending t v.ordered e in
      ground (
        arith,
        length-remove_first (has_sequence t.sequence) q.pending t again,
        Between-remove_first (has_sequence t.sequence) 1 q.next_sequence q.pending v.ordered,
      )
]

take_pending-IsSound :
    (p : Preference) (ts : List Ticket) (q : Queue)
    → IsSound q
    → on_wire q.inflight ≡ 0
    → IsSound (take_pending p ts q).1
unfolding take_pending
take_pending-IsSound p [] q v idle = v
take_pending-IsSound p (t ∷ ts) q v idle =
    select-IsSound (desired_mode q p q.last_mode (mode_of t.kind)) q v idle

not_on_wire : (o : Option Ticket) → is_some o ≡ false → on_wire o ≡ 0
not_on_wire none h = refl
not_on_wire (some t) h = cc

take_guarded-IsSound :
    (p : Preference) (caller now : ℕ) (q : Queue)
    → IsSound q
    → IsSound (take_guarded p caller now q).1
unfolding take_guarded
take_guarded-IsSound p caller now q v =
    if_elim (Leaves {A = Option Ticket}) q.closed (λ _. v)
      λ _.
        let b : Queue = bind_consumer caller q in
        let w : IsSound b = bind_consumer-IsSound caller q v in
        if_elim (Leaves {A = Option Ticket}) (not (owned_by caller b.consumer)) (λ _. w)
          λ _.
            if_elim (Leaves {A = Option Ticket}) (is_some b.inflight) (λ _. w)
              λ idle.
                take_pending-IsSound p (expire now b).pending (expire now b)
                  (expire-IsSound now b w) (unfold expire in not_on_wire b.inflight idle)

take-IsSound :
    (p : Preference) (caller now : ℕ) (q : Queue) → IsSound q → IsSound (take p caller now q).1
unfolding take
take-IsSound unknown_mode caller now q v = v
take-IsSound anything caller now q v = take_guarded-IsSound anything caller now q v
take-IsSound (prefer m) caller now q v = take_guarded-IsSound (prefer m) caller now q v

step-IsSound : (c : Call) (q : Queue) → IsSound q → IsSound (step c q)
unfolding step
step-IsSound (call_submit k ttl now₁ now₂) q v = submit-IsSound k ttl now₁ now₂ q v
step-IsSound (call_cancel n) q v = cancel-IsSound n q v
step-IsSound (call_take p caller now) q v = take-IsSound p caller now q v
step-IsSound (call_finish n s caller) q v = finish-IsSound n s caller q v
step-IsSound call_close q v = close-IsSound q v
step-IsSound (call_pending_count now) q v = unfold pending_count in expire-IsSound now q v

pub step-IsValid : (c : Call) (q : Queue) → IsValid q → IsValid (step c q)
step-IsValid c q v = record {
  sound = step-IsSound c q v.sound;
  accounts = λ n m. step-Accounts n m c q v.sound (v.accounts n m);
}

-- From a queue in which the invariant holds, any calls in any order, with any arguments, callers
-- and clock readings, lead to one in which it holds: at most `capacity` requests wait, in the order
-- of their sequence numbers, at most one is running, a closed queue holds none, and each sequence
-- number that was issued, and no other, is found once among the tickets that wait, run or have left
-- in a final state; and `same_mode_count` counts the requests of the last protocol that were handed
-- out one after the other, up to the latest.
pub run-IsValid : (cs : List Call) (q : Queue) → IsValid q → IsValid (run cs q)
unfolding run
run-IsValid [] q v = v
run-IsValid (c ∷ cs) q v = run-IsValid cs (step c q) (step-IsValid c q v)
