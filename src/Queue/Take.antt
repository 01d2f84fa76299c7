-- ===== src/Queue/Take.antt =====
-- What `take` of BoundedReadQueue (tools/handover_acceleration/scheduler.py) promises: neither protocol
-- waits for more than `max_same_mode` requests of the other, and an idle queue answers.
use optolink.Base.{
  ℕ, ◌≤◌, ◌≡◌, ◌≢◌, ◌⊎◌, Bool, true, false, not, Option, none, some, List, [], ◌∷◌, arith, ap, ◌∙◌,
  inl, inr, if_elim, first, some_of, is_some, refl, if◌then◌else◌,
}
use mathlib.Core.Path.{subst, sym}
use optolink.Reads.{same_mode, Protocol, mode_of, other_mode, running}
use optolink.Base.Result.{Result, ok}
use optolink.Queue.Account.{successive, counted_for, IsValid, Accounts}
use optolink.Queue.Account.Steps.{take-Accounts}
use optolink.Queue.{
  Ticket, Queue, QueueError, with_state, expire, take, take_pending, take_guarded, bind_consumer,
  owned_by, in_mode, desired_mode, Preference, anything, prefer, unknown_mode,
}
use optolink.Queue.Handed.{waiting, Handed, take-Handed, take_pending_lem}

-- The ticket is handed out, and while the other protocol waits, no more requests of the ticket's
-- protocol than the share have been handed out one after the other.
pub record Served (now : ℕ) (q q' : Queue) (t : Ticket) : Type 0 where
  pub handed : Handed now q q' t
  pub fair :
      some_of (in_mode (other_mode (mode_of t.kind))) (waiting now q) ≡ true
      → successive (mode_of t.kind) q' ≤ q.max_same_mode

same_mode_refl : (m : Protocol) → same_mode m m ≡ true
same_mode_refl m = ground arith

counted_lem :
    (m : Protocol) (q : Queue)
    → Accounts 0 m q
    → q.last_mode ≡ some m
    → successive m q ≡ q.same_mode_count
counted_lem m q a l =
    a.counted
    ∙ ap (λ l. counted_for m l q.same_mode_count) l
    ∙ shown (same_mode m m) (same_mode_refl m)
  where
    shown : (b : Bool) → b ≡ true → (if b then q.same_mode_count else 0) ≡ q.same_mode_count
    shown true e = refl
    shown false e = absurd cc

-- A `take` that hands out a ticket in a valid queue hands out the oldest request of its protocol
-- among those whose deadline has not passed, marks it running, puts it on the wire and leaves the
-- others waiting; and while a request of the other protocol waits, no more than `max_same_mode`
-- requests of the ticket's protocol, this one included, have been handed out one after the other.
pub take-Served :
    (p : Preference) (caller now : ℕ) (q : Queue) {t : Ticket} {q' : Queue}
    → IsValid q
    → take p caller now q ≡ (ok (some t), q')
    → Served now q q' t
take-Served p caller now q {t} {q'} v h =
    let m = mode_of t.kind in
    let given : Handed now q q' t = take-Handed p caller now q v.sound h in
    let after : Accounts 0 m q' =
      subst (λ r. Accounts 0 m r.1) h (take-Accounts 0 m p caller now q v.sound (v.accounts 0 m)) in
    record {
      handed = given;
      fair = λ w.
          subst (λ k. k ≤ q.max_same_mode) (sym (counted_lem m q' after given.last))
            (given.share w);
    }

abbrev Answers : List Ticket → Result QueueError (Option Ticket) × Queue → Type 0
Answers ts r =
    ((ts ≡ []) × (r.0 ≡ ok none))
    ⊎ ((m : Protocol) × (t : Ticket) × (first (in_mode m) ts ≡ some t)
        × (r.0 ≡ ok (some (with_state running t))))

take_pending-Answers :
    (p : Preference) (e : Queue) (ts : List Ticket)
    → e.pending ≡ ts
    → Answers ts (take_pending p ts e)
take_pending-Answers p e [] h = inl (refl, unfold take_pending in refl)
take_pending-Answers p e (x ∷ ts) h =
    let (o, found, result) = take_pending_lem p e x ts h in
    inr (
      desired_mode e p e.last_mode (mode_of x.kind),
      o,
      subst (λ ts. first (in_mode (desired_mode e p e.last_mode (mode_of x.kind))) ts ≡ some o) h
          found,
      cc result,
    )

take_guarded-Answers :
    (p : Preference) (caller now : ℕ) (q : Queue)
    → q.closed ≡ false
    → owned_by caller (bind_consumer caller q).consumer ≡ true
    → is_some q.inflight ≡ false
    → Answers (waiting now q) (take_guarded p caller now q)
unfolding take_guarded
take_guarded-Answers p caller now q open_yet owner idle =
    let b : Queue = bind_consumer caller q in
    let P : Result QueueError (Option Ticket) × Queue → Type 0 = Answers (waiting now q) in
    if_elim P q.closed (λ shut. absurd (cc (shut, open_yet)))
      λ _.
        if_elim P (not (owned_by caller b.consumer)) (λ no_owner. absurd (ground arith))
          λ _.
            if_elim P (is_some b.inflight) (λ busy. absurd (cc (busy, idle)))
              λ _.
                unfold expire in take_pending-Answers p (expire now b) (expire now b).pending refl

-- With the consumer's own thread, no request on the wire and a known preference, `take` on an open
-- queue does not raise. It returns nothing if every pending deadline has passed; and else it hands out,
-- as running, the first ticket of one protocol among those whose deadline has not passed.
pub take_answers :
    (p : Preference) (caller now : ℕ) (q : Queue)
    → p ≢ unknown_mode
    → q.closed ≡ false
    → owned_by caller (bind_consumer caller q).consumer ≡ true
    → is_some q.inflight ≡ false
    → ((waiting now q ≡ []) × ((take p caller now q).0 ≡ ok none))
      ⊎ ((m : Protocol) × (t : Ticket) × (first (in_mode m) (waiting now q) ≡ some t)
          × ((take p caller now q).0 ≡ ok (some (with_state running t))))
unfolding take
take_answers unknown_mode caller now q known open_yet owner idle = absurd (known refl)
take_answers anything caller now q known open_yet owner idle =
    take_guarded-Answers anything caller now q open_yet owner idle
take_answers (prefer m) caller now q known open_yet owner idle =
    take_guarded-Answers (prefer m) caller now q open_yet owner idle
