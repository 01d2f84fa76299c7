-- ===== src/Queue/Account/Steps.antt =====
-- The methods of BoundedReadQueue (tools/handover_acceleration/scheduler.py) keep the account of the
-- tickets.
use optolink.Base.{
  ℕ, ◌+◌, ◌≤◌, ◌≡◌, refl, sym, ap, ◌∙◌, Bool, false, not, Option, none, some, List, [], ◌∷◌, map,
  arith, inl, inr, if_elim, Option-cases, leb, ◌==◌, first, keep, is_some,
}
use optolink.Reads.{
  ReadKind, Protocol, mode_of, queued, cancelled, expired, Quantity, micros, negative, not_finite,
}
use optolink.Base.Result.{Result}
use optolink.Queue.{
  Ticket, Queue, QueueError, is_due, with_state, expire, submit, cancel, enqueue, submit_valid,
  has_sequence, take, take_pending, select, bind_consumer, take_guarded, finish, close,
  finish_inflight, outcome, owned_by, pending_count, in_mode, desired_mode, Preference, anything,
  prefer, unknown_mode, is_inflight, Call, call_submit, call_cancel, call_take, call_finish,
  call_close, call_pending_count, step,
}
use optolink.Queue.Order.{Between-le, first-Between, first-has_sequence}
use optolink.Queue.Valid.{IsSound, expire-IsSound, bind_consumer-IsSound}
use optolink.Queue.Account.{
  on_wire_times, series, with_wire, Accounts, times-append, times-map, times-keep,
  times-remove_first, series-append, series-map, same_turn, next_turn,
}

module _ (n : ℕ) (m : Protocol) where
  -- the account that a method leaves, whether it returned or raised
  abbrev Leaves : {A : Type 0} → Result QueueError A × Queue → Type 0
  Leaves r = Accounts n m r.1

  expire-Accounts : (now : ℕ) (q : Queue) → Accounts n m q → Accounts n m (expire now q)
  unfolding expire
  expire-Accounts now q a =
      let late = map (with_state expired) (keep (is_due now) q.pending) in
      record {
        once = omega (
          arith,
          a.once,
          times-append n q.left late,
          times-map n expired (keep (is_due now) q.pending),
          times-keep n (is_due now) q.pending,
        );
        counted =
            ap (λ k. with_wire m k q.inflight)
              (series-append m 0 q.left late
                ∙ series-map m (series m 0 q.left) expired (keep (is_due now) q.pending) refl)
            ∙ a.counted;
      }

  enqueue-Accounts :
      (k : ReadKind) (ttl now : ℕ) (q : Queue)
      → 1 ≤ q.next_sequence
      → Accounts n m q
      → Accounts n m (enqueue k ttl now q).1
  unfolding enqueue
  enqueue-Accounts k ttl now q one a =
      let t : Ticket = record {
        sequence = q.next_sequence;
        kind = k;
        enqueued_at = now;
        deadline = now + ttl;
        state = queued;
      } in
      record { once = ground (arith, times-append n q.pending (t ∷ [])); counted = a.counted }

  submit_valid-Accounts :
      (k : ReadKind) (ttl now₁ now₂ : ℕ) (q : Queue)
      → IsSound q
      → Accounts n m q
      → Accounts n m (submit_valid k ttl now₁ now₂ q).1
  unfolding submit_valid
  submit_valid-Accounts k ttl now₁ now₂ q v a =
      let e = expire now₁ q in
      let w : IsSound e = expire-IsSound now₁ q v in
      if_elim (Leaves {A = Ticket}) q.closed (λ _. a)
        λ _.
          if_elim (Leaves {A = Ticket}) (leb e.capacity _) (λ _. expire-Accounts now₁ q a)
            (λ _.
              enqueue-Accounts k ttl now₂ e (Between-le 1 e.next_sequence e.pending w.ordered)
                (expire-Accounts now₁ q a))

  cancel-Accounts : (c : ℕ) (q : Queue) → IsSound q → Accounts n m q → Accounts n m (cancel c q).1
  unfolding cancel
  cancel-Accounts c q v a = elim (Option-cases (first (has_sequence c) q.pending)) [
    | inl missing ↦ ground arith
    | inr (t, e) ↦ ground (
      arith,
      times-append n q.left (with_state cancelled t ∷ []),
      times-remove_first n (has_sequence c) q.pending t e,
      series-append m 0 q.left (with_state cancelled t ∷ []),
    )
  ]

  finish_inflight-Accounts :
      (c : ℕ) (s : Option Bool) (o : Option Ticket) (q : Queue)
      → Accounts n m q
      → q.inflight ≡ o
      → Accounts n m (finish_inflight c s o q).1
  unfolding finish_inflight
  finish_inflight-Accounts c s none q a e = a
  finish_inflight-Accounts c none (some t) q a e = a
  finish_inflight-Accounts c (some b) (some t) q a e =
      if_elim (Leaves {A = Unit {0}}) (is_inflight c t)
        (λ h. record {
          once = ground (arith, times-append n q.left (with_state (outcome b) t ∷ []));
          counted =
              series-append m 0 q.left (with_state (outcome b) t ∷ [])
              ∙ same_turn m (series m 0 q.left) b t (ground arith)
              ∙ ap (λ o. with_wire m (series m 0 q.left) o) (sym e)
              ∙ a.counted;
        })
        (λ _. a)

  close-Accounts : (q : Queue) → Accounts n m q → Accounts n m (close q).1
  unfolding close
  close-Accounts q a = ground (
    arith,
    times-append n q.left (map (with_state cancelled) q.pending),
    times-map n cancelled q.pending,
    series-append m 0 q.left (map (with_state cancelled) q.pending),
    series-map m (series m 0 q.left) cancelled q.pending refl,
  )

  select-Accounts :
      (d : Protocol) (q : Queue)
      → IsSound q
      → q.inflight ≡ none
      → Accounts n m q
      → Accounts n m (select d q).1
  unfolding select
  select-Accounts d q v idle a = elim (Option-cases (first (in_mode d) q.pending)) [
    | inl missing ↦ rw (missing, select) a
    | inr (t, e) ↦
        let again : first (has_sequence t.sequence) q.pending ≡ some t =
          first-has_sequence (in_mode d) 1 q.next_sequence q.pending t v.ordered e in
        let found = times-remove_first n (has_sequence t.sequence) q.pending t again in
        let (right, _, _, _) =
          first-Between (in_mode d) 1 q.next_sequence q.pending t v.ordered e in
        rw (e, select)
          (record {
            once = omega (arith, found, a.once, ap (on_wire_times n) idle);
            counted =
                next_turn m d q.last_mode (series m 0 q.left) q.same_mode_count (mode_of t.kind)
                  right (sym (ap (λ o. with_wire m (series m 0 q.left) o) idle) ∙ a.counted);
          })
  ]

  take_pending-Accounts :
      (p : Preference) (ts : List Ticket) (q : Queue)
      → IsSound q
      → q.inflight ≡ none
      → Accounts n m q
      → Accounts n m (take_pending p ts q).1
  unfolding take_pending
  take_pending-Accounts p [] q v idle a = a
  take_pending-Accounts p (t ∷ ts) q v idle a =
      select-Accounts (desired_mode q p q.last_mode (mode_of t.kind)) q v idle a

  take_guarded-Accounts :
      (p : Preference) (caller now : ℕ) (q : Queue)
      → IsSound q
      → Accounts n m q
      → Accounts n m (take_guarded p caller now q).1
  unfolding take_guarded
  take_guarded-Accounts p caller now q v a =
      let b : Queue = bind_consumer caller q in
      let w : IsSound b = bind_consumer-IsSound caller q v in
      let bound : Accounts n m b = record { once = a.once; counted = a.counted } in
      let P : Result QueueError (Option Ticket) × Queue → Type 0 = Leaves in
      if_elim P q.closed (λ _. a)
        λ _.
          if_elim P (not (owned_by caller b.consumer)) (λ _. bound)
            λ _.
              if_elim P (is_some b.inflight) (λ _. bound)
                λ idle.
                  take_pending-Accounts p (expire now b).pending (expire now b)
                    (expire-IsSound now b w) (unfold expire in nothing q.inflight idle)
                    (expire-Accounts now b bound)
    where
      nothing : (o : Option Ticket) → is_some o ≡ false → o ≡ none
      nothing none h = refl
      nothing (some t) h = absurd cc

  pub take-Accounts :
      (p : Preference) (caller now : ℕ) (q : Queue)
      → IsSound q
      → Accounts n m q
      → Accounts n m (take p caller now q).1
  unfolding take
  take-Accounts unknown_mode caller now q v a = a
  take-Accounts anything caller now q v a = take_guarded-Accounts anything caller now q v a
  take-Accounts (prefer d) caller now q v a = take_guarded-Accounts (prefer d) caller now q v a

  submit-Accounts :
      (k : Option ReadKind) (ttl : Quantity) (now₁ now₂ : ℕ) (q : Queue)
      → IsSound q
      → Accounts n m q
      → Accounts n m (submit k ttl now₁ now₂ q).1
  unfolding submit
  submit-Accounts none ttl now₁ now₂ q v a = a
  submit-Accounts (some k) not_finite now₁ now₂ q v a = a
  submit-Accounts (some k) negative now₁ now₂ q v a = a
  submit-Accounts (some k) (micros ttl) now₁ now₂ q v a =
      if_elim (Leaves {A = Ticket}) (ttl == 0) (λ _. a)
        (λ _. submit_valid-Accounts k ttl now₁ now₂ q v a)

  finish-Accounts :
      (c : ℕ) (s : Option Bool) (caller : ℕ) (q : Queue)
      → Accounts n m q
      → Accounts n m (finish c s caller q).1
  unfolding finish
  finish-Accounts c s caller q a =
      if_elim (Leaves {A = Unit {0}}) (owned_by caller q.consumer)
        (λ _. finish_inflight-Accounts c s q.inflight q a refl) (λ _. a)

  pub step-Accounts : (c : Call) (q : Queue) → IsSound q → Accounts n m q → Accounts n m (step c q)
  unfolding step
  step-Accounts (call_submit k ttl now₁ now₂) q v a = submit-Accounts k ttl now₁ now₂ q v a
  step-Accounts (call_cancel c) q v a = cancel-Accounts c q v a
  step-Accounts (call_take p caller now) q v a = take-Accounts p caller now q v a
  step-Accounts (call_finish c s caller) q v a = finish-Accounts c s caller q a
  step-Accounts call_close q v a = close-Accounts q a
  step-Accounts (call_pending_count now) q v a = unfold pending_count in expire-Accounts now q a
