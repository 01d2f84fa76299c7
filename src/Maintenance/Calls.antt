-- ===== src/Maintenance/Calls.antt =====
-- The operations of optolink_maintenance_core.py as calls on the host: what each publishes, and the
-- lock and the session around it.
use optolink.Base.{
  ℕ, ◌%◌, ◌≤◌, ◌≡◌, refl, sym, ◌∙◌, ◌⊎◌, inl, inr, Bool, true, false, not, ◌||◌, arith, ltb, ◌==◌,
  if_elim,
}
use optolink.Base.Result.{Result, ok, err}
use optolink.Text.{Text, ℤ, pos, negsuc}
use optolink.Maintenance.Device.{Session, Op}
use optolink.Maintenance.Bytes.{MaintenanceError, busy}
use optolink.Maintenance.Snapshot.{hours_threshold, interval_months, maintenance_state}
use optolink.Maintenance.Settings.{Outcome, status, hours_operation, months_operation}
use optolink.Maintenance.Reset.{reset_operation}
use optolink.Maintenance.Host.{
  Access, Host, release, connect, in_session, with_session, get_status, set_hours, set_months,
  reset_maintenance,
}
use optolink.Maintenance.Log.{Grows, Grows-refl, Sends}
use optolink.Maintenance.Surface.{
  IsRead, ReadsOrWrites, hours-Sends, months-Sends, reset-Sends, status-Sends,
}

abbrev pub AnyByte : ℕ → Type 0
AnyByte v = Unit

-- The calls of the four operations.
pub data Call : Type 0 where
  ask_status : Call
  ask_hours : ℤ → Bool → Bool → Call
  ask_months : ℤ → Bool → Bool → Call
  ask_reset : Bool → Call

-- What a call may publish: without its confirmation, reads.
abbrev pub Allowed : Call → Text → Type 0
Allowed ask_status = IsRead
Allowed (ask_hours hours true force) = ReadsOrWrites hours_threshold AnyByte
Allowed (ask_hours hours false force) = IsRead
Allowed (ask_months months true force) = ReadsOrWrites interval_months AnyByte
Allowed (ask_months months false force) = IsRead
Allowed (ask_reset true) = ReadsOrWrites maintenance_state (λ v. v ≤ 1)
Allowed (ask_reset false) = IsRead

module _ {W : Type 0} (access : Access W) where
  -- the host after a call
  unfoldable pub serve : Call → Host W → Host W
  unfolding get_status set_hours set_months reset_maintenance
  serve ask_status h = (get_status access h).1
  serve (ask_hours hours confirmed force) h = (set_hours access hours confirmed force h).1
  serve (ask_months months confirmed force) h = (set_months access months confirmed force h).1
  serve (ask_reset confirmed) h = (reset_maintenance access confirmed h).1

  -- A session is opened with the log as it is, and the lock is left alone.
  connect-Opens :
      (h : Host W)
      → ((connect access h).1.sent ≡ h.sent)
        × ((e : MaintenanceError)
            → (connect access h).0 ≡ err e
            → (connect access h).1.connected ≡ h.connected)
        × ((s : Session W) → (connect access h).0 ≡ ok s → s.sent ≡ h.sent)
  unfolding connect
  connect-Opens h =
      let P : Result MaintenanceError (Session W) × Host W → Type 0 = λ r.
        (r.1.sent ≡ h.sent)
        × ((e : MaintenanceError) → r.0 ≡ err e → r.1.connected ≡ h.connected)
        × ((s : Session W) → r.0 ≡ ok s → s.sent ≡ h.sent) in
      if_elim P (not access.listen_set) (λ _. (refl, λ e _. refl, λ s e. absurd cc))
        λ _.
          if_elim P (not access.respond_set) (λ _. (refl, λ e _. refl, λ s e. absurd cc))
            λ _.
              if_elim P (not (access.open_client h.world).0)
                (λ _. (refl, λ e _. refl, λ s e. absurd cc))
                λ _. (refl, λ e x. absurd cc, λ s e. cc)

  module _ {A : Type 0} (operation : Op MaintenanceError W A) where
    session_elim :
        (P : Result MaintenanceError A × Host W → Type 0) (h : Host W)
        → ((e : MaintenanceError)
            → (connect access h).0 ≡ err e
            → P (err e, record (connect access h).1 { locked = false }))
        → ((s : Session W)
            → (connect access h).0 ≡ ok s
            → P ((operation s).0, release access (connect access h).1 (operation s).1))
        → P (in_session access operation h)
    unfolding in_session
    session_elim P h he ho = cases (connect access h).0 (connect access h).1 he ho
      where
        cases :
            (r : Result MaintenanceError (Session W)) (g : Host W)
            → ((e : MaintenanceError) → r ≡ err e → P (err e, record g { locked = false }))
            → ((s : Session W) → r ≡ ok s → P ((operation s).0, release access g (operation s).1))
            → P (elim r [
              | err e ↦ (err e, record g { locked = false })
              | ok s ↦ ((operation s).0, release access g (operation s).1)
            ])
        cases (err e) g he ho = he e refl
        cases (ok s) g he ho = ho s refl

    session-Grows :
        (P : Text → Type 0)
        → Sends P operation
        → (h : Host W) → Grows P h.sent (with_session access operation h).1.sent
    unfolding with_session Sends
    session-Grows P sends h =
        let Q : Result MaintenanceError A × Host W → Type 0 = λ r. Grows P h.sent r.1.sent in
        let held : Host W = record h { locked = true } in
        if_elim Q h.locked (λ _. Grows-refl P h.sent)
          λ _.
            session_elim Q held (λ e _. rw ((connect-Opens held).0) (Grows-refl P h.sent))
              (λ s e. rw (sym ((connect-Opens held).2 s e)) (sends s))

  -- The lock and the session around an operation: a call that finds the lock held by any process is
  -- refused at once and changes nothing; any other call, whatever its operation does, leaves the lock
  -- free and no session open, and its result is the error of the connection or the operation's own.
  pub with_session-Released :
      {A : Type 0} (operation : Op MaintenanceError W A) (h : Host W)
      → h.connected ≡ false
      → ((h.locked ≡ true) × (with_session access operation h ≡ (err busy, h)))
        ⊎ (((with_session access operation h).1.locked ≡ false)
            × ((with_session access operation h).1.connected ≡ false)
            × (((e : MaintenanceError) × ((with_session access operation h).0 ≡ err e)
                  × ((connect access (record h { locked = true })).0 ≡ err e))
                ⊎ ((s : Session W) × ((connect access (record h { locked = true })).0 ≡ ok s)
                    × ((with_session access operation h).0 ≡ (operation s).0))))
  unfolding with_session
  with_session-Released {A = A} operation h idle =
      let held : Host W = record h { locked = true } in
      let Q : Result MaintenanceError A × Host W → Type 0 = λ r.
        ((h.locked ≡ true) × (r ≡ (err busy, h)))
        ⊎ ((r.1.locked ≡ false)
            × (r.1.connected ≡ false)
            × (((e : MaintenanceError) × (r.0 ≡ err e) × ((connect access held).0 ≡ err e))
                ⊎ ((s : Session W) × ((connect access held).0 ≡ ok s)
                    × (r.0 ≡ (operation s).0)))) in
      if_elim Q h.locked (λ l. inl (l, refl))
        λ _.
          session_elim operation Q held
            (λ e x. inr (refl, (connect-Opens held).1 e x ∙ idle, inl (e, refl, x)))
            (λ s x. inr (refl, refl, inr (s, x, refl)))

  hours-Allowed :
      (hours : ℕ) (confirmed force : Bool) (h : Host W)
      → Grows
          (Allowed (ask_hours (pos hours) confirmed force))
          h.sent
          (with_session access (hours_operation access.broker hours confirmed force) h).1.sent
  hours-Allowed hours true force h =
      let P = ReadsOrWrites hours_threshold AnyByte in
      session-Grows (hours_operation access.broker hours true force) P
        (hours-Sends access.broker P (λ c r. inl r) hours true force
          (λ _ v b. inr (v, b, tt, refl)))
        h
  hours-Allowed hours false force h =
      session-Grows (hours_operation access.broker hours false force) IsRead
        (hours-Sends access.broker IsRead (λ c r. r) hours false force (λ e. absurd cc)) h

  months-Allowed :
      (months : ℕ) (confirmed force : Bool) (h : Host W)
      → Grows
          (Allowed (ask_months (pos months) confirmed force))
          h.sent
          (with_session access (months_operation access.broker months confirmed force) h).1.sent
  months-Allowed months true force h =
      let P = ReadsOrWrites interval_months AnyByte in
      session-Grows (months_operation access.broker months true force) P
        (months-Sends access.broker P (λ c r. inl r) months true force
          (λ _ v b. inr (v, b, tt, refl)))
        h
  months-Allowed months false force h =
      session-Grows (months_operation access.broker months false force) IsRead
        (months-Sends access.broker IsRead (λ c r. r) months false force (λ e. absurd cc)) h

  -- A call adds to the published commands only those that it may publish: reads of the seven
  -- addresses, and with its confirmation writes of a byte to its own address, which for a reset is 0 or
  -- 1. Without the confirmation nothing is written, whatever the controller and the broker do.
  pub serve-Allowed : (c : Call) (h : Host W) → Grows (Allowed c) h.sent (serve c h).sent
  unfolding serve get_status set_hours set_months reset_maintenance
  serve-Allowed ask_status h =
      session-Grows (status access.broker) IsRead (status-Sends access.broker IsRead (λ c r. r)) h
  serve-Allowed (ask_hours (negsuc n) confirmed force) h =
      Grows-refl (Allowed (ask_hours (negsuc n) confirmed force)) h.sent
  serve-Allowed (ask_hours (pos n) confirmed force) h =
      let P = Allowed (ask_hours (pos n) confirmed force) in
      if_elim {A = Result MaintenanceError Outcome × Host W} (λ r. Grows P h.sent r.1.sent)
        (ltb 10000 n || not (n % 100 == 0)) (λ _. Grows-refl P h.sent)
        (λ _. hours-Allowed n confirmed force h)
  serve-Allowed (ask_months (negsuc n) confirmed force) h =
      Grows-refl (Allowed (ask_months (negsuc n) confirmed force)) h.sent
  serve-Allowed (ask_months (pos n) confirmed force) h =
      let P = Allowed (ask_months (pos n) confirmed force) in
      if_elim {A = Result MaintenanceError Outcome × Host W} (λ r. Grows P h.sent r.1.sent)
        (ltb 24 n) (λ _. Grows-refl P h.sent) (λ _. months-Allowed n confirmed force h)
  serve-Allowed (ask_reset true) h =
      let P = ReadsOrWrites maintenance_state (λ v. v ≤ 1) in
      session-Grows (reset_operation access.broker) P
        (reset-Sends access.broker P (λ c r. inl r) (λ v b. inr (v, ground arith, b, refl))) h
  serve-Allowed (ask_reset false) h = Grows-refl IsRead h.sent
