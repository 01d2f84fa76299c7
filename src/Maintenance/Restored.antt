-- ===== src/Maintenance/Restored.antt =====
-- `reset_maintenance`: what is published, and that the state byte is put back.
use optolink.Base.{
  some, ℕ, ◌≡◌, refl, sym, ap, ◌∙◌, ◌⊎◌, inl, inr, false, not, Option, List, ◌∷◌, arith, ◌==◌,
  Never, if_elim,
}
use optolink.Base.Result.{Result, ok, err}
use optolink.Text.{Text, pos}
use optolink.Maintenance.Commands.{Failure, read_command, write_command}
use optolink.Maintenance.Device.{
  Broker, Session, Op, give, raise, first_do, attempt, lift, sleep, ◌>>=◌,
}
use optolink.Maintenance.Bytes.{
  MaintenanceError, exchange_failed, restore_not_verified, restore_not_zero, read_uint_le,
  write_byte, error_of,
}
use optolink.Maintenance.Verify.{value_read, read_after_write}
use optolink.Maintenance.Snapshot.{Snapshot, maintenance_state}
use optolink.Maintenance.Settings.{reading, status}
use optolink.Maintenance.Reset.{
  ResetReport, reset_operation, enter_state, leave_state, conclude, expect_one, expect_zero,
}
use optolink.Maintenance.Log.{
  Grows, Grows-refl, Grows-one, bind_elim, Sends-at, lift-sent, lift-state, lift-eq-ok,
  read_uint_le-sent, write_byte-sent,
}
use optolink.Maintenance.Surface.{IsRead, status-Sends, conclude-Sends}

abbrev pub read_state : Text
read_state = read_command maintenance_state 1

abbrev pub write_state : ℕ → Text
write_state v = write_command maintenance_state v

-- the two errors that say that the state is not known to be 0 again
abbrev pub IsSafetyError : MaintenanceError → Type 0
IsSafetyError (restore_not_verified _ _) = Unit
IsSafetyError (restore_not_zero _ _) = Unit
IsSafetyError _ = Never

abbrev was_read : ℕ × Text → Result Failure (ℕ × Text)
was_read v = ok v

zero_of : (n : ℕ) → not (n == 0) ≡ false → n ≡ 0
zero_of n h = ground arith

abbrev raised : {A : Type 0} → MaintenanceError → Result MaintenanceError A
raised e = err e

same_error :
    (e f : MaintenanceError)
    → raised {A = Unit {0}} e ≡ raised f
    → raised {A = ResetReport} e ≡ raised f
same_error e f h = cc

module _ {W : Type 0} (broker : Broker W) where
  -- The state byte is read back as the value, in the session that the write of it and the pause leave.
  abbrev pub ReadBack : ℕ → Session W → Type 0
  ReadBack v s = value_read (read_after_write broker maintenance_state v s).0 ≡ some v

  -- what `reset_operation` has done before the write of 1
  abbrev pub before_write : Session W → Session W
  before_write s = (status broker s).1

  -- and before the write of 0
  abbrev pub before_restore : Session W → Session W
  before_restore s = (enter_state broker (before_write s)).1

  -- What a reset publishes from `s` to `t`, and what its result says.
  abbrev pub IsRestored : Session W → Result MaintenanceError ResetReport → Session W → Type 0
  IsRestored s r t =
      ((e : MaintenanceError) × (r ≡ err e) × Grows IsRead s.sent t.sent)
      ⊎ (Grows IsRead s.sent (before_write s).sent
          × Grows IsRead (write_state 1 ∷ (before_write s).sent) (before_restore s).sent
          × Grows IsRead (read_state ∷ write_state 0 ∷ (before_restore s).sent) t.sent
          × (ReadBack 0 (before_restore s)
              ⊎ ((e : MaintenanceError) × (r ≡ err e) × IsSafetyError e))
          × ((p : ResetReport) → r ≡ ok p → ReadBack 1 (before_write s)))

  state-IsRead : IsRead read_state
  state-IsRead = (maintenance_state, 1, refl, ground arith)

  expect_one_lem :
      (v : ℕ × Text) (s : Session W)
      → ((expect_one broker v s).1.sent ≡ s.sent) × ((expect_one broker v s).0 ≡ ok tt → v.0 ≡ 1)
  unfolding raise give
  expect_one_lem v s =
      if_elim {A = Op MaintenanceError W (Unit {0})}
        (λ m. ((m s).1.sent ≡ s.sent) × ((m s).0 ≡ ok tt → v.0 ≡ 1)) (not (v.0 == 1))
        (λ _. (refl, λ x. absurd cc)) (λ e. (refl, λ _. ground arith))

  expect_zero_lem :
      (ack : Option Failure) (read : Result Failure (ℕ × Text)) (s : Session W)
      → ((expect_zero broker ack read s).1.sent ≡ s.sent)
        × (((value_read read ≡ some 0) × ((expect_zero broker ack read s).0 ≡ ok tt))
            ⊎ ((e : MaintenanceError) × IsSafetyError e
                × ((expect_zero broker ack read s).0 ≡ err e)))
  unfolding raise give
  expect_zero_lem ack (err e) s = (refl, inr (restore_not_verified ack e, tt, refl))
  expect_zero_lem ack (ok v) s =
      if_elim {A = Op MaintenanceError W (Unit {0})}
        (λ m.
          ((m s).1.sent ≡ s.sent)
          × (((some v.0 ≡ some 0) × ((m s).0 ≡ ok tt))
              ⊎ ((e : MaintenanceError) × IsSafetyError e × ((m s).0 ≡ err e))))
        (not (v.0 == 0)) (λ _. (refl, inr (restore_not_zero ack v.0, tt, refl)))
        (λ e. (refl, inl (ap some (zero_of v.0 e), refl)))

  leave_lem :
      (s : Session W)
      → ((leave_state broker s).1.sent ≡ read_state ∷ write_state 0 ∷ s.sent)
        × ((ReadBack 0 s × ((leave_state broker s).0 ≡ ok tt))
            ⊎ ((e : MaintenanceError) × IsSafetyError e × ((leave_state broker s).0 ≡ err e)))
  unfolding leave_state attempt first_do
  leave_lem s =
      let w = write_byte broker maintenance_state (pos 0) s in
      let e : w.1.sent ≡ write_state 0 ∷ s.sent =
        write_byte-sent broker maintenance_state 0 s (ground arith) in
      let u = read_uint_le broker maintenance_state 1 (sleep broker w.1) in
      let (same, out) = expect_zero_lem (error_of w.0) u.0 u.1 in
      (
        same
            ∙ read_uint_le-sent broker maintenance_state 1 (sleep broker w.1)
            ∙ ap (λ z. read_state ∷ z) e,
        elim out [ inl x ↦ inl x | inr y ↦ inr y ],
      )

  -- the readback in the `try`
  check_lem :
      (t : Session W) (log : List Text)
      → t.sent ≡ log
      → Grows IsRead log ((reading broker maintenance_state 1 >>= expect_one broker) t).1.sent
        × (((reading broker maintenance_state 1 >>= expect_one broker) t).0 ≡ ok tt
            → value_read (read_uint_le broker maintenance_state 1 t).0 ≡ some 1)
  check_lem t log same =
      let P : Result MaintenanceError (Unit {0}) × Session W → Type 0 = λ r.
        Grows IsRead log r.1.sent
        × (r.0 ≡ ok tt → value_read (read_uint_le broker maintenance_state 1 t).0 ≡ some 1) in
      let read = read_uint_le broker maintenance_state 1 in
      let sent : (reading broker maintenance_state 1 t).1.sent ≡ read_state ∷ log =
        lift-sent exchange_failed read t
        ∙ read_uint_le-sent broker maintenance_state 1 t
        ∙ ap (λ z. read_state ∷ z) same in
      bind_elim P (reading broker maintenance_state 1) (expect_one broker) t
        (λ e _. (rw sent (Grows-one IsRead read_state log state-IsRead), λ x. absurd cc))
        (λ v got.
          let (kept, one) = expect_one_lem v (reading broker maintenance_state 1 t).1 in
          (
            rw (kept ∙ sent) (Grows-one IsRead read_state log state-IsRead),
            λ x. ap value_read (lift-eq-ok exchange_failed read t v got) ∙ ap some (one x),
          ))

  enter_lem :
      (s : Session W)
      → Grows IsRead (write_state 1 ∷ s.sent) (enter_state broker s).1.sent
        × ((enter_state broker s).0 ≡ ok tt → ReadBack 1 s)
  unfolding enter_state first_do
  enter_lem s =
      let P : Result MaintenanceError (Unit {0}) × Session W → Type 0 =
        λ r. Grows IsRead (write_state 1 ∷ s.sent) r.1.sent × (r.0 ≡ ok tt → ReadBack 1 s) in
      let write = lift exchange_failed (write_byte broker maintenance_state (pos 1)) in
      let sent : (write s).1.sent ≡ write_state 1 ∷ s.sent =
        lift-sent exchange_failed (write_byte broker maintenance_state (pos 1)) s
        ∙ write_byte-sent broker maintenance_state 1 s (ground arith) in
      bind_elim P write _ s
        (λ e _. (rw sent (Grows-refl IsRead (write_state 1 ∷ s.sent)), λ x. absurd cc))
        (λ _ _.
          let (grown, one) = check_lem (sleep broker (write s).1) (write_state 1 ∷ s.sent) sent in
          (
            grown,
            λ x.
                ap (λ z. value_read (read_uint_le broker maintenance_state 1 (sleep broker z)).0)
                  (sym (lift-state exchange_failed (write_byte broker maintenance_state (pos 1)) s))
                ∙ one x,
          ))

  conclude-eq-ok :
      (before : Snapshot) (r : Result MaintenanceError (Unit {0})) (s : Session W) (p : ResetReport)
      → (conclude broker before r s).0 ≡ ok p
      → r ≡ ok tt
  unfolding conclude raise
  conclude-eq-ok before (err e) s p h = absurd cc
  conclude-eq-ok before (ok u) s p h = refl

  -- the `finally` and what follows it
  tail_lem :
      (before : Snapshot) (entered : Result MaintenanceError (Unit {0})) (s : Session W)
      → let r = (leave_state broker >>= λ _. conclude broker before entered) s in
        Grows IsRead (read_state ∷ write_state 0 ∷ s.sent) r.1.sent
        × (ReadBack 0 s ⊎ ((e : MaintenanceError) × (r.0 ≡ err e) × IsSafetyError e))
        × ((p : ResetReport) → r.0 ≡ ok p → entered ≡ ok tt)
  tail_lem before entered s =
      let P : Result MaintenanceError ResetReport × Session W → Type 0 = λ r.
        Grows IsRead (read_state ∷ write_state 0 ∷ s.sent) r.1.sent
        × (ReadBack 0 s ⊎ ((e : MaintenanceError) × (r.0 ≡ err e) × IsSafetyError e))
        × ((p : ResetReport) → r.0 ≡ ok p → entered ≡ ok tt) in
      let (sent, out) = leave_lem s in
      bind_elim P (leave_state broker) (λ _. conclude broker before entered) s
        (λ e x. (
          rw sent (Grows-refl IsRead (read_state ∷ write_state 0 ∷ s.sent)),
          elim out [ inl y ↦ inl y.0 | inr y ↦ inr (y.0, same_error e y.0 (sym x ∙ y.2), y.1) ],
          λ p z. absurd cc,
        ))
        (λ _ x. (
          rw (sym sent) (
              Sends-at IsRead (conclude broker before entered)
                (conclude-Sends broker IsRead (λ c r. r) before entered) (leave_state broker s).1),
          elim out [ inl y ↦ inl y.0 | inr y ↦ absurd cc ],
          λ p z. conclude-eq-ok before entered (leave_state broker s).1 p z,
        ))

  -- A confirmed reset, whatever the controller and the broker do. Either it raises before a write, or
  -- the published commands are: reads; the write of 1 to the state byte 0x5724; reads; the write of 0 to
  -- it; a readback; and reads. No other write is published. Unless the result is one of the two safety
  -- errors, the readback in this run after the write of 0 and the pause gave 0; and if the reset returns
  -- a report, the readback in this run after the write of 1 and the pause gave 1.
  pub reset_operation-IsRestored :
      (s : Session W) → IsRestored s (reset_operation broker s).0 (reset_operation broker s).1
  unfolding reset_operation attempt
  reset_operation-IsRestored s =
      let P : Result MaintenanceError ResetReport × Session W → Type 0 =
        λ r. IsRestored s r.0 r.1 in
      let reads = status-Sends broker IsRead (λ c r. r) in
      bind_elim P (status broker) _ s
        (λ e _. inl (e, refl, Sends-at IsRead (status broker) reads s))
        (λ before _.
          let first = (status broker s).1 in
          let (grown, one) = enter_lem first in
          let (rest, zero_or, ok_only) =
            tail_lem before (enter_state broker first).0 (enter_state broker first).1 in
          inr (
            Sends-at IsRead (status broker) reads s,
            grown,
            rest,
            zero_or,
            λ p x. one (ok_only p x),
          ))
