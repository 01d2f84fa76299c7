-- ===== src/Maintenance/Verify.antt =====
-- `write_verify_byte` and `_restore_byte`: what an answer, or an error, says of the commands published.
use optolink.Base.{
  ℕ, ◌≤◌, ◌≡◌, refl, ap, ◌∙◌, ◌⊎◌, inl, inr, true, Option, none, some, ◌∷◌, arith, ◌≢◌,
}
use optolink.Base.Result.{Result, ok, err}
use optolink.Text.{Text, pos}
use optolink.Maintenance.Commands.{Failure, read_command, write_command}
use optolink.Maintenance.Device.{Broker, Session, Op, give, raise, first_do, attempt, sleep, ◌>>=◌}
use optolink.Maintenance.Bytes.{
  MaintenanceError, Mismatch, Restore, write_verification_failed, write_readback_mismatch,
  read_uint_le, write_byte, restored, error_of, restore_byte, mismatch, confirms, refuse, judge,
  write_verify_byte,
}
use optolink.Maintenance.Log.{read_uint_le-sent, write_byte-sent}

-- the two errors of a write that was not verified, with the details `d`
abbrev pub Reports : MaintenanceError → Mismatch → Type 0
Reports e d = (e ≡ write_verification_failed d) ⊎ (e ≡ write_readback_mismatch d)

-- The details name the request, and the readback is not the byte asked for.
abbrev pub IsAbout : ℕ → ℕ → Mismatch → Type 0
IsAbout a v d = (d.address ≡ a) × (d.requested ≡ pos v) × (d.readback ≢ some v)

-- what a reading gave, if it gave a value
abbrev pub value_read : Result Failure (ℕ × Text) → Option ℕ
value_read (err e) = none
value_read (ok v) = some v.0

module _ {W : Type 0} (broker : Broker W) where
  -- The byte at `a` is read in the session that a write of `v` to it and the pause leave, whatever the
  -- outcome of the write.
  abbrev pub read_after_write : ℕ → ℕ → Session W → Result Failure (ℕ × Text) × Session W
  read_after_write a v s = read_uint_le broker a 1 (sleep broker (write_byte broker a (pos v) s).1)

  -- What a guarded write of `v` at `a` gives, from `s`, when the old value is as known.
  abbrev pub IsVerified :
      ℕ → ℕ → Option ℕ → Session W → Result MaintenanceError ℕ → Session W → Type 0
  IsVerified a v old s (ok w) t =
      (w ≡ v)
      × (value_read (read_after_write a v s).0 ≡ some v)
      × (t ≡ (read_after_write a v s).1)
      × (t.sent ≡ read_command a 1 ∷ write_command a v ∷ s.sent)
  IsVerified a v none s (err e) t =
      (d : Mismatch) × Reports e d
      × IsAbout a v d
      × (d.readback ≡ value_read (read_after_write a v s).0)
      × (d.restore ≡ none)
      × (t ≡ (read_after_write a v s).1)
      × (t.sent ≡ read_command a 1 ∷ write_command a v ∷ s.sent)
  IsVerified a v (some o) s (err e) t =
      let u = read_after_write a v s in
      let u' = read_after_write a o u.1 in
      (d : Mismatch) × Reports e d
      × IsAbout a v d
      × (d.readback ≡ value_read u.0)
      × ((r : Restore) × (d.restore ≡ some r)
          × (r.readback ≡ value_read u'.0)
          × (r.verified ≡ true → value_read u'.0 ≡ some o))
      × (t ≡ u'.1)
      × (t.sent
          ≡ read_command a 1 ∷ write_command a o ∷ read_command a 1 ∷ write_command a v ∷ s.sent)

restored_lem :
    {W : Type 0} (broker : Broker W) (o : ℕ) (ack : Option Failure)
    (read : Result Failure (ℕ × Text))
    → ((restored broker o ack read).readback ≡ value_read read)
      × ((restored broker o ack read).verified ≡ true → value_read read ≡ some o)
restored_lem broker o ack (err e) = (refl, λ h. absurd cc)
restored_lem broker o ack (ok v) = (refl, λ h. ap some (ground arith))

module _ {W : Type 0} (broker : Broker W) where
  -- a write and the readback after it
  write_read-sent :
      (a v : ℕ) (s : Session W)
      → v ≤ 255
      → (read_uint_le broker a 1 (sleep broker (write_byte broker a (pos v) s).1)).1.sent
        ≡ read_command a 1 ∷ write_command a v ∷ s.sent
  write_read-sent a v s h =
      read_uint_le-sent broker a 1 (sleep broker (write_byte broker a (pos v) s).1)
      ∙ ap (λ z. read_command a 1 ∷ z) (write_byte-sent broker a v s h)

  unconfirmed-IsAbout :
      (a v : ℕ) (ack : Option Failure) (read : Result Failure (ℕ × Text)) (r : Option Restore)
      → confirms broker (pos v) read ≡ none
      → (d : Mismatch) × Reports (mismatch broker a (pos v) ack read r) d
        × IsAbout a v d
        × (d.readback ≡ value_read read)
        × (d.restore ≡ r)
  unconfirmed-IsAbout a v ack (err e) r h = (_, inl refl, (refl, refl, λ x. absurd cc), refl, refl)
  unconfirmed-IsAbout a v ack (ok w) r h = (_, inr refl, (refl, refl, ground arith), refl, refl)

  confirms_lem :
      (v : ℕ) (read : Result Failure (ℕ × Text)) (w : ℕ)
      → confirms broker (pos v) read ≡ some w
      → (w ≡ v) × (value_read read ≡ some v)
  confirms_lem v (err e) w h = absurd cc
  confirms_lem v (ok u) w h = (ground arith, ap some (ground arith))

  restore-sent :
      (a o : ℕ) (t : Session W)
      → o ≤ 255
      → (restore_byte broker {E = MaintenanceError} a o t).1.sent
        ≡ read_command a 1 ∷ write_command a o ∷ t.sent
  unfolding restore_byte attempt first_do give
  restore-sent a o t h = write_read-sent a o t h

  module _ (a v : ℕ) (old : Option ℕ) (s : Session W) (h : v ≤ 255) where
    u : Result Failure (ℕ × Text) × Session W
    u = read_after_write broker a v s

    ack : Option Failure
    ack = error_of (write_byte broker a (pos v) s).0

    refuse-IsVerified :
        ((o : ℕ) → old ≡ some o → o ≤ 255)
        → ((r : Option Restore)
            → (d : Mismatch) × Reports (mismatch broker a (pos v) ack u.0 r) d
              × IsAbout a v d
              × (d.readback ≡ value_read u.0)
              × (d.restore ≡ r))
        → let r = refuse broker a (pos v) old ack u.0 u.1 in IsVerified broker a v old s r.0 r.1
    unfolding u ◌>>=◌ raise give restore_byte attempt first_do
    refuse-IsVerified b about = cases old b
      where
        cases :
            (old : Option ℕ)
            → ((o : ℕ) → old ≡ some o → o ≤ 255)
            → let r = refuse broker a (pos v) old ack u.0 u.1 in IsVerified broker a v old s r.0 r.1
        cases none b =
            let (d, r, i, x, y) = about none in (d, r, i, x, y, refl, write_read-sent a v s h)
        cases (some o) b =
            let w = write_byte broker a (pos o) u.1 in
            let back = read_after_write broker a o u.1 in
            let r = restored broker o (error_of w.0) back.0 in
            let (d, rep, i, x, y) = about (some r) in
            let (given, verified) = restored_lem broker o (error_of w.0) back.0 in
            (
              d,
              rep,
              i,
              x,
              (r, y, given, verified),
              refl,
              write_read-sent a o u.1 (b o refl)
                  ∙ ap (λ z. read_command a 1 ∷ write_command a o ∷ z) (write_read-sent a v s h),
            )

    judge-IsVerified :
        ((o : ℕ) → old ≡ some o → o ≤ 255)
        → let r = judge broker a (pos v) old ack u.0 u.1 in IsVerified broker a v old s r.0 r.1
    unfolding u give
    judge-IsVerified bound =
        cases (confirms broker (pos v) u.0) (confirms_lem v u.0) (unconfirmed-IsAbout a v ack u.0)
      where
        P : Result MaintenanceError ℕ × Session W → Type 0
        P r = IsVerified broker a v old s r.0 r.1

        cases :
            (c : Option ℕ)
            → ((w : ℕ) → c ≡ some w → (w ≡ v) × (value_read u.0 ≡ some v))
            → ((r : Option Restore)
                → c ≡ none
                → (d : Mismatch) × Reports (mismatch broker a (pos v) ack u.0 r) d
                  × IsAbout a v d
                  × (d.readback ≡ value_read u.0)
                  × (d.restore ≡ r))
            → P (
                elim c as (λ _. Op MaintenanceError W ℕ) [
                  | some v ↦ give v
                  | none ↦ refuse broker a (pos v) old ack u.0
                ]
                  u.1)
        cases (some w) same about =
            let (is_v, was_read) = same w refl in (is_v, was_read, refl, write_read-sent a v s h)
        cases none same about = refuse-IsVerified bound (λ r. about r refl)

  -- A guarded write of a byte whose old value, if known, is a byte. When it returns, it returns the byte
  -- asked for, and the readback in this run, after the write and the pause, gave just that byte and was
  -- the last command. When it raises, the error names the request and what that readback gave, which is
  -- not the byte asked for; and if the old value is known, just one more write was published, of that
  -- value, with a readback after it, whose value the error gives too, and the restore is reported as
  -- verified only if that readback gave the old value.
  pub write_verify_byte-IsVerified :
      (a v : ℕ) (old : Option ℕ) (s : Session W)
      → v ≤ 255
      → ((o : ℕ) → old ≡ some o → o ≤ 255)
      → IsVerified broker a v old s
          (write_verify_byte broker a (pos v) old s).0
          (write_verify_byte broker a (pos v) old s).1
  unfolding write_verify_byte attempt first_do u ack
  write_verify_byte-IsVerified a v old s h bound = judge-IsVerified a v old s h bound
