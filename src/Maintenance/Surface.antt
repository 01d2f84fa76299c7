-- ===== src/Maintenance/Surface.antt =====
-- The write surface of optolink_maintenance_core.py: which commands each operation publishes.
use optolink.Base.{
  ℕ, ◌*◌, ◌/◌, ◌≤◌, ◌≡◌, refl, ◌⊎◌, inl, inr, Bool, true, false, Option, none, some, List, [], ◌∷◌,
  arith, leb, Any, Bool-cases,
}
use optolink.Base.Result.{Result, ok, err}
use optolink.Text.{Text, pos}
use optolink.Maintenance.Commands.{Failure, read_command, write_command}
use optolink.Maintenance.Device.{Broker, Op, give, raise, ◌>>=◌}
use optolink.Maintenance.Bytes.{
  MaintenanceError, exchange_failed, read_uint_le, write_byte, restore_byte, write_verify_byte,
  error_of, restore_if_known, mismatch, confirms,
}
use optolink.Maintenance.Snapshot.{
  Snapshot, snapshot, hours_threshold, interval_months, maintenance_state, interval_reference,
  burner_reference, burner_total, burner_starts,
}
use optolink.Maintenance.Settings.{reading, status, change, hours_operation, months_operation}
use optolink.Maintenance.Reset.{reset_operation, enter_state, leave_state, conclude, expect_zero}
use optolink.Maintenance.Log.{
  Grows-refl, Grows-one, Sends, Sends-bind, Sends-lift, Sends-attempt, Sends-give, Sends-raise,
  Sends-sleep, Sends-if, read_uint_le-sent, write_byte-sent, write_byte-refused,
}

-- the addresses that may be read
abbrev pub readable : List ℕ
readable =
    hours_threshold ∷ interval_months ∷ maintenance_state ∷ interval_reference ∷ burner_reference
    ∷ burner_total ∷ burner_starts ∷ []

-- the command is a read of one of them
abbrev pub IsRead : Text → Type 0
IsRead c = (a : ℕ) × (n : ℕ) × (c ≡ read_command a n) × Any (λ b. a ≡ b) readable

-- the command is a read of one of them, or writes a byte of which `V` holds at the address
abbrev pub ReadsOrWrites : ℕ → (ℕ → Type 0) → Text → Type 0
ReadsOrWrites a V c = IsRead c ⊎ (v : ℕ) × (v ≤ 255) × V v × (c ≡ write_command a v)

-- the commands of which `P` holds contain the reads
abbrev pub Reads : (Text → Type 0) → Type 0
Reads P = (c : Text) → IsRead c → P c

module _ {W : Type 0} (broker : Broker W) (P : Text → Type 0) (reads : Reads P) where
  read-Sends : (a n : ℕ) → Any (λ b. a ≡ b) readable → Sends P (read_uint_le broker a n)
  unfolding Sends
  read-Sends a n h s =
      rw (read_uint_le-sent broker a n s)
        (Grows-one P (read_command a n) s.sent (reads (read_command a n) (a, n, refl, h)))

  write-Sends :
      (a v : ℕ) → (v ≤ 255 → P (write_command a v)) → Sends P (write_byte broker a (pos v))
  unfolding Sends
  write-Sends a v h s = elim (Bool-cases (leb v 255)) [
    | inl e ↦
        let le : v ≤ 255 = ground arith in
        rw (write_byte-sent broker a v s le) (Grows-one P (write_command a v) s.sent (h le))
    | inr e ↦ rw (write_byte-refused broker a v s e) (Grows-refl P s.sent)
  ]

  snapshot-Sends : Sends P (snapshot broker)
  unfolding snapshot
  snapshot-Sends = Sends-bind P _ _ (read-Sends hours_threshold 1 (ground arith)) λ _.
      Sends-bind P _ _ (read-Sends interval_months 1 (ground arith)) λ _.
        Sends-bind P _ _ (read-Sends maintenance_state 1 (ground arith)) λ _.
          Sends-bind P _ _ (read-Sends interval_reference 4 (ground arith)) λ _.
            Sends-bind P _ _ (read-Sends burner_reference 4 (ground arith)) λ _.
              Sends-bind P _ _ (read-Sends burner_total 4 (ground arith)) λ _.
                Sends-bind P _ _ (read-Sends burner_starts 4 (ground arith))
                  λ _. Sends-give P _ _ _ _

  -- the address can be read, and its bytes may be written
  module _ (a : ℕ) (r : Any (λ b. a ≡ b) readable)
      (writes : (v : ℕ) → v ≤ 255 → P (write_command a v)) where
    write_verify-Sends : (v : ℕ) (old : Option ℕ) → Sends P (write_verify_byte broker a (pos v) old)
    unfolding write_verify_byte restore_byte
    write_verify-Sends v old = Sends-attempt P _ _ (write-Sends a v (writes v)) λ ack.
        Sends-sleep P broker _ (
          Sends-attempt P _ _ (read-Sends a 1 r)
            λ read. judge-Sends old (error_of ack) read (confirms broker (pos v) read))
      where
        restore-Sends :
            (old : Option ℕ) → Sends P (restore_if_known broker {E = MaintenanceError} a old)
        restore-Sends none = Sends-give P _ _ _ _
        restore-Sends (some v) =
            Sends-bind P _ _
              (Sends-attempt P _ _ (write-Sends a v (writes v)) λ _.
                Sends-sleep P broker _
                  (Sends-attempt P _ _ (read-Sends a 1 r) λ _. Sends-give P _ _ _ _))
              λ _. Sends-give P _ _ _ _

        judge-Sends :
            (old : Option ℕ) (ack : Option Failure) (read : Result Failure (ℕ × Text))
            (o : Option ℕ)
            → Sends P (elim o as (λ _. Op MaintenanceError W ℕ) [
              | some v ↦ give v
              | none ↦ restore_if_known broker a old >>= λ r.
                  raise (mismatch broker a (pos v) ack read r)
            ])
        judge-Sends old ack read (some v) = Sends-give P _ _ _ _
        judge-Sends old ack read none =
            Sends-bind P _ _ (restore-Sends old) λ _. Sends-raise P _ _ _ _

  pub status-Sends : Sends P (status broker)
  status-Sends = Sends-lift P exchange_failed _ snapshot-Sends

  pub reading-Sends : (a n : ℕ) → Any (λ b. a ≡ b) readable → Sends P (reading broker a n)
  reading-Sends a n r = Sends-lift P exchange_failed _ (read-Sends a n r)

  change-Sends :
      (a reference raw current previous requested : ℕ)
      → Any (λ b. a ≡ b) readable
      → Any (λ b. reference ≡ b) readable
      → ((v : ℕ) → v ≤ 255 → P (write_command a v))
      → Sends P (change broker a reference raw current previous requested)
  unfolding change
  change-Sends a reference raw current previous requested ra rr writes =
      Sends-bind P _ _ (reading-Sends reference 4 rr) λ _.
        Sends-bind P _ _ (write_verify-Sends a ra writes raw (some current)) λ _.
          Sends-bind P _ _ (reading-Sends reference 4 rr)
            λ _. Sends-bind P _ _ status-Sends λ _. Sends-give P _ _ _ _

  -- the confirmation lets through what the call may write
  pub hours-Sends :
      (hours : ℕ) (confirmed force : Bool)
      → (confirmed ≡ true → (v : ℕ) → v ≤ 255 → P (write_command hours_threshold v))
      → Sends P (hours_operation broker hours confirmed force)
  unfolding hours_operation
  hours-Sends hours true force writes =
      Sends-bind P _ _ (reading-Sends hours_threshold 1 (ground arith)) λ current.
        Sends-if P _ _ _ (Sends-bind P _ _ status-Sends λ _. Sends-give P _ _ _ _) (
          change-Sends hours_threshold burner_reference (hours / 100) current.0 (current.0 * 100)
            hours (ground arith) (ground arith) (writes refl))
  hours-Sends hours false force writes =
      Sends-bind P _ _ (reading-Sends hours_threshold 1 (ground arith)) λ current.
        Sends-if P _ _ _ (Sends-bind P _ _ status-Sends λ _. Sends-give P _ _ _ _)
          (Sends-raise P _ _ _ _)

  pub months-Sends :
      (months : ℕ) (confirmed force : Bool)
      → (confirmed ≡ true → (v : ℕ) → v ≤ 255 → P (write_command interval_months v))
      → Sends P (months_operation broker months confirmed force)
  unfolding months_operation
  months-Sends months true force writes =
      Sends-bind P _ _ (reading-Sends interval_months 1 (ground arith)) λ current.
        Sends-if P _ _ _ (Sends-bind P _ _ status-Sends λ _. Sends-give P _ _ _ _) (
          change-Sends interval_months interval_reference months current.0 current.0 months
            (ground arith) (ground arith) (writes refl))
  months-Sends months false force writes =
      Sends-bind P _ _ (reading-Sends interval_months 1 (ground arith)) λ current.
        Sends-if P _ _ _ (Sends-bind P _ _ status-Sends λ _. Sends-give P _ _ _ _)
          (Sends-raise P _ _ _ _)

  pub conclude-Sends :
      (before : Snapshot) (entered : Result MaintenanceError (Unit {0}))
      → Sends P (conclude broker before entered)
  unfolding conclude
  conclude-Sends before (err e) = Sends-raise P _ _ _ _
  conclude-Sends before (ok _) = Sends-bind P _ _ status-Sends λ _. Sends-give P _ _ _ _

  pub reset-Sends :
      ((v : ℕ) → v ≤ 1 → P (write_command maintenance_state v)) → Sends P (reset_operation broker)
  unfolding reset_operation enter_state leave_state conclude
  reset-Sends writes = Sends-bind P _ _ status-Sends λ before.
      Sends-attempt P _ _
        (Sends-bind P _ _
          (Sends-lift P exchange_failed _
            (write-Sends maintenance_state 1 (λ _. writes 1 (ground arith))))
          λ _. Sends-sleep P broker _ (
            Sends-bind P _ _ (reading-Sends maintenance_state 1 (ground arith))
              λ _. Sends-if P _ _ _ (Sends-raise P _ _ _ _) (Sends-give P _ _ _ _)))
        λ entered.
          Sends-bind P _ _
            (Sends-attempt P _ _ (write-Sends maintenance_state 0 (λ _. writes 0 (ground arith)))
              λ ack. Sends-sleep P broker _ (
                Sends-attempt P _ _ (read-Sends maintenance_state 1 (ground arith))
                  λ read. zero-Sends (error_of ack) read))
            λ _. conclude-Sends before entered
    where
      zero-Sends :
          (ack : Option Failure) (read : Result Failure (ℕ × Text))
          → Sends P (expect_zero broker ack read)
      zero-Sends ack (err e) = Sends-raise P _ _ _ _
      zero-Sends ack (ok v) = Sends-if P _ _ _ (Sends-raise P _ _ _ _) (Sends-give P _ _ _ _)
