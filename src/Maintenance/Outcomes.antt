-- ===== src/Maintenance/Outcomes.antt =====
-- `set_hours` and `set_months`: what a result that is not an error says.
use optolink.Base.{
  Any, ℕ, ◌*◌, ◌/◌, ◌≡◌, ◌≢◌, refl, sym, ap, ◌∙◌, Bool, true, false, not, ◌&&◌, Option, none, some,
  arith, ◌==◌, if◌then◌else◌, if_elim,
}
use mathlib.Core.Path.{subst}
use optolink.Base.Result.{Result, ok, err, OnOk, OnOk-intro}
use optolink.Text.{Text, pos}
use optolink.Maintenance.Commands.{Failure}
use optolink.Maintenance.Device.{Broker, Session, Op, give, raise, first_do, attempt, ◌>>=◌}
use optolink.Maintenance.Bytes.{
  MaintenanceError, exchange_failed, confirmation_required, read_uint_le, write_byte,
  restore_if_known, mismatch, confirms, refuse, error_of, write_verify_byte,
}
use optolink.Maintenance.Verify.{value_read, read_after_write}
use optolink.Maintenance.Surface.{
  readable, Reads, IsRead, reading-Sends, status-Sends, hours-Sends, months-Sends,
}
use optolink.Maintenance.Snapshot.{
  hours_threshold, interval_months, burner_reference, interval_reference,
}
use optolink.Maintenance.Settings.{
  Outcome, unchanged, changed, reading, status, change, hours_operation, months_operation,
}
use optolink.Maintenance.Log.{
  Grows, Grows-trans, Sends, Sends-at, Sends-bind, Sends-give, bind_elim, bind-eq-ok, lift-eq-ok,
}

abbrev was_read : ℕ × Text → Result Failure (ℕ × Text)
was_read v = ok v

abbrev given : Outcome → Result MaintenanceError Outcome
given o = ok o

same_outcome : (a b : Outcome) → given a ≡ given b → b ≡ a
same_outcome a b h = cc

module _ {W : Type 0} (broker : Broker W) where
  give-eq-ok :
      (o out : Outcome) (s : Session W)
      → (give {E = MaintenanceError} {W = W} o s).0 ≡ ok out
      → out ≡ o
  unfolding give
  give-eq-ok o out s h = same_outcome o out h

  refuse-not_ok :
      (a v : ℕ) (old : Option ℕ) (ack : Option Failure) (read : Result Failure (ℕ × Text))
      (t : Session W) (w : ℕ)
      → (refuse broker a (pos v) old ack read t).0 ≢ ok w
  unfolding raise
  refuse-not_ok a v old ack read t w =
      bind_elim (λ r. r.0 ≢ ok w) (restore_if_known broker a old)
        (λ r. raise (mismatch broker a (pos v) ack read r)) t (λ e x h. absurd cc)
        (λ r x h. absurd cc)

  confirms-eq-some :
      (v : ℕ) (read : Result Failure (ℕ × Text)) (w : ℕ)
      → confirms broker (pos v) read ≡ some w
      → value_read read ≡ some v
  confirms-eq-some v (err e) w h = absurd cc
  confirms-eq-some v (ok u) w h = ap some (ground arith)

  -- A guarded write that returns has read the byte back, and ends there.
  write_verify_byte-eq-ok :
      (a v : ℕ) (old : Option ℕ) (s : Session W) (w : ℕ)
      → (write_verify_byte broker a (pos v) old s).0 ≡ ok w
      → (value_read (read_after_write broker a v s).0 ≡ some v)
        × ((write_verify_byte broker a (pos v) old s).1 ≡ (read_after_write broker a v s).1)
  unfolding write_verify_byte attempt first_do give
  write_verify_byte-eq-ok a v old s w =
      let u = read_after_write broker a v s in
      cases (confirms broker (pos v) u.0) (error_of (write_byte broker a (pos v) s).0) u.0 u.1
        (confirms-eq-some v u.0)
    where
      cases :
          (c : Option ℕ) (ack : Option Failure) (read : Result Failure (ℕ × Text)) (t : Session W)
          → ((x : ℕ) → c ≡ some x → value_read read ≡ some v)
          → let r : Result MaintenanceError ℕ × Session W =
              elim c as (λ _. Op MaintenanceError W ℕ) [
                | some x ↦ give x
                | none ↦ refuse broker a (pos v) old ack read
              ]
                t in
            r.0 ≡ ok w → (value_read read ≡ some v) × (r.1 ≡ t)
      cases (some x) ack read t f h = (f x refl, refl)
      cases none ack read t f h = absurd (refuse-not_ok a v old ack read t w h)

  only_reads : Reads IsRead
  only_reads c r = r

  module _ (address reference raw requested : ℕ) (confirmed force : Bool) (s : Session W) where
    -- the session in which the write begins: the byte and the reference have been read
    abbrev pub before_write : Session W
    before_write = (reading broker reference 4 (reading broker address 1 s).1).1

    -- What a result of `set_hours` or `set_months` from `s` says of the byte `raw` at `address`.
    abbrev pub IsEffect : Session W → Outcome → Type 0
    IsEffect t (unchanged value text now) =
        (value ≡ requested)
        × (force ≡ false)
        × (value_read (read_uint_le broker address 1 s).0 ≡ some raw)
        × Grows IsRead s.sent t.sent
    IsEffect t (changed c) =
        (c.requested ≡ requested)
        × (confirmed ≡ true)
        × Grows IsRead s.sent before_write.sent
        × (value_read (read_after_write broker address raw before_write).0 ≡ some raw)
        × Grows IsRead (read_after_write broker address raw before_write).1.sent t.sent

    Gives : Result MaintenanceError Outcome × Session W → Type 0
    Gives r = (out : Outcome) → r.0 ≡ ok out → IsEffect r.1 out

    module _ (near : Any (λ b. address ≡ b) readable)
        (far : Any (λ b. reference ≡ b) readable) where
      abbrev t : Session W
      t = (reading broker address 1 s).1

      calm : Grows IsRead s.sent t.sent
      calm = Sends-at IsRead _ (reading-Sends broker IsRead only_reads address 1 near) s

      started : Grows IsRead s.sent before_write.sent
      started =
          Grows-trans IsRead s.sent t.sent before_write.sent calm
            (Sends-at IsRead _ (reading-Sends broker IsRead only_reads reference 4 far) t)

      -- what follows the write
      abbrev finish : ℕ → ℕ × Text → Op MaintenanceError W Outcome
      finish previous before = reading broker reference 4 >>= λ after. status broker >>= λ now.
          give (
            changed (record {
              previous = previous;
              requested = requested;
              before = before;
              after = after;
              reference_changed = not (after.0 == before.0);
              status = now;
            }))

      finish-Sends : (previous : ℕ) (before : ℕ × Text) → Sends IsRead (finish previous before)
      finish-Sends previous before =
          Sends-bind IsRead _ _ (reading-Sends broker IsRead only_reads reference 4 far) (λ _.
            Sends-bind IsRead _ _ (status-Sends broker IsRead only_reads)
              (λ _. Sends-give IsRead _ _ _ _))

      change-Gives :
          (current previous : ℕ)
          → confirmed ≡ true
          → Gives (change broker address reference raw current previous requested t)
      unfolding change Gives give
      change-Gives current previous agreed =
          bind_elim Gives (reading broker reference 4) _ t (λ e _ out h. absurd cc)
            (λ before _.
              bind_elim Gives (write_verify_byte broker address (pos raw) (some current)) _
                before_write (λ e _ out h. absurd cc)
                (λ w verified out h.
                  let (right, ends) =
                    write_verify_byte-eq-ok address raw (some current) before_write w verified in
                  let s₂ =
                    (write_verify_byte broker address (pos raw) (some current) before_write).1 in
                  let (after, _, h₃) = bind-eq-ok (reading broker reference 4) _ s₂ out h in
                  let s₃ = (reading broker reference 4 s₂).1 in
                  let (now, _, h₄) = bind-eq-ok (status broker) _ s₃ out h₃ in
                  subst (IsEffect (finish previous before s₂).1)
                    (sym (give-eq-ok _ out (status broker s₃).1 h₄))
                    (
                      refl,
                      agreed,
                      started,
                      right,
                      subst (λ z. Grows IsRead z.sent (finish previous before s₂).1.sent) ends
                          (Sends-at IsRead (finish previous before) (finish-Sends previous before)
                            s₂),
                    )))

      -- the part that the two operations share
      effect_lem :
          (previous : ℕ) (current : ℕ × Text)
          → (reading broker address 1 s).0 ≡ ok current
          → Gives (
              (if current.0 == raw && not force
                  then (status broker >>= λ now. give (unchanged requested current.1 now))
                  else if not confirmed
                  then raise confirmation_required
                  else change broker address reference raw current.0 previous requested)
                t)
      unfolding raise Gives give
      effect_lem previous current read =
          let P : Op MaintenanceError W Outcome → Type 0 = λ m. Gives (m t) in
          if_elim P (current.0 == raw && not force)
            (λ e.
              bind_elim Gives (status broker) _ t (λ e _ out h. absurd cc)
                (λ now _ out h.
                  let same : current.0 ≡ raw = ground arith in
                  let free : force ≡ false = ground arith in
                  let was : value_read (read_uint_le broker address 1 s).0 ≡ some raw =
                    ap value_read
                      (lift-eq-ok exchange_failed (read_uint_le broker address 1) s current read)
                    ∙ ap some same in
                  subst (IsEffect (status broker t).1)
                    (sym (give-eq-ok _ out (status broker t).1 h))
                    (
                      refl,
                      free,
                      was,
                      Grows-trans IsRead s.sent t.sent (status broker t).1.sent calm (
                          Sends-at IsRead (status broker) (status-Sends broker IsRead only_reads)
                            t),
                    )))
            (λ _.
              if_elim P (not confirmed) (λ _ out h. absurd cc)
                (λ e. change-Gives current.0 previous (ground arith)))

  -- When the operation of `set_hours` or `set_months` returns, one of two holds, for the byte at 0x5721
  -- and the hours in hundreds, or the byte at 0x5723 and the months. The write was not forced, the first
  -- reading in this run gave that byte, and only reads were published. Or the write was confirmed; before
  -- it only reads were published; the readback in this run, after the write and the pause, gave that
  -- byte; and after it only reads were published. Without a confirmation only reads are published, also
  -- where the operation raises.
  pub settings-AreEffects :
      (value : ℕ) (confirmed force : Bool) (s : Session W)
      → let h = hours_operation broker value confirmed force s in
        let m = months_operation broker value confirmed force s in
        OnOk
          (IsEffect hours_threshold burner_reference (value / 100) value confirmed force s h.1)
          h.0
        × OnOk (IsEffect interval_months interval_reference value value confirmed force s m.1) m.0
        × (confirmed ≡ false → Grows IsRead s.sent h.1.sent × Grows IsRead s.sent m.1.sent)
  unfolding hours_operation months_operation Gives
  settings-AreEffects value confirmed force s = (
    OnOk-intro _ _ (
        bind_elim (Gives hours_threshold burner_reference (value / 100) value confirmed force s)
          (reading broker hours_threshold 1) _ s (λ e _ out h. absurd cc)
          (λ current read.
            effect_lem hours_threshold burner_reference (value / 100) value confirmed force s
              (ground arith) (ground arith) (current.0 * 100) current read)),
    OnOk-intro _ _ (
        bind_elim (Gives interval_months interval_reference value value confirmed force s)
          (reading broker interval_months 1) _ s (λ e _ out h. absurd cc)
          (λ current read.
            effect_lem interval_months interval_reference value value confirmed force s
              (ground arith) (ground arith) current.0 current read)),
    λ no. (
      Sends-at IsRead _
          (hours-Sends broker IsRead only_reads value confirmed force (λ c. absurd (cc))) s,
      Sends-at IsRead _
          (months-Sends broker IsRead only_reads value confirmed force (λ c. absurd (cc))) s,
    ),
  )
