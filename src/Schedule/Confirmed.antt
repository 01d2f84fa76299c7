-- ===== src/Schedule/Confirmed.antt =====
-- `apply` of tools/optolink-schedule-manager.py: what it publishes and when it succeeds.
use optolink.Base.{ℕ, ◌≡◌, refl, sym, ap, ◌∙◌, true, none, some, List}
use optolink.Base.Result.{Result, ok, err}
use optolink.Text.{Text}
use optolink.Maintenance.Device.{Broker, Session}
use optolink.Schedule.Times.{ScheduleError, Window}
use optolink.Schedule.Blocks.{encode_schedule, decode_block}
use optolink.Schedule.Manager.{
  Program, block_address, LinkError, rejected, succeeded, Applied, applied, apply_block, settled,
  apply,
}
use optolink.Schedule.Rechecked.{encoded_lem, same_error, Seen, IsRight, apply_block-IsRight}

module _ {W : Type 0} (broker : Broker W) (address : ℕ) where
  settled-IsRight :
      (target : List ℕ) (ws : List Window) (r : Result LinkError Applied × Session W)
      → IsRight broker address target ws r
      → ((vs : List Window)
          → (settled broker r.0).published ≡ some vs
          → (raw : List ℕ) × Seen broker address raw r.1 × (decode_block raw ≡ ok vs))
        × (succeeded (settled broker r.0).outcome ≡ true
            → Seen broker address target r.1 × ((settled broker r.0).published ≡ some ws))
  settled-IsRight target ws (err e, t) h = (λ vs x. absurd cc, λ x. absurd cc)
  settled-IsRight target ws (ok a, t) h = h a refl

-- Whatever the controller and the broker do, `apply` publishes as a verified state only windows that
-- the block which it read last decodes to; and it reports success only if the payload was encoded, the
-- last block read was byte for byte the encoded one, and the payload's windows were published. A
-- payload that is not encoded changes nothing and sends nothing.
pub apply-IsConfirmed :
    {W : Type 0} (broker : Broker W) (program : Program) (day : ℕ) (payload : Text) (s : Session W)
    → let r = apply broker program day payload s in
      ((vs : List Window)
        → r.0.published ≡ some vs
        → (raw : List ℕ) × Seen broker (block_address program day) raw r.1
          × (decode_block raw ≡ ok vs))
      × (succeeded r.0.outcome ≡ true
          → (target : List ℕ) × (ws : List Window) × (encode_schedule payload ≡ ok (target, ws))
            × Seen broker (block_address program day) target r.1
            × (r.0.published ≡ some ws))
      × ((e : ScheduleError) → encode_schedule payload ≡ err e → r ≡ (applied (rejected e) none, s))
unfolding apply
apply-IsConfirmed {W = W} broker program day payload s = cases (encode_schedule payload) refl
  where
    address : ℕ
    address = block_address program day

    P : Applied × Session W → Type 0
    P r =
        ((vs : List Window)
          → r.0.published ≡ some vs
          → (raw : List ℕ) × Seen broker address raw r.1 × (decode_block raw ≡ ok vs))
        × (succeeded r.0.outcome ≡ true
            → (target : List ℕ) × (ws : List Window) × (encode_schedule payload ≡ ok (target, ws))
              × Seen broker address target r.1
              × (r.0.published ≡ some ws))
        × ((e : ScheduleError)
            → encode_schedule payload ≡ err e
            → r ≡ (applied (rejected e) none, s))

    cases :
        (r : Result ScheduleError (List ℕ × List Window))
        → encode_schedule payload ≡ r
        → P (elim r as (λ _. Applied × Session W) [
          | err e ↦ (applied (rejected e) none, s)
          | ok (target, windows) ↦
              let r = apply_block broker address target windows s in (settled broker r.0, r.1)
        ])
    cases (err e) h = (
      λ vs x. absurd cc,
      λ x. absurd cc,
      λ f x. ap (λ g. (applied (rejected g) none, s)) (same_error e f (sym h ∙ x)),
    )
    cases (ok (target, ws)) h =
        let (pub_right, ok_right) =
          settled-IsRight broker address target ws (apply_block broker address target ws s)
            (apply_block-IsRight broker address target ws s (encoded_lem payload target ws h)) in
        (
          pub_right,
          λ x. let (seen, shown) = ok_right x in (target, ws, h, seen, shown),
          λ e x. absurd cc,
        )
