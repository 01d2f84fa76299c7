-- ===== src/Schedule/Rechecked.antt =====
-- `apply`: what it reports is what it read last.
use optolink.Base.{ℕ, zero, suc, ◌≡◌, refl, sym, ap, ◌∙◌, true, not, some, List, arith, if_elim}
use mathlib.Core.Path.{subst}
use optolink.Base.Result.{Result, ok, err, >>=-eq-ok}
use optolink.Text.{same_text-eq, Text}
use optolink.Maintenance.Device.{Broker, Session, Op, give, raise, first_do, sleep}
use optolink.Maintenance.Log.{bind_elim}
use optolink.Schedule.Times.{ScheduleError, Window, parse_schedule}
use optolink.Schedule.Blocks.{encode_schedule, decode_block}
use optolink.Schedule.RoundTrip.{decode_block-encode_schedule}
use optolink.Schedule.Manager.{
  LinkError, was_restored, Outcome, unchanged, written, failed, succeeded, Applied, applied,
  same_bytes, read_block, write_block, readback_target, readback, put_back, windows_of, apply_block,
}

abbrev coded : List ℕ × List Window → Result ScheduleError (List ℕ × List Window)
coded p = ok p

same_parts : (a b : List ℕ) (v w : List Window) → coded (a, v) ≡ coded (b, w) → (a ≡ b) × (v ≡ w)
same_parts a b v w h = (cc, cc)

-- a payload that is encoded decodes to its windows
pub encoded_lem :
    (payload : Text) (target : List ℕ) (ws : List Window)
    → encode_schedule payload ≡ ok (target, ws)
    → decode_block target ≡ ok ws
unfolding encode_schedule
encoded_lem payload target ws h =
    let (vs, parsed, _) = >>=-eq-ok (parse_schedule payload) _ h in
    let (_, _, _, raw, encoded, _, _, decoded) = decode_block-encode_schedule payload vs parsed in
    let (same_raw, same_ws) = same_parts raw target vs ws (sym encoded ∙ h) in
    subst (λ r. decode_block r ≡ ok ws) same_raw (decoded ∙ ap (λ u. ok u) same_ws)

abbrev value : {A : Type 0} → A → Result LinkError A
value a = ok a

abbrev refused : ScheduleError → Result ScheduleError (List ℕ × List Window)
refused e = err e

pub same_error : (e f : ScheduleError) → refused e ≡ refused f → e ≡ f
same_error e f h = cc

same_value : (a b : Applied) → value a ≡ value b → a ≡ b
same_value a b h = cc

same_windows : (v w : List Window) → value v ≡ value w → v ≡ w
same_windows v w h = cc

same_some : (v w : List Window) → some v ≡ some w → v ≡ w
same_some v w h = cc

module _ {W : Type 0} (broker : Broker W) (address : ℕ) where
  -- The last exchange before the state was a reading of the block that gave `raw`.
  abbrev pub Seen : List ℕ → Session W → Type 0
  Seen raw s = (t : Session W) × (read_block broker address t ≡ (ok raw, s))

  -- a result that is a block is the one read last
  abbrev LastRead : Result LinkError (List ℕ) × Session W → Type 0
  LastRead r = (raw : List ℕ) → r.0 ≡ ok raw → Seen raw r.1

  read_block-LastRead : (s : Session W) → LastRead (read_block broker address s)
  read_block-LastRead s raw h = (s, ap (λ z. (z, (read_block broker address s).1)) h)

  readback-LastRead :
      (n : ℕ) (target : List ℕ) (s : Session W)
      → LastRead (readback_target broker n address target s)
  unfolding readback_target first_do give
  readback-LastRead zero target s = read_block-LastRead (sleep broker s)
  readback-LastRead (suc n) target s =
      bind_elim LastRead (read_block broker address) _ (sleep broker s) (λ e x raw h. absurd cc)
        λ last x.
          if_elim {A = Op LinkError W (List ℕ)}
            (λ m. LastRead (m (read_block broker address (sleep broker s)).1))
            (same_bytes last target) (λ _. given last (sleep broker s) x)
            (λ _. readback-LastRead n target (read_block broker address (sleep broker s)).1)
    where
      given :
          (last : List ℕ) (t : Session W)
          → (read_block broker address t).0 ≡ ok last
          → LastRead (give last (read_block broker address t).1)
      given last t x raw h = (t, ap (λ z. (z, (read_block broker address t).1)) (x ∙ h))

  -- A report that is right: what is published was read last, and a success is the target, read last.
  abbrev pub IsRight : List ℕ → List Window → Result LinkError Applied × Session W → Type 0
  IsRight target ws r =
      (a : Applied)
      → r.0 ≡ ok a
      → ((vs : List Window)
          → a.published ≡ some vs
          → (raw : List ℕ) × Seen raw r.1 × (decode_block raw ≡ ok vs))
        × (succeeded a.outcome ≡ true → Seen target r.1 × (a.published ≡ some ws))

  -- a report of what was read and decoded
  reported :
      (target : List ℕ) (ws : List Window) (raw : List ℕ) (vs : List Window) (o : Outcome)
      (s : Session W)
      → Seen raw s
      → decode_block raw ≡ ok vs
      → (succeeded o ≡ true → (raw ≡ target) × (vs ≡ ws))
      → IsRight target ws (give (applied o (some vs)) s)
  unfolding give
  reported target ws raw vs o s seen decoded same a h =
      let e : applied o (some vs) ≡ a = same_value (applied o (some vs)) a h in
      let published : some vs ≡ a.published = ap (λ (x : Applied). x.published) e in
      let outcome : o ≡ a.outcome = ap (λ (x : Applied). x.outcome) e in
      (
        λ us p. (raw, seen, decoded ∙ ap (λ u. ok u) (same_some vs us (published ∙ p))),
        λ p.
            let (r, v) = same (ap succeeded outcome ∙ p) in
            (subst (λ x. Seen x s) r seen, sym published ∙ ap (λ u. some u) v),
      )

  put_back-IsRight :
      (target : List ℕ) (ws : List Window) (original : List ℕ) (vs : List Window) (s : Session W)
      → decode_block original ≡ ok vs
      → IsRight target ws (put_back broker address original vs s)
  unfolding put_back raise
  put_back-IsRight target ws original vs s d =
      bind_elim (IsRight target ws) (write_block broker address original) _ s (λ e x a h. absurd cc)
        λ _ x.
          let t = (write_block broker address original s).1 in
          bind_elim (IsRight target ws) (readback broker address original) _ t
            (λ e y a h. absurd cc)
            λ restored y.
              let u = (readback broker address original t).1 in
              if_elim {A = Op LinkError W Applied} (λ m. IsRight target ws (m u))
                (not (same_bytes restored original)) (λ _ a h. absurd cc)
                λ e.
                  let same : restored ≡ original = same_text-eq restored original (ground arith) in
                  reported target ws original vs (failed was_restored) u
                    (subst (λ r. Seen r u) same (readback-LastRead 2 original t restored y)) d
                    (λ z. absurd cc)

  pub apply_block-IsRight :
      (target : List ℕ) (ws : List Window) (s : Session W)
      → decode_block target ≡ ok ws
      → IsRight target ws (apply_block broker address target ws s)
  unfolding apply_block
  apply_block-IsRight target ws s d =
      bind_elim (IsRight target ws) (read_block broker address) _ s (λ e x a h. absurd cc)
        λ original x.
          let t = (read_block broker address s).1 in
          bind_elim (IsRight target ws) (λ u. (windows_of broker (decode_block original), u)) _ t
            (λ e y a h. absurd cc)
            λ vs y.
              if_elim {A = Op LinkError W Applied} (λ m. IsRight target ws (m t))
                (same_bytes original target)
                (λ e.
                  reported target ws target ws unchanged t
                    (subst (λ r. Seen r t) (same_text-eq original target e)
                      (read_block-LastRead s original x))
                    d (λ _. (refl, refl)))
                (λ _.
                  bind_elim (IsRight target ws) (write_block broker address target) _ t
                    (λ e z a h. absurd cc)
                    λ _ z.
                      let u = (write_block broker address target t).1 in
                      bind_elim (IsRight target ws) (readback broker address target) _ u
                        (λ e q a h. absurd cc)
                        λ last q.
                          let v = (readback broker address target u).1 in
                          if_elim {A = Op LinkError W Applied} (λ m. IsRight target ws (m v))
                            (not (same_bytes last target))
                            (λ _.
                              put_back-IsRight target ws original vs v
                                (windows_of_lem (decode_block original) vs y))
                            (λ e.
                              reported target ws target ws written v
                                (subst (λ r. Seen r v) (same_text-eq last target (ground arith))
                                  (readback-LastRead 2 target u last q))
                                d (λ _. (refl, refl))))
    where
      windows_of_lem :
          (r : Result ScheduleError (List Window)) (vs : List Window)
          → windows_of broker r ≡ ok vs
          → r ≡ ok vs
      windows_of_lem (err e) vs h = absurd cc
      windows_of_lem (ok us) vs h = ap (λ u. ok u) (same_windows us vs h)
