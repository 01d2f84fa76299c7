-- ===== src/Maintenance/Log.antt =====
-- What the operations of optolink_maintenance_core.py publish: lemmas on the log `sent`.
use optolink.Base.{
  ℕ, zero, suc, ◌≤◌, ◌≡◌, refl, sym, ap, ◌∙◌, Bool, false, not, Option, none, some, List, [], ◌∷◌,
  ◌++◌, arith, leb, if◌then◌else◌, All, All-append, if_elim,
}
use mathlib.Core.List.{append_assoc}
use optolink.Base.Result.{Result, ok, err}
use optolink.Text.{Text, pos}
use optolink.Maintenance.Commands.{Failure, read_command, write_command, command_addr}
use optolink.Maintenance.Device.{
  Broker, Session, Op, give, raise, first_do, attempt, lift, ◌>>=◌, pick, receive, await, post,
  request, sleep,
}
use optolink.Maintenance.Bytes.{read_raw, read_uint_le, write_byte, raw_response, uint_of}

-- `before` has grown to `after` by commands of which `P` holds.
abbrev pub Grows : (Text → Type 0) → List Text → List Text → Type 0
Grows P before after = (new : List Text) × (after ≡ new ++ before) × All P new

module _ (P : Text → Type 0) where
  pub Grows-refl : (a : List Text) → Grows P a a
  Grows-refl a = ([], refl, tt)

  pub Grows-one : (c : Text) (a : List Text) → P c → Grows P a (c ∷ a)
  Grows-one c a h = (c ∷ [], refl, (h, tt))

  pub Grows-trans : (a b c : List Text) → Grows P a b → Grows P b c → Grows P a c
  Grows-trans a b c (n₁, e₁, h₁) (n₂, e₂, h₂) =
      (n₂ ++ n₁, e₂ ∙ ap (λ z. n₂ ++ z) e₁ ∙ sym (append_assoc n₂ n₁ a), All-append P n₂ n₁ h₂ h₁)

module _ {W E A : Type 0} where
  -- the operation publishes only commands of which `P` holds
  unfoldable pub Sends : (Text → Type 0) → Op E W A → Type 0
  Sends P m = (s : Session W) → Grows P s.sent (m s).1.sent

module _ {W E A : Type 0} where
  -- To split on the outcome of the first operation of a chain, of a lifted one, or of any.
  pub bind_elim :
      {B : Type 0} (P : Result E A × Session W → Type 0) (m : Op E W B) (k : B → Op E W A)
      (s : Session W)
      → ((e : E) → (m s).0 ≡ err e → P (err e, (m s).1))
      → ((b : B) → (m s).0 ≡ ok b → P (k b (m s).1))
      → P ((m >>= k) s)
  unfolding ◌>>=◌
  bind_elim {B = B} P m k s he ho = cases (m s).0 (m s).1 he ho
    where
      cases :
          (r : Result E B) (t : Session W)
          → ((e : E) → r ≡ err e → P (err e, t))
          → ((b : B) → r ≡ ok b → P (k b t))
          → P (elim r [ err e ↦ (err e, t) | ok b ↦ k b t ])
      cases (err e) t he ho = he e refl
      cases (ok b) t he ho = ho b refl

  -- Inversion of a chain that returns.
  pub bind-eq-ok :
      {B : Type 0} (m : Op E W B) (k : B → Op E W A) (s : Session W) (a : A)
      → ((m >>= k) s).0 ≡ ok a
      → (b : B) × ((m s).0 ≡ ok b) × ((k b (m s).1).0 ≡ ok a)
  bind-eq-ok {B = B} m k s a h =
      bind_elim (λ r. r.0 ≡ ok a → (b : B) × ((m s).0 ≡ ok b) × ((k b (m s).1).0 ≡ ok a)) m k s
        (λ e x y. absurd cc) (λ b x y. (b, x, y)) h

  pub lift-sent :
      {F : Type 0} (f : F → E) (m : Op F W A) (s : Session W) → (lift f m s).1.sent ≡ (m s).1.sent
  unfolding lift
  lift-sent {F = F} f m s = cases (m s).0 (m s).1
    where
      cases :
          (r : Result F A) (t : Session W)
          → (elim r as (λ _. Result E A × Session W) [
            | err e ↦ (err (f e), t)
            | ok a ↦ (ok a, t)
          ]).1.sent
            ≡ t.sent
      cases (err e) t = refl
      cases (ok a) t = refl

  pub lift-state :
      {F : Type 0} (f : F → E) (m : Op F W A) (s : Session W) → (lift f m s).1 ≡ (m s).1
  unfolding lift
  lift-state {F = F} f m s = cases (m s).0 (m s).1
    where
      cases :
          (r : Result F A) (t : Session W)
          → (elim r as (λ _. Result E A × Session W) [
            | err e ↦ (err (f e), t)
            | ok a ↦ (ok a, t)
          ]).1
            ≡ t
      cases (err e) t = refl
      cases (ok a) t = refl

  pub lift-eq-ok :
      {F : Type 0} (f : F → E) (m : Op F W A) (s : Session W) (a : A)
      → (lift f m s).0 ≡ ok a
      → (m s).0 ≡ ok a
  unfolding lift
  lift-eq-ok {F = F} f m s a = cases (m s).0 (m s).1
    where
      cases :
          (r : Result F A) (t : Session W)
          → (elim r as (λ _. Result E A × Session W) [
            | err e ↦ (err (f e), t)
            | ok a ↦ (ok a, t)
          ]).0
            ≡ ok a
          → r ≡ ok a
      cases (err e) t h = absurd cc
      cases (ok b) t h = cc

  module _ (P : Text → Type 0) where
    pub Sends-at : (m : Op E W A) → Sends P m → (s : Session W) → Grows P s.sent (m s).1.sent
    unfolding Sends
    Sends-at m h s = h s

    pub Sends-bind :
        {B : Type 0} (m : Op E W B) (k : B → Op E W A)
        → Sends P m
        → ((b : B) → Sends P (k b))
        → Sends P (m >>= k)
    unfolding Sends
    Sends-bind m k hm hk s =
        bind_elim (λ r. Grows P s.sent r.1.sent) m k s (λ e _. hm s)
          (λ b _. Grows-trans P s.sent (m s).1.sent (k b (m s).1).1.sent (hm s) (hk b (m s).1))

    pub Sends-lift : {F : Type 0} (f : F → E) (m : Op F W A) → Sends P m → Sends P (lift f m)
    unfolding Sends
    Sends-lift f m h s = rw (lift-sent f m s) (h s)

    pub Sends-attempt :
        {F B : Type 0} (m : Op F W B) (k : Result F B → Op E W A)
        → Sends P m
        → ((r : Result F B) → Sends P (k r))
        → Sends P (attempt m k)
    unfolding Sends attempt
    Sends-attempt m k hm hk s =
        Grows-trans P s.sent (m s).1.sent (k (m s).0 (m s).1).1.sent (hm s) (hk (m s).0 (m s).1)

    pub Sends-sleep :
        (broker : Broker W) (m : Op E W A) → Sends P m → Sends P (first_do (sleep broker) m)
    unfolding Sends first_do
    Sends-sleep broker m h s = h (sleep broker s)

    pub Sends-if :
        (b : Bool) (m n : Op E W A) → Sends P m → Sends P n → Sends P (if b then m else n)
    Sends-if b m n hm hn = if_elim (λ (o : Op E W A). Sends P o) b (λ _. hm) (λ _. hn)

module _ (P : Text → Type 0) (E W A : Type 0) where
  pub Sends-give : (a : A) → Sends P (give {E = E} {W = W} a)
  unfolding Sends give
  Sends-give a s = Grows-refl P s.sent

  pub Sends-raise : (e : E) → Sends P (raise {E = E} {W = W} {A = A} e)
  unfolding Sends raise
  Sends-raise e s = Grows-refl P s.sent

module _ {W : Type 0} (broker : Broker W) where
  await-sent : (n : ℕ) (c : Text) (s : Session W) → (await broker n c s).1.sent ≡ s.sent
  unfolding await
  await-sent zero c s = refl
  await-sent (suc n) c s =
      let found = pick (command_addr c) (receive broker s).responses in
      let left = record (receive broker s) { responses = found.1 } in
      cases found.0 left (await broker n c left) (await-sent n c left)
    where
      cases :
          (o : Option Text) (t : Session W) (r : Result Failure Text × Session W)
          → r.1.sent ≡ t.sent
          → (elim o as (λ _. Result Failure Text × Session W) [
            | none ↦ r
            | some a ↦ (ok a, t)
          ]).1.sent
            ≡ t.sent
      cases none t r h = h
      cases (some a) t r h = refl

  -- `request` publishes its command and no other.
  pub request-sent : (c : Text) (s : Session W) → (request broker c s).1.sent ≡ c ∷ s.sent
  unfolding request
  request-sent c s =
      if_elim {A = Result Failure Text × Session W} (λ r. r.1.sent ≡ c ∷ s.sent)
        (not (broker.publish c s.world).0) (λ _. refl)
        (λ _. await-sent (broker.looks (broker.publish c s.world).1) c (post broker c s))

  pub read_raw-sent :
      (a n : ℕ) (s : Session W) → (read_raw broker a n s).1.sent ≡ read_command a n ∷ s.sent
  unfolding read_raw
  read_raw-sent a n s =
      bind_elim (λ r. r.1.sent ≡ read_command a n ∷ s.sent) (request broker (read_command a n))
        (λ response t. (raw_response a n response, t)) s (λ _ _. request-sent (read_command a n) s)
        (λ _ _. request-sent (read_command a n) s)

  pub read_uint_le-sent :
      (a n : ℕ) (s : Session W) → (read_uint_le broker a n s).1.sent ≡ read_command a n ∷ s.sent
  unfolding read_uint_le give
  read_uint_le-sent a n s =
      bind_elim (λ r. r.1.sent ≡ read_command a n ∷ s.sent) (read_raw broker a n)
        (λ raw. give (uint_of raw)) s (λ _ _. read_raw-sent a n s) (λ _ _. read_raw-sent a n s)

  pub write_byte-sent :
      (a v : ℕ) (s : Session W)
      → v ≤ 255
      → (write_byte broker a (pos v) s).1.sent ≡ write_command a v ∷ s.sent
  unfolding write_byte
  write_byte-sent a v s h =
      if_elim {A = Op Failure W Text} (λ m. (m s).1.sent ≡ write_command a v ∷ s.sent)
        (not (leb v 255)) (λ e. absurd (ground arith)) (λ _. request-sent (write_command a v) s)

  pub write_byte-refused :
      (a v : ℕ) (s : Session W)
      → leb v 255 ≡ false
      → (write_byte broker a (pos v) s).1.sent ≡ s.sent
  unfolding write_byte raise
  write_byte-refused a v s h =
      if_elim {A = Op Failure W Text} (λ m. (m s).1.sent ≡ s.sent) (not (leb v 255)) (λ _. refl)
        (λ e. absurd (ground arith))
