-- ===== src/Clock/Sync/Requests.antt =====
-- The requests of tools/optolink-clock-sync.py: what they write, and what a reading of the clock
-- goes by.
use optolink.Base.{
  ℕ, zero, suc, ◌+◌, ◌≤◌, ◌≡◌, refl, Bool, true, false, not, Option, none, some, List, ◌∷◌, arith,
  if◌then◌else◌, if_elim, length, keep,
}
use optolink.Base.Effect.{Outcome}
use optolink.Base.Effect.Triples.{
  Does-give, Does-raise, Does-bind, Does-except, Does-weaken, Does, Does-test,
}
use optolink.Base.Result.{Result, ok, err}
use optolink.Text.{Text, same_text, split}
use optolink.Text.Hex.{from_hex}
use optolink.Schedule.Manager.{search_answer}
use optolink.Clock.{DateTime}
use optolink.Clock.Sync.{
  SyncError, no_transport, timed_out, malformed, splitter_failure, unexpected_readback,
  not_verified, bad_time, Status, Host, Session, SyncOp, read_command, write_command,
  response_value, is_clock_value, decoded, let_pass, of_result, wait, listen, post, request,
  read_clock, write_clock,
}

-- the commands that are no read of the clock
abbrev pub writes : List Text → ℕ
writes cs = length (keep (λ c. not (same_text c read_command)) cs)

pub writes-cons : (c : Text) (cs : List Text) → writes (c ∷ cs) ≤ writes cs + 1
writes-cons c cs =
    one (not (same_text c read_command)) (keep (λ c. not (same_text c read_command)) cs)
  where
    one : (b : Bool) (xs : List Text) → length (if b then c ∷ xs else xs) ≤ length xs + 1
    one true xs = omega arith
    one false xs = omega arith

module _ {W : Type 0} where
  -- at most `k` writes have been published, and these statuses
  abbrev pub Has : ℕ → List Status → Session W → Type 0
  Has k ss s = (writes s.sent ≤ k) × (s.statuses ≡ ss)

  abbrev pub AtMost : ℕ → Session W → Type 0
  AtMost k s = writes s.sent ≤ k

  -- The last response in the session is for the clock, and it reads as the time and the weekday.
  abbrev pub Heard : DateTime × ℕ → Session W → Type 0
  Heard x s =
      (r : Text) × (v : Text) × (search_answer 0x088E s.responses ≡ some r)
      × (response_value (split b';' r) ≡ ok v)
      × (is_clock_value v ≡ true)
      × (decoded (from_hex v) ≡ ok x)

pub of_result-Known :
    {W A : Type 0} (P : Session W → Type 0) (r : Result SyncError A)
    → Does P (of_result r) (λ a s. P s × (r ≡ ok a)) (λ _. P)
unfolding of_result
of_result-Known P (ok a) = record { at = λ s i. (i, refl) }
of_result-Known P (err e) = record { at = λ s i. i }

module _ {W : Type 0} (host : Host W) (ss : List Status) where
  abbrev pub Keeps : {A : Type 0} → ℕ → ℕ → SyncOp W A → Type 0
  Keeps k j m = Does (Has k ss) m (λ _. Has j ss) (λ _. Has j ss)

  abbrev Finds : ℕ → Text → Session W → Type 0
  Finds k r s = Has k ss s × (search_answer 0x088E s.responses ≡ some r)

  listen-Finds : (k n : ℕ) → Does (Has k ss) (listen host n) (Finds k) (λ _. Has k ss)
  unfolding listen
  listen-Finds k zero = record { at = λ s i. found s i (search_answer 0x088E s.responses) refl }
    where
      found :
          (s : Session W)
          → Has k ss s
          → (o : Option Text) → search_answer 0x088E s.responses ≡ o
          → let r : Result SyncError Text × Session W = elim o [
            | none ↦ (err timed_out, s)
            | some r ↦ (ok r, s)
          ] in
            Outcome (Finds k) (λ _. Has k ss) r.0 r.1
      found s i none e = i
      found s i (some r) e = (i, e)
  listen-Finds k (suc n) = record {
    at = λ s i.
        found s i ((listen-Finds k n).at (wait host s) i) (search_answer 0x088E s.responses) refl;
  }
    where
      found :
          (s : Session W)
          → Has k ss s
          → let l = listen host n (wait host s) in
            Outcome (Finds k) (λ _. Has k ss) l.0 l.1
            → (o : Option Text) → search_answer 0x088E s.responses ≡ o
            → let r : Result SyncError Text × Session W = elim o [
              | none ↦ listen host n (wait host s)
              | some r ↦ (ok r, s)
            ] in
              Outcome (Finds k) (λ _. Has k ss) r.0 r.1
      found s i later none e = later
      found s i later (some r) e = (i, e)

  request-Finds :
      (k j : ℕ) (c : Text)
      → ((cs : List Text) → writes cs ≤ k → writes (c ∷ cs) ≤ j)
      → Does (Has k ss) (request host c) (Finds j) (λ _. Has j ss)
  unfolding request
  request-Finds k j c h = record {
    at = λ s i.
        if_elim
          (λ (r : Result SyncError Text × Session W). Outcome (Finds j) (λ _. Has j ss) r.0 r.1)
          (not (host.publish c s.world).0) (λ _. (h s.sent i.0, i.1))
          (λ _. (listen-Finds j _).at (post host c s) (h s.sent i.0, i.1));
  }

  -- A reading of the clock writes nothing, and goes by the last response.
  pub read_clock-Heard :
      (k : ℕ) → Does (Has k ss) (read_clock host) (λ x s. Has k ss s × Heard x s) (λ _. Has k ss)
  unfolding read_clock
  read_clock-Heard k =
      Does-bind (Finds k) _ _ (request-Finds k k read_command (λ cs h. h)) λ response.
        Does-bind (λ v s. Finds k response s × (response_value (split b';' response) ≡ ok v)) _ _
          (Does-weaken (λ v s. Finds k response s × (response_value (split b';' response) ≡ ok v))
            (λ _. Finds k response) _
            (of_result-Known (Finds k response) (response_value (split b';' response))) (λ _ s i. i)
            (λ _ s i. i.0))
          λ value.
            Does-test (is_clock_value value) unexpected_readback _ (λ s i _. i.0.0)
              λ e.
                Does-weaken _ _ _
                  (of_result-Known
                    (λ s. Finds k response s × (response_value (split b';' response) ≡ ok value))
                    (decoded (from_hex value)))
                  (λ x s i. (i.0.0.0, (response, value, i.0.0.1, i.0.1, e, i.1))) (λ _ s i. i.0.0)

  pub write_clock-Keeps : (k : ℕ) (raw : List ℕ) → Keeps k (k + 1) (write_clock host raw)
  unfolding write_clock
  write_clock-Keeps k raw =
      Does-except (λ _. Has (k + 1) ss) _ _
        (Does-bind (λ _. Has (k + 1) ss) _ _
          (Does-weaken (Finds (k + 1)) (λ _. Has (k + 1) ss) _
            (request-Finds k (k + 1) (write_command raw) more) (λ _ s i. i.0) (λ _ s i. i))
          (λ _. Does-give tt (λ s i. i)))
        passed
    where
      more : (cs : List Text) → writes cs ≤ k → writes (write_command raw ∷ cs) ≤ k + 1
      more cs h = omega (arith, writes-cons (write_command raw) cs)

      passed : (e : SyncError) → Keeps (k + 1) (k + 1) (let_pass e)
      passed timed_out = Does-give tt (λ s i. i)
      passed no_transport = Does-raise _ (λ s i. i)
      passed malformed = Does-raise _ (λ s i. i)
      passed splitter_failure = Does-raise _ (λ s i. i)
      passed unexpected_readback = Does-raise _ (λ s i. i)
      passed not_verified = Does-raise _ (λ s i. i)
      passed (bad_time x) = Does-raise _ (λ s i. i)
