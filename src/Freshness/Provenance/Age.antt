-- ===== src/Freshness/Provenance/Age.antt =====
-- When `require_age_ms` gives an age, and that it gives none during a transfer.
use optolink.Base.{ℕ, ◌+◌, ◌-◌, ◌≤◌, ◌≡◌, Bool, true, false, some, arith, refl, inl, inr}
use optolink.Base.Result.{ok, Result-cases}
use optolink.Reads.{ReadKind, vs1_p80, vs1_p06, Quantity, not_finite, negative, micros}
use optolink.Freshness.{Sample, fresh}
use optolink.Freshness.Provenance.{Provenance, require_age, age_within, Call, call_after}

-- `s` was taken in the session of `p`, at most `max_age` before `now`.
pub record IsRecent (p : Provenance) (max_age now : ℕ) (s : Sample) : Type 0 where
  pub same_session : s.generation ≡ p.generation
  pub taken_before : s.acquired_at ≤ now
  pub young : now - s.acquired_at ≤ max_age

fresh-IsRecent :
    (k : ReadKind) (m now : ℕ) (p : Provenance) {s : Sample}
    → fresh k p.generation (micros m) now p.ledger ≡ ok s
    → (p.ledger.samples k ≡ some s) × IsRecent p m now s
unfolding fresh
fresh-IsRecent k m now p h = ground arith

-- What stands behind an age: identity and speed samples, both real and recent.
pub record Proof (p : Provenance) (m now₁ now₂ now₃ age : ℕ) : Type 0 where
  pub p80 : Sample
  pub p06 : Sample
  pub has_p80 : p.ledger.samples vs1_p80 ≡ some p80
  pub is_identity : p80.raw ≡ 0x20
  pub recent_p80 : IsRecent p m now₁ p80
  pub has_p06 : p.ledger.samples vs1_p06 ≡ some p06
  pub recent_p06 : IsRecent p m now₂ p06
  pub is_age : age + p06.acquired_at ≡ now₃
  pub in_time : age ≤ m

age_within-Proof :
    (m now₁ now₂ now₃ : ℕ) (p : Provenance) {age : ℕ}
    → age_within m now₁ now₂ now₃ p ≡ ok age
    → Proof p m now₁ now₂ now₃ age
unfolding age_within
age_within-Proof m now₁ now₂ now₃ p {age} h =
    elim (Result-cases (fresh vs1_p80 p.generation (micros m) now₁ p.ledger)) [
      | inr (e, missing) ↦ absurd (ground arith)
      | inl (s80, e80) ↦ elim (Result-cases (fresh vs1_p06 p.generation (micros m) now₂ p.ledger)) [
        | inr (e, missing) ↦ absurd (ground arith)
        | inl (s06, e06) ↦
            let (has80, recent80) = fresh-IsRecent vs1_p80 m now₁ p e80 in
            let (has06, recent06) = fresh-IsRecent vs1_p06 m now₂ p e06 in
            record {
              p80 = s80;
              p06 = s06;
              has_p80 = has80;
              is_identity = ground arith;
              recent_p80 = recent80;
              has_p06 = has06;
              recent_p06 = recent06;
              is_age = ground arith;
              in_time = ground arith;
            }
      ]
    ]

-- An age is given only to the owner, outside a transfer, for a positive bound, and on two samples of
-- the current session: P80 with the value 20 and P06, both taken within the bound. The age is that
-- of P06 by the last reading of the clock, and within the bound.
pub require_age-Proof :
    (caller : ℕ) (bound : Quantity) (now₁ now₂ now₃ : ℕ) (p : Provenance) {age : ℕ}
    → require_age caller bound now₁ now₂ now₃ p ≡ ok age
    → (m : ℕ) × (bound ≡ micros m)
      × (1 ≤ m)
      × (caller ≡ p.owner)
      × (p.in_transfer ≡ false)
      × Proof p m now₁ now₂ now₃ age
unfolding require_age
require_age-Proof caller not_finite now₁ now₂ now₃ p h = absurd (ground arith)
require_age-Proof caller negative now₁ now₂ now₃ p h = absurd (ground arith)
require_age-Proof caller (micros m) now₁ now₂ now₃ p h = (
  m,
  refl,
  ground arith,
  ground arith,
  ground arith,
  age_within-Proof m now₁ now₂ now₃ p (ground arith),
)

abbrev pub is_return : Call → Bool
is_return (call_after c a b now₁ now₂) = true
is_return _ = false
