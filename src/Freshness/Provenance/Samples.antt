-- ===== src/Freshness/Provenance/Samples.antt =====
-- The samples that an attestation leaves belong to the current session and are real for their kind.
use optolink.Base.{
  ℕ, ◌≤◌, ◌≡◌, ◌≢◌, Bool, true, false, Option, none, some, List, [], ◌∷◌, arith, refl, inl, inr,
  Bool-cases, Option-cases,
}
use optolink.Base.Result.{ok}
use optolink.Reads.{ReadKind, mode_of, vs1, vs1_p80, same_kind, same_kind_iff}
use optolink.Text.{Text, ℤ, int_auto, split}
use optolink.Freshness.{Sample, Ledger, put, record_sample, real_byte}
use optolink.Freshness.Provenance.{
  Provenance, create, Request, Response, gfa_kind, observe_kind, forget, answered, kind_at,
  line_kind, item_kind, field_value, Field, line, poll_item, unknown,
}

-- A sample under its own kind, of the current session, with a byte that the kind allows.
pub record IsSample (generation : ℕ) (k : ReadKind) (s : Sample) : Type 0 where
  pub own_kind : s.kind ≡ k
  pub current : s.generation ≡ generation
  pub valid : s.raw ≢ 0xff
  pub identity : k ≡ vs1_p80 → s.raw ≡ 0x20

abbrev pub AreSound : ℕ → Ledger → Type 0
AreSound g l = (k : ReadKind) (s : Sample) → l.samples k ≡ some s → IsSample g k s

pub record IsAttested (p : Provenance) : Type 0 where
  pub started : 1 ≤ p.generation
  pub sound : AreSound p.generation p.ledger
  pub silent : p.in_transfer ≡ true → (k : ReadKind) → p.ledger.samples k ≡ none

pub create-IsAttested : (thread : ℕ) → IsAttested (create thread)
unfolding create
create-IsAttested thread = record {
  started = omega arith;
  sound = λ k s h. absurd (cc h);
  silent = λ h k. refl;
}

pub forget-IsAttested : (p : Provenance) → IsAttested p → IsAttested (forget p)
forget-IsAttested p v = record {
  started = v.started;
  sound = λ k s h. absurd (cc h);
  silent = λ h k. refl;
}

-- What `record` does with a byte that is real for a VS1 kind.
pub real_byte-IsSample :
    (k : ReadKind) (raw : Option (List ℕ)) (b : ℕ)
    → real_byte k raw ≡ some b
    → (b ≢ 0xff) × (k ≡ vs1_p80 → b ≡ 0x20)
real_byte-IsSample k none b h = absurd (cc h)
real_byte-IsSample k (some []) b h = absurd (cc h)
real_byte-IsSample k (some (c ∷ [])) b h = ground arith
real_byte-IsSample k (some (c ∷ d ∷ r)) b h = absurd (cc h)

abbrev pub sample : ReadKind → ℕ → ℕ → ℕ → Sample
sample k b now g = record { kind = k; raw = b; acquired_at = now; generation = g }

pub real_byte-again :
    (k : ReadKind) (raw : Option (List ℕ)) (b : ℕ)
    → real_byte k raw ≡ some b
    → real_byte k (some (b ∷ [])) ≡ some b
real_byte-again k none b h = absurd (cc h)
real_byte-again k (some []) b h = absurd (cc h)
real_byte-again k (some (c ∷ [])) b h = ground arith
real_byte-again k (some (c ∷ d ∷ r)) b h = absurd (cc h)

pub record_sample_lem :
    (k : ReadKind) (b g now : ℕ) (l : Ledger)
    → mode_of k ≡ vs1
    → 1 ≤ g
    → real_byte k (some (b ∷ [])) ≡ some b
    → record_sample (some k) (some (b ∷ [])) (some g) true now l
      ≡ (ok (sample k b now g), put k (some (sample k b now g)) l)
unfolding record_sample
record_sample_lem k b g now l m pos_g real = ground arith

pub put-AreSound :
    (k : ReadKind) (b g now : ℕ) (l : Ledger)
    → real_byte k (some (b ∷ [])) ≡ some b
    → AreSound g l
    → AreSound g (put k (some (sample k b now g)) l)
put-AreSound k b g now l real h j s e = elim (Bool-cases (same_kind j k)) [
  | inl same ↦
      let is_k : j ≡ k = (same_kind_iff j k).0 same in
      let is_s : sample k b now g ≡ s = ground arith in
      let (valid, identity) = real_byte-IsSample k (some (b ∷ [])) b real in
      rw (← is_s, is_k)
        (record { own_kind = refl; current = refl; valid = valid; identity = identity })
  | inr differs ↦ h j s (ground arith)
]

-- the state after an attestation of one byte
abbrev pub attest : ReadKind → ℕ → ℕ → Provenance → Provenance
attest k b now p = record p { ledger = put k (some (sample k b now p.generation)) p.ledger }

pub observe_kind_lem :
    (k : ReadKind) (r : Response) (b now : ℕ) (p : Provenance)
    → mode_of k ≡ vs1
    → 1 ≤ p.generation
    → real_byte k (answered r) ≡ some b
    → observe_kind k r now p ≡ (ok true, attest k b now p)
unfolding observe_kind
observe_kind_lem k r b now p m pos_g e = ground (
  arith,
  record_sample_lem k b p.generation now p.ledger m pos_g (real_byte-again k (answered r) b e),
)

pub attest-IsAttested :
    (k : ReadKind) (b now : ℕ) (p : Provenance)
    → real_byte k (some (b ∷ [])) ≡ some b
    → p.in_transfer ≡ false
    → IsAttested p
    → IsAttested (attest k b now p)
attest-IsAttested k b now p real quiet v = record {
  started = v.started;
  sound = put-AreSound k b p.generation now p.ledger real v.sound;
  silent = λ busy. absurd (cc (busy, quiet));
}

pub observe_kind-IsAttested :
    (k : ReadKind) (r : Response) (now : ℕ) (p : Provenance)
    → mode_of k ≡ vs1
    → p.in_transfer ≡ false
    → IsAttested p
    → IsAttested (observe_kind k r now p).1
observe_kind-IsAttested k r now p m quiet v = elim (Option-cases (real_byte k (answered r))) [
  | inl unreal ↦ unfold observe_kind in rw (unreal, observe_kind) (forget-IsAttested p v)
  | inr (b, e) ↦
      rw (observe_kind_lem k r b now p m v.started e)
        (attest-IsAttested k b now p (real_byte-again k (answered r) b e) quiet v)
]

pub kind_at-vs1 : (a n : Option ℤ) (k : ReadKind) → kind_at a n ≡ some k → mode_of k ≡ vs1
kind_at-vs1 a n k h = ground arith

pub line_kind-vs1 : (fs : List Text) (k : ReadKind) → line_kind fs ≡ some k → mode_of k ≡ vs1
line_kind-vs1 (c ∷ a ∷ n ∷ []) k h = ground (arith, kind_at-vs1 (int_auto a) (int_auto n) k)
line_kind-vs1 (c ∷ a ∷ n ∷ f ∷ []) k h = ground (arith, kind_at-vs1 (int_auto a) (int_auto n) k)
line_kind-vs1 (c ∷ a ∷ n ∷ f ∷ s ∷ []) k h = ground (arith, kind_at-vs1 (int_auto a) (int_auto n) k)
line_kind-vs1 _ k h = absurd (cc h)

pub item_kind-vs1 :
    (name : Option Text) (a n : Field) (fmt : Option Text) (flag : Bool) (k : ReadKind)
    → item_kind name a n fmt flag ≡ some k
    → mode_of k ≡ vs1
item_kind-vs1 (some name) a n (some fmt) true k h =
    ground (arith, kind_at-vs1 (field_value a) (field_value n) k)
item_kind-vs1 _ a n fmt flag k h = absurd (cc h)

pub gfa_kind-vs1 : (q : Request) (k : ReadKind) → gfa_kind q ≡ some k → mode_of k ≡ vs1
unfolding gfa_kind
gfa_kind-vs1 (line t) k h = line_kind-vs1 (split b';' t) k h
gfa_kind-vs1 (poll_item name a n fmt flag) k h = item_kind-vs1 name a n fmt flag k h
gfa_kind-vs1 unknown k h = absurd (cc h)
