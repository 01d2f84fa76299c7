-- ===== src/Freshness/Provenance/Transfer.antt =====
-- Every call keeps the attestation invariant, and a transfer ends every attestation.
use optolink.Base.{
  ℕ, ◌≤◌, ◌≡◌, Bool, false, not, Option, none, some, List, [], ◌∷◌, arith, refl, inl, inr,
  Option-cases, if_elim, ◌==◌, ◌&&◌,
}
use optolink.Base.Result.{Result, ok}
use optolink.Reads.{vs1_p80, vs1_p06}
use optolink.Text.{Text, codes, lower, same_text}
use optolink.Text.Hex.{from_hex}
use optolink.Freshness.{Sample, put, real_byte}
use optolink.Freshness.Provenance.{
  Provenance, ProvenanceError, Request, Response, gfa_kind, observe_original, before_transfer,
  after_verified_return, return_texts, record_return, returned_byte, fail_closed, Call,
  call_observe, call_before, call_after, call_fail, step, run, two_codes,
}
use optolink.Freshness.Provenance.Samples.{
  IsAttested, forget-IsAttested, real_byte-again, sample, record_sample_lem, attest,
  attest-IsAttested, observe_kind-IsAttested, gfa_kind-vs1,
}

-- the state that a method leaves, whether it returned or raised
abbrev Leaves : {A : Type 0} → Result ProvenanceError A × Provenance → Type 0
Leaves r = IsAttested r.1

observe_original-IsAttested :
    (caller : ℕ) (q : Request) (r : Response) (now : ℕ) (p : Provenance)
    → IsAttested p
    → IsAttested (observe_original caller q r now p).1
unfolding observe_original
observe_original-IsAttested caller q r now p v =
    if_elim (Leaves {A = Bool}) (not (caller == p.owner)) (λ _. v)
      λ _. elim (Option-cases (gfa_kind q)) [
        | inl no_kind ↦ rw no_kind v
        | inr (k, e) ↦ rw e (
            if_elim (Leaves {A = Bool}) p.in_transfer (λ _. forget-IsAttested p v)
              (λ quiet. observe_kind-IsAttested k r now p (gfa_kind-vs1 q k e) quiet v))
      ]

before_transfer-IsAttested :
    (caller : ℕ) (p : Provenance) → IsAttested p → IsAttested (before_transfer caller p).1
unfolding before_transfer
before_transfer-IsAttested caller p v =
    if_elim (Leaves {A = Unit {0}}) (not (caller == p.owner)) (λ _. v)
      λ _.
        if_elim (Leaves {A = Unit {0}}) p.in_transfer (λ _. v)
          λ _. record {
            started = omega (arith, v.started);
            sound = λ k s h. absurd (cc h);
            silent = λ busy k. refl;
          }

fail_closed-IsAttested :
    (caller : ℕ) (p : Provenance) → IsAttested p → IsAttested (fail_closed caller p).1
unfolding fail_closed
fail_closed-IsAttested caller p v =
    if_elim (Leaves {A = Unit {0}}) (not (caller == p.owner)) (λ _. v)
      λ _. record { started = v.started; sound = λ k s h. absurd (cc h); silent = λ busy k. refl }

-- the state after a verified return
abbrev returned : ℕ → ℕ → ℕ → Provenance → Provenance
returned b now₁ now₂ p =
    attest vs1_p06 b now₂ (attest vs1_p80 0x20 now₁ (record p { in_transfer = false }))

record_return_lem :
    (b now₁ now₂ : ℕ) (p : Provenance)
    → 1 ≤ p.generation
    → real_byte vs1_p06 (some (b ∷ [])) ≡ some b
    → record_return b now₁ now₂ p ≡ (ok tt, returned b now₁ now₂ p)
unfolding record_return
record_return_lem b now₁ now₂ p pos_g real =
    let s80 : Sample = sample vs1_p80 0x20 now₁ p.generation in
    ground (
      arith,
      record_sample_lem vs1_p80 0x20 p.generation now₁ p.ledger refl pos_g refl,
      record_sample_lem vs1_p06 b p.generation now₂ (put vs1_p80 (some s80) p.ledger) refl pos_g
          real,
    )

returned-IsAttested :
    (b now₁ now₂ : ℕ) (p : Provenance)
    → real_byte vs1_p06 (some (b ∷ [])) ≡ some b
    → IsAttested p
    → IsAttested (returned b now₁ now₂ p)
returned-IsAttested b now₁ now₂ p real v = attest-IsAttested vs1_p06 b now₂ _ real refl (
    attest-IsAttested vs1_p80 0x20 now₁ (record p { in_transfer = false }) refl refl
      (record { started = v.started; sound = v.sound; silent = λ busy. absurd (cc busy) }))

returned_byte-real :
    (t : Text) (b : ℕ) → returned_byte t ≡ some b → real_byte vs1_p06 (some (b ∷ [])) ≡ some b
returned_byte-real t b h = real_byte-again vs1_p06 (from_hex t) b (ground arith)

return_texts-IsAttested :
    (p80 p06 : Option Text) (now₁ now₂ : ℕ) (p : Provenance)
    → IsAttested p
    → IsAttested (return_texts p80 p06 now₁ now₂ p).1
unfolding return_texts
return_texts-IsAttested none p06 now₁ now₂ p v = v
return_texts-IsAttested (some a) none now₁ now₂ p v = v
return_texts-IsAttested (some a) (some t) now₁ now₂ p v =
    if_elim (Leaves {A = Unit {0}}) (not p.in_transfer) (λ _. v)
      λ _.
        if_elim (Leaves {A = Unit {0}}) (not (same_text (lower a) (codes "20") && two_codes t))
          (λ _. v)
          λ _. elim (Option-cases (returned_byte t)) [
            | inl unreal ↦ rw unreal v
            | inr (b, e) ↦
                let real = returned_byte-real t b e in
                rw (e, record_return_lem b now₁ now₂ p v.started real)
                  (returned-IsAttested b now₁ now₂ p real v)
          ]

after_verified_return-IsAttested :
    (caller : ℕ) (p80 p06 : Option Text) (now₁ now₂ : ℕ) (p : Provenance)
    → IsAttested p
    → IsAttested (after_verified_return caller p80 p06 now₁ now₂ p).1
unfolding after_verified_return
after_verified_return-IsAttested caller p80 p06 now₁ now₂ p v =
    if_elim (Leaves {A = Unit {0}}) (not (caller == p.owner)) (λ _. v)
      (λ _. return_texts-IsAttested p80 p06 now₁ now₂ p v)

step-IsAttested : (c : Call) (p : Provenance) → IsAttested p → IsAttested (step c p)
unfolding step
step-IsAttested (call_observe c q r now) p v = observe_original-IsAttested c q r now p v
step-IsAttested (call_before c) p v = before_transfer-IsAttested c p v
step-IsAttested (call_after c a b now₁ now₂) p v =
    after_verified_return-IsAttested c a b now₁ now₂ p v
step-IsAttested (call_fail c) p v = fail_closed-IsAttested c p v

-- Whatever calls are made, in any order, by any thread, with any requests, responses and clock
-- readings, from a state in which the invariant holds: every sample kept belongs to the current
-- session, stands under its own kind, is not FF, and is 20 if it is P80; and while a protocol
-- transfer is in progress no sample is kept.
pub run-IsAttested : (cs : List Call) (p : Provenance) → IsAttested p → IsAttested (run cs p)
unfolding run
run-IsAttested [] p v = v
run-IsAttested (c ∷ cs) p v = run-IsAttested cs (step c p) (step-IsAttested c p v)
