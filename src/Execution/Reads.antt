-- ===== src/Execution/Reads.antt =====
-- What the steps of a plan leave on the coordinator, the ledger and the results
-- (tools/handover_acceleration/phase_executor.py).
use optolink.Base.{
  ℕ, ◌≡◌, refl, inl, inr, Bool, true, Option, none, some, arith, ◌==◌, if_elim, length, All,
  Bool-cases,
}
use optolink.Base.Effect.{◌>>◌, Outcome}
use optolink.Base.Effect.Triples.{Does-bind, Does-from, Does-weaken, Does, Does-check}
use optolink.Base.Result.{Result, ok, err, OnOk}
use optolink.Reads.{
  ReadKind, vs1_p80, vs1_p06, p300_id, p300_ram_0f20_32, p300_ram_1c60_32, is_p300, mode_of,
  same_kind,
}
use optolink.Freshness.{LedgerError, Sample, Ledger, put, real_byte, record_checked, record_sample}
use optolink.Freshness.Provenance.Samples.{AreSound, real_byte-again, put-AreSound}
use optolink.Handover.{Bytes, device_id, Raised}
use optolink.Handover.Wire.{Port}
use optolink.Handover.Owner.{Owner, OwnerOp}
use optolink.Handover.Guarded.{any_raise}
use optolink.Handover.Sound.{IsSound, Raises, Keeps}
use optolink.Handover.Sound.Reads.{verified_gfa_snapshot-Keeps}
use optolink.Execution.{
  Failure, rejected, unrecorded, raised, ReadResult, Run, RunOp, on_owner, record_now,
  record_handshake, need, ticked,
}

-- a byte that is a real sample of its kind
abbrev pub Real : ReadKind → Option Bytes → Type 0
Real k raw = (b : ℕ) × (real_byte k raw ≡ some b)

-- what an answer is for its kind: the identity, a block of 32 bytes, or a real byte
abbrev pub Genuine : ReadKind → Bytes → Type 0
Genuine p300_id raw = raw ≡ device_id
Genuine p300_ram_0f20_32 raw = length raw ≡ 32
Genuine p300_ram_1c60_32 raw = length raw ≡ 32
Genuine k raw = Real k (some raw)

put-none-AreSound : (k : ReadKind) (g : ℕ) (l : Ledger) → AreSound g l → AreSound g (put k none l)
put-none-AreSound k g l h j s e = elim (Bool-cases (same_kind j k)) [
  | inl same ↦ absurd (ground arith)
  | inr differs ↦ h j s (ground arith)
]

abbrev Recorded : ReadKind → Option Bytes → ℕ → Result LedgerError Sample × Ledger → Type 0
Recorded k raw g r = AreSound g r.1 × OnOk (λ _. Real k raw) r.0

record_sample-Recorded :
    (k : ReadKind) (raw : Option Bytes) (g now : ℕ) (l : Ledger)
    → AreSound g l
    → Recorded k raw g (record_sample (some k) raw (some g) true now l)
unfolding record_sample
record_sample-Recorded k raw g now l h =
    if_elim (Recorded k raw g) (is_p300 (mode_of k)) (λ _. (h, tt))
      (λ _.
        if_elim (Recorded k raw g) (g == 0) (λ _. (h, tt)) (λ _. checked (real_byte k raw) refl))
  where
    checked : (o : Option ℕ) → real_byte k raw ≡ o → Recorded k raw g (record_checked k o g now l)
    checked none e = (put-none-AreSound k g l h, tt)
    checked (some b) e = (put-AreSound k b g now l (real_byte-again k raw b e) h, (b, e))

module _ {W : Type 0} where
  -- between two steps of a plan
  abbrev pub IsGood : Run W → Type 0
  IsGood s =
      IsSound s.owner
      × AreSound s.generation s.ledger
      × All (λ (r : ReadResult). Genuine r.kind r.raw) s.results

  -- after an exception the coordinator is sound still
  abbrev pub Broken : Failure → Run W → Type 0
  Broken e s = IsSound s.owner

  abbrev pub Goes : {A : Type 0} → RunOp W A → Type 0
  Goes m = Does IsGood m (λ _. IsGood) Broken

module _ {W : Type 0} (port : Port W) where
  -- an operation of the coordinator, with what does not speak of it
  pub on_owner-With :
      {A : Type 0} (K : Run W → Type 0) (m : OwnerOp W A)
      → ((s : Run W) (o : Owner W) → K s → K (record s { owner = o }))
      → Keeps (any_raise port) m
      → Does (λ s. IsGood s × K s) (on_owner m) (λ _ s. IsGood s × K s) Broken
  unfolding on_owner
  on_owner-With {A = A} K m k h = record {
    at = λ s i. lifted s i (m s.owner).0 (m s.owner).1 (h.at s.owner i.0.0);
  }
    where
      lifted :
          (s : Run W)
          → IsGood s × K s
          → (r : Result Raised A) (o : Owner W)
          → Outcome (λ _. IsSound) (Raises (any_raise port)) r o
          → let e : Result Failure A × Run W = elim r [
            | err e ↦ (err (raised e), record s { owner = o })
            | ok a ↦ (ok a, record s { owner = o })
          ] in
            Outcome (λ _ s. IsGood s × K s) Broken e.0 e.1
      lifted s i (ok a) o x = ((x, i.0.1, i.0.2), k s o i.1)
      lifted s i (err e) o x = x.0

  pub on_owner-Goes : {A : Type 0} (m : OwnerOp W A) → Keeps (any_raise port) m → Goes (on_owner m)
  on_owner-Goes m h =
      Does-from (λ s. IsGood s × Unit {0}) _ (λ s i. (i, tt))
        (Does-weaken (λ _ s. IsGood s × Unit {0}) Broken _
          (on_owner-With (λ _. Unit {0}) m (λ s o i. i) h) (λ _ s i. i.0) (λ e s i. i))

  pub record_now-Goes :
      (k : ReadKind) (raw : Option Bytes)
      → Does IsGood (record_now port k raw) (λ _ s. IsGood s × Real k raw) Broken
  unfolding record_now
  record_now-Goes k raw = record {
    at = λ s i.
        recorded s i
          (record_sample (some k) raw (some s.generation) true (port.time s.owner.wire.world)
            s.ledger)
          (record_sample-Recorded k raw s.generation _ s.ledger i.1);
  }
    where
      recorded :
          (s : Run W)
          → IsGood s
          → (r : Result LedgerError Sample × Ledger) → Recorded k raw s.generation r
          → let t : Run W = record s { ledger = r.1 } in
            let e : Result Failure (Unit {0}) × Run W = elim r.0 [
              | err e ↦ (err (unrecorded e), t)
              | ok _ ↦ (ok tt, ticked port t)
            ] in
            Outcome (λ _ s. IsGood s × Real k raw) Broken e.0 e.1
      recorded s i (ok x, l) h = ((i.0, h.0, i.2), h.1)
      recorded s i (err x, l) h = i.0

  pub behind :
      {A : Type 0} (test : Owner W → Bool) (k : RunOp W A) (Q : A → Run W → Type 0)
      → Does IsGood k Q Broken
      → Does IsGood (need test >> k) Q Broken
  behind test k Q h = Does-check _ rejected _ (λ s i _. i.0) (Does-from IsGood _ (λ s i. i.0) h)

  records : (k : ReadKind) (raw : Option Bytes) → Goes (record_now port k raw)
  records k raw =
      Does-weaken (λ _ s. IsGood s × Real k raw) Broken _ (record_now-Goes k raw) (λ _ s i. i.0)
        (λ e s i. i)

  pub record_handshake-Goes : Goes (record_handshake port)
  unfolding record_handshake
  record_handshake-Goes =
      Does-bind (λ _. IsGood) _ _
        (on_owner-Goes _ (verified_gfa_snapshot-Keeps (any_raise port) 750000))
        (λ snap. Does-bind (λ _. IsGood) _ _ (records vs1_p80 _) (λ _. records vs1_p06 _))
