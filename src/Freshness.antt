-- ===== src/Freshness.antt =====
-- `GfaFreshnessLedger` of tools/handover_acceleration/scheduler.py: the last verified sample of each
-- VS1 kind. A reading of the clock is an argument.
pub mod Provenance
use optolink.Base.{
  ℕ, ◌-◌, Bool, true, false, not, ◌&&◌, Option, none, some, List, [], ◌∷◌, leb, ◌==◌, if◌then◌else◌,
}
use optolink.Base.Result.{Result, ok, err}
use optolink.Reads.{
  ReadKind, vs1_p80, mode_of, is_p300, same_kind, Quantity, not_finite, negative, micros,
}

-- `GfaSample`, whose `raw` the ledger has checked to be one byte
pub record Sample : Type 0 where
  pub kind : ReadKind
  pub raw : ℕ
  pub acquired_at : ℕ
  pub generation : ℕ

pub record Ledger : Type 0 where
  pub samples : ReadKind → Option Sample

pub data LedgerError : Type 0 where
  not_vs1_kind bad_generation unverified bad_age no_sample stale : LedgerError

abbrev pub empty : Ledger
empty = record { samples = λ _. none }

abbrev pub put : ReadKind → Option Sample → Ledger → Ledger
put k s l = record { samples = λ j. if same_kind j k then s else l.samples j }

-- a raw value that is no `bytes` object is `none`; what counts as a real sample of the kind
abbrev pub real_byte : ReadKind → Option (List ℕ) → Option ℕ
real_byte k (some (b ∷ [])) =
    if b == 0xff then none else if same_kind k vs1_p80 && not (b == 0x20) then none else some b
real_byte k _ = none

abbrev pub if_verified : Bool → Option ℕ → Option ℕ
if_verified true r = r
if_verified false r = none

-- `record` behind its checks of kind and generation
pub record_checked : ReadKind → Option ℕ → ℕ → ℕ → Ledger → Result LedgerError Sample × Ledger
record_checked k none generation now l = (err unverified, put k none l)
record_checked k (some b) generation now l =
    let s : Sample = record { kind = k; raw = b; acquired_at = now; generation = generation } in
    (ok s, put k (some s) l)

-- `record`; a kind that is no `ReadKind` and a generation that is no positive integer are `none`
unfoldable pub record_sample :
    Option ReadKind
    → Option (List ℕ)
    → Option ℕ
    → Bool
    → ℕ
    → Ledger
    → Result LedgerError Sample × Ledger
unfolding record_checked
record_sample none raw generation verified now l = (err not_vs1_kind, l)
record_sample (some k) raw none verified now l =
    (err (if is_p300 (mode_of k) then not_vs1_kind else bad_generation), l)
record_sample (some k) raw (some g) verified now l =
    if is_p300 (mode_of k)
    then (err not_vs1_kind, l)
    else if g == 0
    then (err bad_generation, l)
    else record_checked k (if_verified verified (real_byte k raw)) g now l

-- the age test of `fresh`: the clock has not gone back, the age is in bounds, the session the same
abbrev pub is_fresh : ℕ → ℕ → ℕ → Sample → Bool
is_fresh now max_age generation s =
    leb s.acquired_at now && (leb (now - s.acquired_at) max_age && s.generation == generation)

abbrev pub fresh_within : ReadKind → ℕ → ℕ → ℕ → Ledger → Result LedgerError Sample
fresh_within k generation max_age now l = elim (l.samples k) [
  | none ↦ err no_sample
  | some s ↦ if is_fresh now max_age generation s then ok s else err stale
]

-- `fresh`
unfoldable pub fresh : ReadKind → ℕ → Quantity → ℕ → Ledger → Result LedgerError Sample
fresh k generation not_finite now l = err bad_age
fresh k generation negative now l = err bad_age
fresh k generation (micros max_age) now l = fresh_within k generation max_age now l

-- `invalidate_all`
unfoldable pub invalidate_all : Ledger → Ledger
invalidate_all l = empty
