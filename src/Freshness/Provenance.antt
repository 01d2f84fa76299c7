-- ===== src/Freshness/Provenance.antt =====
-- `OwnerGfaProvenance` of tools/handover_acceleration/scheduler.py: the owner thread attests P80 and
-- P06 from original GFA responses, and a protocol transfer ends every older attestation.
pub mod Samples
pub mod Transfer
pub mod Age
use optolink.Base.{
  ℕ, ◌+◌, ◌-◌, Bool, true, false, not, ◌&&◌, ◌||◌, Option, none, some, List, [], ◌∷◌, ltb, ◌==◌,
  if◌then◌else◌,
}
use optolink.Base.Result.{Result, ok, err}
use optolink.Reads.{ReadKind, vs1_p80, vs1_p06, Quantity, not_finite, negative, micros}
use optolink.Text.{Text, ℤ, is_nat, codes, split, lower, same_text, int_auto}
use optolink.Text.Hex.{from_hex}
use optolink.Freshness.{Ledger, empty, real_byte, record_sample, fresh, invalidate_all}

pub record Provenance : Type 0 where
  pub owner : ℕ
  pub generation : ℕ
  pub in_transfer : Bool
  pub ledger : Ledger

pub data ProvenanceError : Type 0 where
  not_owner during_transfer bad_age stale nested_transfer no_return_proof bad_identity :
      ProvenanceError
  bad_byte not_recorded : ProvenanceError

-- `__init__`
unfoldable pub create : ℕ → Provenance
create thread = record { owner = thread; generation = 1; in_transfer = false; ledger = empty }

-- an address or a length as a request gives it
pub data Field : Type 0 where
  text : Text → Field
  number : ℤ → Field
  other : Field

-- A request: a command line, a normalised poll item (name, address, length, scale, whether the
-- signed flag is `False`), or anything else. A name or scale that is no text is `none`.
pub data Request : Type 0 where
  line : Text → Request
  poll_item : Option Text → Field → Field → Option Text → Bool → Request
  unknown : Request

abbrev pub field_value : Field → Option ℤ
field_value (text t) = int_auto t
field_value (number n) = some n
field_value other = none

abbrev pub gfa_at : ℤ → Option ReadKind
gfa_at a = if is_nat a 0x4050 then some vs1_p80 else if is_nat a 0x4006 then some vs1_p06 else none

-- the kind that stands at an address, if the length is one byte
abbrev pub kind_at : Option ℤ → Option ℤ → Option ReadKind
kind_at (some a) (some n) = if is_nat n 1 then gfa_at a else none
kind_at _ _ = none

abbrev pub is_gfa_command : Text → Bool
is_gfa_command t = same_text (lower t) (codes "gr") || same_text (lower t) (codes "gfaread")

abbrev pub is_raw : Text → Bool
is_raw t = same_text (lower t) (codes "raw")

abbrev pub is_unsigned : Text → Bool
is_unsigned t = same_text (lower t) (codes "false") || same_text (lower t) (codes "0")

abbrev pub line_kind : List Text → Option ReadKind
line_kind (c ∷ a ∷ n ∷ []) = if is_gfa_command c then kind_at (int_auto a) (int_auto n) else none
line_kind (c ∷ a ∷ n ∷ f ∷ []) =
    if is_gfa_command c && is_raw f then kind_at (int_auto a) (int_auto n) else none
line_kind (c ∷ a ∷ n ∷ f ∷ s ∷ []) =
    if is_gfa_command c && (is_raw f && is_unsigned s)
    then kind_at (int_auto a) (int_auto n)
    else none
line_kind _ = none

abbrev pub has_prefix : Text → Text → Bool
has_prefix [] t = true
has_prefix (c ∷ s) [] = false
has_prefix (c ∷ s) (d ∷ t) = c == d && has_prefix s t

abbrev pub item_kind : Option Text → Field → Field → Option Text → Bool → Option ReadKind
item_kind (some name) a n (some fmt) true =
    if has_prefix (codes "gfa:") (lower fmt) then kind_at (field_value a) (field_value n) else none
item_kind _ _ _ _ _ = none

-- `_gfa_kind`
unfoldable pub gfa_kind : Request → Option ReadKind
unfolding split int_auto
gfa_kind (line t) = line_kind (split b';' t)
gfa_kind (poll_item name a n fmt signed) = item_kind name a n fmt signed
gfa_kind unknown = none

-- A response of the original dispatcher: a tuple of four whose code is an integer and whose second
-- part is a `bytes` object, or anything else.
pub data Response : Type 0 where
  answer : ℤ → List ℕ → Response
  malformed : Response

abbrev pub answered : Response → Option (List ℕ)
answered (answer c raw) = if is_nat c 1 then some raw else none
answered malformed = none

abbrev pub forget : Provenance → Provenance
forget p = record p { ledger = empty }

pub observe_kind : ReadKind → Response → ℕ → Provenance → Result ProvenanceError Bool × Provenance
observe_kind k r now p = elim (real_byte k (answered r)) [
  | none ↦ (ok false, forget p)
  | some b ↦
      let (s, l) = record_sample (some k) (some (b ∷ [])) (some p.generation) true now p.ledger in
      elim s [
        | ok _ ↦ (ok true, record p { ledger = l })
        | err _ ↦ (err not_recorded, record p { ledger = l })
      ]
]

-- `observe_original`
unfoldable pub observe_original :
    ℕ → Request → Response → ℕ → Provenance → Result ProvenanceError Bool × Provenance
unfolding observe_kind gfa_kind record_sample
observe_original caller q r now p =
    if not (caller == p.owner) then (err not_owner, p) else elim (gfa_kind q) [
      | none ↦ (ok false, p)
      | some k ↦ if p.in_transfer then (err during_transfer, forget p) else observe_kind k r now p
    ]

-- The two samples, each with its own reading of the clock, and a third for the age of P06.
age_within : ℕ → ℕ → ℕ → ℕ → Provenance → Result ProvenanceError ℕ
age_within max_age now₁ now₂ now₃ p =
    elim (fresh vs1_p80 p.generation (micros max_age) now₁ p.ledger) [
      | err _ ↦ err stale
      | ok p80 ↦
          if not (p80.raw == 0x20)
          then err stale
          else elim (fresh vs1_p06 p.generation (micros max_age) now₂ p.ledger) [
            | err _ ↦ err stale
            | ok p06 ↦
                if ltb now₃ p06.acquired_at || ltb max_age (now₃ - p06.acquired_at)
                then err stale
                else ok (now₃ - p06.acquired_at)
          ]
    ]

-- `require_age_ms`, in microseconds
unfoldable pub require_age : ℕ → Quantity → ℕ → ℕ → ℕ → Provenance → Result ProvenanceError ℕ
unfolding age_within fresh
require_age caller q now₁ now₂ now₃ p =
    if not (caller == p.owner) then err not_owner else if p.in_transfer then err stale else elim q [
      | not_finite ↦ err bad_age
      | negative ↦ err bad_age
      | micros max_age ↦ if max_age == 0 then err bad_age else age_within max_age now₁ now₂ now₃ p
    ]

-- `before_transfer`
unfoldable pub before_transfer : ℕ → Provenance → Result ProvenanceError (Unit {0}) × Provenance
unfolding invalidate_all
before_transfer caller p =
    if not (caller == p.owner)
    then (err not_owner, p)
    else if p.in_transfer
    then (err nested_transfer, p)
    else (
      ok tt,
      record p {
        ledger = invalidate_all p.ledger;
        in_transfer = true;
        generation = p.generation + 1;
      },
    )

abbrev pub two_codes : Text → Bool
two_codes (a ∷ b ∷ []) = true
two_codes _ = false

-- the byte of the P06 text that `after_verified_return` accepts
abbrev pub returned_byte : Text → Option ℕ
returned_byte t = if two_codes t then real_byte vs1_p06 (from_hex t) else none

record_return : ℕ → ℕ → ℕ → Provenance → Result ProvenanceError (Unit {0}) × Provenance
record_return p06 now₁ now₂ p =
    let (s, l) =
      record_sample (some vs1_p80) (some (0x20 ∷ [])) (some p.generation) true now₁ p.ledger in
    elim s [
      | err _ ↦ (err not_recorded, record p { ledger = l })
      | ok _ ↦
          let (s', l') =
            record_sample (some vs1_p06) (some (p06 ∷ [])) (some p.generation) true now₂ l in
          elim s' [
            | err _ ↦ (err not_recorded, record p { ledger = l' })
            | ok _ ↦ (ok tt, record p { ledger = l'; in_transfer = false })
          ]
    ]

-- `after_verified_return`; a value that is no text is `none`
return_texts :
    Option Text → Option Text → ℕ → ℕ → Provenance → Result ProvenanceError (Unit {0}) × Provenance
return_texts (some p80) (some p06) now₁ now₂ p =
    if not p.in_transfer
    then (err no_return_proof, p)
    else if not (same_text (lower p80) (codes "20") && two_codes p06)
    then (err bad_identity, p)
    else elim (returned_byte p06) [
      | none ↦ (err bad_byte, p)
      | some b ↦ record_return b now₁ now₂ p
    ]
return_texts _ _ now₁ now₂ p = (err no_return_proof, p)

unfoldable pub after_verified_return :
    ℕ
    → Option Text
    → Option Text
    → ℕ
    → ℕ
    → Provenance
    → Result ProvenanceError (Unit {0}) × Provenance
unfolding return_texts record_return record_sample from_hex
after_verified_return caller p80 p06 now₁ now₂ p =
    if not (caller == p.owner) then (err not_owner, p) else return_texts p80 p06 now₁ now₂ p

-- `fail_closed`
unfoldable pub fail_closed : ℕ → Provenance → Result ProvenanceError (Unit {0}) × Provenance
fail_closed caller p =
    if not (caller == p.owner)
    then (err not_owner, p)
    else (ok tt, record p { ledger = empty; in_transfer = true })

-- A call of any method that changes the state.
pub data Call : Type 0 where
  call_observe : ℕ → Request → Response → ℕ → Call
  call_before : ℕ → Call
  call_after : ℕ → Option Text → Option Text → ℕ → ℕ → Call
  call_fail : ℕ → Call

unfoldable pub step : Call → Provenance → Provenance
step (call_observe c q r now) p = (observe_original c q r now p).1
step (call_before c) p = (before_transfer c p).1
step (call_after c a b now₁ now₂) p = (after_verified_return c a b now₁ now₂ p).1
step (call_fail c) p = (fail_closed c p).1

unfoldable pub run : List Call → Provenance → Provenance
run [] p = p
run (c ∷ cs) p = run cs (step c p)
