-- ===== src/Maintenance/Readings.antt =====
-- `read_raw` and `read_uint_le`: what a reading says, and how the splitter's own format is read.
use optolink.Base.{
  ℕ, suc, ◌+◌, ◌*◌, ◌^◌, ◌≤◌, ◌<◌, ◌≡◌, refl, sym, ap, ◌∙◌, Bool, true, false, not, Option, none,
  some, List, [], ◌∷◌, arith, ◌==◌, if◌then◌else◌, All, if_elim, length,
}
use native.Mathlib.Omega.{pow_step}
use native.Mathlib.Nat.{pow-le-pow_right}
use mathlib.Core.Path.{subst}
use optolink.Base.Result.{Result, ok, err}
use optolink.Text.{
  Text, ℤ, pos, negsuc, is_nat, codes, split, strip, lower, int_auto, digit, same_text,
}
use optolink.Text.Hex.{from_hex, from_hex_held, from_le, IsByte, cons_byte, is_ascii_space}
use optolink.Maintenance.Commands.{Failure, payload, payload_of, read_command}
use optolink.Maintenance.Device.{Broker, Session, request, give}
use optolink.Maintenance.Bytes.{raw_response, raw_of, uint_of, read_raw, read_uint_le}
use optolink.Maintenance.Log.{bind-eq-ok}

digit_bound : (c n : ℕ) → digit c ≡ some n → n < 16
digit_bound c n h = ground arith

held_count : Option ℕ → ℕ
held_count none = 0
held_count (some _) = 1

-- bytes, if any, that take two of `k` code points each
abbrev pub Fits : ℕ → Option (List ℕ) → Type 0
Fits k none = Unit
Fits k (some bs) = All IsByte bs × (2 * length bs ≤ k)

Fits-weaken : (k l : ℕ) (o : Option (List ℕ)) → k ≤ l → Fits k o → Fits l o
Fits-weaken k l none h f = tt
Fits-weaken k l (some bs) h f = (f.0, omega (arith, f.1))

cons_byte-Fits :
    (k : ℕ) (a b : Option ℕ) (o : Option (List ℕ))
    → ((n : ℕ) → a ≡ some n → n < 16)
    → ((n : ℕ) → b ≡ some n → n < 16)
    → Fits k o
    → Fits (k + 2) (cons_byte a b o)
cons_byte-Fits k none b o ha hb f = tt
cons_byte-Fits k (some x) none o ha hb f = tt
cons_byte-Fits k (some x) (some y) none ha hb f = tt
cons_byte-Fits k (some x) (some y) (some bs) ha hb f =
    let hx = ha x refl in let hy = hb y refl in ((omega (arith, hx, hy), f.0), omega (arith, f.1))

from_hex_held-Fits :
    (held : Option ℕ) (s : Text) → Fits (length s + held_count held) (from_hex_held held s)
unfolding from_hex_held held_count
from_hex_held-Fits none [] = (tt, omega arith)
from_hex_held-Fits (some d) [] = tt
from_hex_held-Fits none (c ∷ s) =
    if_elim (λ held. Fits (suc (length s) + 0) (from_hex_held held s)) (is_ascii_space c)
      (λ _.
        Fits-weaken (length s + 0) (suc (length s) + 0) (from_hex_held none s) (omega arith)
          (from_hex_held-Fits none s))
      (λ _.
        Fits-weaken (length s + 1) (suc (length s) + 0) (from_hex_held (some c) s) (omega arith)
          (from_hex_held-Fits (some c) s))
from_hex_held-Fits (some d) (c ∷ s) =
    let o = from_hex_held none s in
    Fits-weaken (length s + 0 + 2) (suc (length s) + 1) (cons_byte (digit d) (digit c) o)
      (omega arith)
      (cons_byte-Fits (length s + 0) (digit d) (digit c) o (digit_bound d) (digit_bound c)
        (from_hex_held-Fits none s))

from_le_bound : (bs : List ℕ) → All IsByte bs → from_le bs < 256 ^ length bs
unfolding from_le
from_le_bound [] h = omega arith
from_le_bound (b ∷ bs) h =
    let r = from_le_bound bs h.1 in rw (pow_step 256 (length bs)) (omega (arith, r, h.0))

-- The response is a success for the address, and its third field is the raw text.
abbrev pub Carries : ℕ → Text → Text → Type 0
Carries address raw response =
    (status : Text) × (a : Text) × (value : Text) × (rest : List Text) × (split b';' response
      ≡ status ∷ a ∷ value ∷ rest)
    × (same_text status (codes "1") ≡ true)
    × (int_auto a ≡ some (pos address))
    × (raw ≡ lower (strip value))

-- The raw text has two digits or blanks for each byte asked for, and stands for `v`.
abbrev pub StandsFor : ℕ → ℕ → Text → Type 0
StandsFor n v raw =
    (bs : List ℕ) × (length raw ≡ n * 2)
    × (from_hex raw ≡ some bs)
    × (v ≡ from_le bs)
    × (length bs ≤ n)
    × (v < 256 ^ n)

is_nat-eq : (i : ℤ) (n : ℕ) → is_nat i n ≡ true → i ≡ pos n
is_nat-eq (pos m) n h = ap pos (ground arith)
is_nat-eq (negsuc m) n h = absurd cc

passed :
    {A : Type 0} (b : Bool) (e : Failure) (r : Result Failure A) {a : A}
    → (if b then err e else r) ≡ ok a
    → (r ≡ ok a) × (b ≡ false)
passed true e r h = absurd cc
passed false e r h = (h, refl)

had_some :
    {A B : Type 0} (o : Option B) (e : Failure) (k : B → Result Failure A) {a : A}
    → elim o as (λ _. Result Failure A) [ none ↦ err e | some n ↦ k n ] ≡ ok a
    → (n : B) × (o ≡ some n) × (k n ≡ ok a)
had_some none e k h = absurd cc
had_some (some n) e k h = (n, refl, h)

had_ok :
    {A B : Type 0} (r : Result Failure B) (k : B → Result Failure A) {a : A}
    → elim r as (λ _. Result Failure A) [ err e ↦ err e | ok v ↦ k v ] ≡ ok a
    → (v : B) × (r ≡ ok v) × (k v ≡ ok a)
had_ok (err e) k h = absurd cc
had_ok (ok v) k h = (v, refl, h)

from_hex-Fits : (s : Text) (bs : List ℕ) → from_hex s ≡ some bs → Fits (length s + 0) (some bs)
unfolding from_hex held_count
from_hex-Fits s bs h = subst (Fits (length s + 0)) h (from_hex_held-Fits none s)

uint_of_lem : (raw : Text) (bs : List ℕ) → from_hex raw ≡ some bs → (uint_of raw).0 ≡ from_le bs
uint_of_lem raw bs h = rw (uint_of, h) refl

payload_of-eq-ok :
    (address : ℕ) (response : Text) (fields : List Text) (value : Text)
    → payload_of address response fields ≡ ok value
    → (status : Text) × (a : Text) × (v : Text) × (rest : List Text) × (fields
        ≡ status ∷ a ∷ v ∷ rest)
      × (same_text status (codes "1") ≡ true)
      × (int_auto a ≡ some (pos address))
      × (value ≡ strip v)
payload_of-eq-ok address response [] value h = absurd cc
payload_of-eq-ok address response (x ∷ []) value h = absurd cc
payload_of-eq-ok address response (x ∷ y ∷ []) value h = absurd cc
payload_of-eq-ok address response (status ∷ a ∷ v ∷ rest) value h =
    let (h₁, e₁) = passed (not (same_text status (codes "1"))) _ _ h in
    let (n, e₂, h₂) = had_some (int_auto a) _ _ h₁ in
    let (h₃, e₃) = passed (not (is_nat n address)) _ _ h₂ in
    (status, a, v, rest, refl, ground arith, e₂ ∙ ap some (is_nat-eq n address (ground arith)), cc)

raw_of-eq-ok :
    (a n : ℕ) (value raw : Text)
    → raw_of a n value ≡ ok raw
    → (raw ≡ value) × (length value ≡ n * 2) × ((bs : List ℕ) × (from_hex value ≡ some bs))
raw_of-eq-ok a n value raw h =
    let (h₁, e₁) = passed (not (length value == n * 2)) _ _ h in
    let (bs, e₂, h₂) = had_some (from_hex value) _ _ h₁ in (cc, ground arith, (bs, e₂))

raw_response-eq-ok :
    (a n : ℕ) (response raw : Text)
    → raw_response a n response ≡ ok raw
    → Carries a raw response × StandsFor n (uint_of raw).0 raw
unfolding raw_response payload
raw_response-eq-ok a n response raw h =
    let (value, e, h₁) =
      had_ok (payload_of a response (split b';' response)) (λ v. raw_of a n (lower v)) h in
    let (status, addr, v, rest, fields, one, same, stripped) =
      payload_of-eq-ok a response (split b';' response) value e in
    let (is, len, (bs, hex)) = raw_of-eq-ok a n (lower value) raw h₁ in
    let hex_raw : from_hex raw ≡ some bs = ap from_hex is ∙ hex in
    let len_raw : length raw ≡ n * 2 = ap (length {A = ℕ}) is ∙ len in
    let (bytes, size) : Fits (length raw + 0) (some bs) = from_hex-Fits raw bs hex_raw in
    let short : length bs ≤ n = omega (arith, size, len_raw) in
    let small : (uint_of raw).0 < 256 ^ n = omega (
      arith,
      uint_of_lem raw bs hex_raw,
      from_le_bound bs bytes,
      pow-le-pow_right {n = 256} (omega arith) short,
    ) in
    let v_is : (uint_of raw).0 ≡ from_le bs = uint_of_lem raw bs hex_raw in
    (
      (status, addr, v, rest, fields, one, same, is ∙ ap lower stripped),
      (bs, len_raw, hex_raw, v_is, short, small),
    )

abbrev was_read : ℕ × Text → Result Failure (ℕ × Text)
was_read v = ok v

uint_of-text : (text : Text) → (uint_of text).1 ≡ text
uint_of-text text = cases (from_hex text)
  where
    cases :
        (o : Option (List ℕ))
        → (elim o as (λ _. ℕ × Text) [ none ↦ (0, text) | some bytes ↦ (from_le bytes, text) ]).1
          ≡ text
    cases none = refl
    cases (some bs) = refl

same_pair : (p : ℕ × Text) (v : ℕ) (raw : Text) → was_read p ≡ ok (v, raw) → (p.0 ≡ v) × (p.1 ≡ raw)
same_pair p v raw h = (cc, cc)

given_lem :
    (text : Text) (v : ℕ) (raw : Text)
    → was_read (uint_of text) ≡ ok (v, raw)
    → ((uint_of text).0 ≡ v) × (text ≡ raw)
given_lem text v raw h =
    let (x, y) = same_pair (uint_of text) v raw h in (x, sym (uint_of-text text) ∙ y)

module _ {W : Type 0} (broker : Broker W) where
  -- A reading that succeeds is the answer to its own command: a response of success with the address
  -- asked for, whose third field, stripped and in lower case, is the raw text. That text has two code
  -- points for each byte asked for, is read as bytes, and the number is theirs with the lowest first,
  -- below 256 to the power of their number.
  pub read_uint_le-Reading :
      (a n : ℕ) (s : Session W) (v : ℕ) (raw : Text)
      → (read_uint_le broker a n s).0 ≡ ok (v, raw)
      → ((response : Text) × ((request broker (read_command a n) s).0 ≡ ok response)
          × Carries a raw response)
        × StandsFor n v raw
  unfolding read_uint_le read_raw give
  read_uint_le-Reading a n s v raw h =
      let (text, got, given) =
        bind-eq-ok (read_raw broker a n) (λ t. give (uint_of t)) s (v, raw) h in
      let (response, answered, parsed) =
        bind-eq-ok (request broker (read_command a n)) (λ r t. (raw_response a n r, t)) s text
          got in
      let (carries, stands) = raw_response-eq-ok a n response text parsed in
      let (same_v, same_raw) : ((uint_of text).0 ≡ v) × (text ≡ raw) = given_lem text v raw given in
      (
        (response, answered, subst (λ t. Carries a t response) same_raw carries),
        subst (λ t. StandsFor n v t) same_raw (subst (λ u. StandsFor n u text) same_v stands),
      )
