-- ===== src/Text.antt =====
-- What the program uses of Python's text: `split`, `strip`, `lower`, `int` and `bytes.fromhex`, and
-- the formats `02d`, `04X` and `hex()`. A text is the list of its code points. Only ASCII texts are
-- meant: other digits, blanks and capitals of Unicode are not read.
pub mod Hex
pub mod Strip
use optolink.Base.{
  ℕ, arith, ap₂, zero, suc, ◌+◌, ◌-◌, ◌*◌, ◌≡◌, refl, Bool, true, false, ◌&&◌, ◌||◌, Option, none,
  some, List, [], ◌∷◌, map, ltb, leb, ◌==◌, if◌then◌else◌,
}
use Prim.Native.Char.{code}
use Prim.Native.String.{String}

abbrev pub Text : Type 0
Text = List ℕ

-- the code points of a literal
abbrev pub codes : String → Text
codes String.[] = []
codes (String.◌∷◌ c s) = code c ∷ codes s

-- Python's integers: `negsuc n` is -(n + 1)
pub data ℤ : Type 0 where
  pos : ℕ → ℤ
  negsuc : ℕ → ℤ

abbrev pub is_nat : ℤ → ℕ → Bool
is_nat (pos m) n = m == n
is_nat (negsuc m) n = false

abbrev pub same_text : Text → Text → Bool
same_text [] [] = true
same_text (c ∷ s) (d ∷ t) = c == d && same_text s t
same_text _ _ = false

pub same_text-eq : (s t : Text) → same_text s t ≡ true → s ≡ t
same_text-eq [] [] h = refl
same_text-eq [] (d ∷ t) h = absurd cc
same_text-eq (c ∷ s) [] h = absurd cc
same_text-eq (c ∷ s) (d ∷ t) h =
    let e : c ≡ d = ground arith in
    let r : same_text s t ≡ true = ground arith in ap₂ (λ x y. x ∷ y) e (same_text-eq s t r)

-- the first piece of a non-empty list of pieces gets one more code point
abbrev pub onto_first : ℕ → List Text → List Text
onto_first c [] = (c ∷ []) ∷ []
onto_first c (p ∷ ps) = (c ∷ p) ∷ ps

-- `s.split(sep)` for a separator of one code point
unfoldable pub split : ℕ → Text → List Text
split sep [] = [] ∷ []
split sep (c ∷ s) = let rest = split sep s in if c == sep then [] ∷ rest else onto_first c rest

abbrev pub is_blank : ℕ → Bool
is_blank c = (leb 9 c && leb c 13) || (leb 28 c && leb c 32)

unfoldable pub lstrip : Text → Text
lstrip [] = []
lstrip (c ∷ s) = let rest = lstrip s in if is_blank c then rest else c ∷ s

unfoldable pub rstrip : Text → Text
rstrip [] = []
rstrip (c ∷ s) = elim (rstrip s) [ [] ↦ if is_blank c then [] else c ∷ [] | d ∷ t ↦ c ∷ d ∷ t ]

-- `s.strip()`
unfoldable pub strip : Text → Text
unfolding lstrip rstrip
strip s = rstrip (lstrip s)

abbrev pub lower_code : ℕ → ℕ
lower_code c = if leb b'A' c && leb c b'Z' then c + 32 else c

-- `s.lower()`
abbrev pub lower : Text → Text
lower = map lower_code

-- the value of a code point as a digit of any base up to 16
abbrev pub digit : ℕ → Option ℕ
digit c =
    if leb b'0' c && leb c b'9'
    then some (c - 48)
    else if leb b'a' c && leb c b'f'
    then some (c - 87)
    else if leb b'A' c && leb c b'F'
    then some (c - 55)
    else none

abbrev pub digit_in : ℕ → ℕ → Option ℕ
digit_in base c = elim (digit c) [ none ↦ none | some d ↦ if ltb d base then some d else none ]

abbrev pub digit_or_zero : Option ℕ → ℕ
digit_or_zero none = 0
digit_or_zero (some d) = d

-- Digits with single underscores between them. `open` says that a digit must come next.
unfoldable pub digits : ℕ → Bool → ℕ → Text → Option ℕ
digits base gap acc [] = if gap then none else some acc
digits base gap acc (c ∷ s) =
    let d = digit_in base c in
    let under = c == b'_' in
    let rest = digits base under (if under then acc else acc * base + digit_or_zero d) s in
    if under then (if gap then none else rest) else elim d [ none ↦ none | some _ ↦ rest ]

-- one underscore may follow a prefix such as `0x`
abbrev pub after_prefix : ℕ → Text → Option ℕ
after_prefix base [] = none
after_prefix base (c ∷ s) = if c == b'_' then digits base true 0 s else digits base true 0 (c ∷ s)

-- a number that begins with 0 and has no prefix must be 0
abbrev pub only_zero : Option ℕ → Option ℕ
only_zero none = none
only_zero (some n) = if n == 0 then some 0 else none

abbrev pub prefix_base : ℕ → Option ℕ
prefix_base c =
    if c == b'x' || c == b'X'
    then some 16
    else if c == b'o' || c == b'O'
    then some 8
    else if c == b'b' || c == b'B'
    then some 2
    else none

abbrev pub unsigned_zero : Text → Option ℕ
unsigned_zero [] = some 0
unsigned_zero (c ∷ s) = elim (prefix_base c) [
  | none ↦ only_zero (digits 10 false 0 (c ∷ s))
  | some base ↦ after_prefix base s
]

unfoldable pub unsigned_auto : Text → Option ℕ
unfolding digits
unsigned_auto [] = none
unsigned_auto (c ∷ s) = if c == b'0' then unsigned_zero s else digits 10 true 0 (c ∷ s)

-- base 16 is given, and a prefix `0x` may still stand there
abbrev pub hex_zero : Text → Option ℕ
hex_zero [] = some 0
hex_zero (c ∷ s) = if c == b'x' || c == b'X' then after_prefix 16 s else digits 16 false 0 (c ∷ s)

unfoldable pub unsigned_hex : Text → Option ℕ
unfolding digits
unsigned_hex [] = none
unsigned_hex (c ∷ s) = if c == b'0' then hex_zero s else digits 16 true 0 (c ∷ s)

abbrev pub negate : Option ℕ → Option ℤ
negate none = none
negate (some zero) = some (pos 0)
negate (some (suc n)) = some (negsuc n)

abbrev pub as_pos : Option ℕ → Option ℤ
as_pos none = none
as_pos (some n) = some (pos n)

abbrev pub signed : (Text → Option ℕ) → Text → Option ℤ
signed f [] = none
signed f (c ∷ s) =
    if c == b'-' then negate (f s) else if c == b'+' then as_pos (f s) else as_pos (f (c ∷ s))

-- `int(s, 0)`; `none` is the `ValueError`
unfoldable pub int_auto : Text → Option ℤ
unfolding unsigned_auto strip
int_auto s = signed unsigned_auto (strip s)

-- `int(s, 16)`
unfoldable pub int_hex : Text → Option ℤ
unfolding unsigned_hex strip
int_hex s = signed unsigned_hex (strip s)

int_auto_runs :
    (int_auto (codes " 0x088E") ≡ some (pos 2190))
    × (int_auto (codes "0007") ≡ none)
    × (int_auto (codes "1_000") ≡ some (pos 1000))
    × (int_auto (codes "-0b11") ≡ some (negsuc 2))
    × (int_hex (codes "20C2") ≡ some (pos 8386))
    × (int_auto (codes "0x") ≡ none)
unfolding int_auto int_hex
int_auto_runs = (refl, refl, refl, refl, refl, refl)

split_runs : split b';' (codes "1;0x2000;ff") ≡ codes "1" ∷ codes "0x2000" ∷ codes "ff" ∷ []
unfolding split
split_runs = refl
