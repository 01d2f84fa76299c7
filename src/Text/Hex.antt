-- ===== src/Text/Hex.antt =====
-- `bytes.fromhex`, `bytes.hex` and little-endian integers, with their round trip.
use optolink.Base.{
  ℕ, ◌+◌, ◌*◌, ◌/◌, ◌%◌, ◌<◌, ◌≡◌, refl, Bool, false, ◌&&◌, ◌||◌, Option, none, some, List, [], ◌∷◌,
  arith, ltb, leb, ◌==◌, if◌then◌else◌, All,
}
use optolink.Text.{Text, digit}

-- the blanks that `bytes.fromhex` skips between bytes
abbrev pub is_ascii_space : ℕ → Bool
is_ascii_space c = c == 32 || (leb 9 c && leb c 13)

abbrev pub cons_byte : Option ℕ → Option ℕ → Option (List ℕ) → Option (List ℕ)
cons_byte (some hi) (some lo) (some rest) = some ((hi * 16 + lo) ∷ rest)
cons_byte _ _ _ = none

-- `bytes.fromhex(s)`; `none` is the `ValueError`. `held` is a first digit that waits for its second.
unfoldable pub from_hex_held : Option ℕ → Text → Option (List ℕ)
from_hex_held none [] = some []
from_hex_held (some c) [] = none
from_hex_held none (c ∷ s) =
    let rest = from_hex_held (if is_ascii_space c then none else some c) s in rest
from_hex_held (some h) (c ∷ s) = cons_byte (digit h) (digit c) (from_hex_held none s)

unfoldable pub from_hex : Text → Option (List ℕ)
unfolding from_hex_held
from_hex s = from_hex_held none s

-- a digit in lower case
abbrev pub hex_digit : ℕ → ℕ
hex_digit n = if ltb n 10 then n + 48 else n + 87

-- `raw.hex()`
unfoldable pub to_hex : List ℕ → Text
to_hex [] = []
to_hex (b ∷ bs) = hex_digit (b / 16) ∷ hex_digit (b % 16) ∷ to_hex bs

abbrev pub IsByte : ℕ → Type 0
IsByte b = b < 256

-- `int.from_bytes(raw, "little")`
unfoldable pub from_le : List ℕ → ℕ
from_le [] = 0
from_le (b ∷ bs) = b + 256 * from_le bs

hex_digit-not_space : (n : ℕ) → n < 16 → is_ascii_space (hex_digit n) ≡ false
hex_digit-not_space n h = ground arith

digit-hex_digit : (n : ℕ) → n < 16 → digit (hex_digit n) ≡ some n
digit-hex_digit n h = ground arith

-- Reading what `hex` printed gives the bytes back.
pub from_hex-to_hex : (bs : List ℕ) → All IsByte bs → from_hex (to_hex bs) ≡ some bs
unfolding from_hex to_hex
from_hex-to_hex [] h = refl
from_hex-to_hex (b ∷ bs) h = ground (
  arith,
  hex_digit-not_space (b / 16),
  digit-hex_digit (b / 16),
  digit-hex_digit (b % 16),
  from_hex-to_hex bs h.1,
)
