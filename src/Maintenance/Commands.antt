-- ===== src/Maintenance/Commands.antt =====
-- The texts that go to the splitter and come back: `_command_addr`, `_response_addr`, `_payload`, the
-- formats of `read_raw` and `write_byte`, and the failures that these raise.
use optolink.Base.{
  ℕ, zero, suc, ◌+◌, ◌/◌, ◌%◌, ◌≡◌, refl, Bool, true, false, not, Option, none, some, List, [], ◌∷◌,
  ◌++◌, ltb, ◌==◌, if◌then◌else◌,
}
use optolink.Base.Result.{Result, ok, err}
use optolink.Text.{Text, codes, ℤ, pos, negsuc, is_nat, same_text, split, strip, int_auto}

-- The errors of one exchange, by their codes. The `malformed_response` of a text with fewer than
-- three fields and that of a bad address have one code. `no_transport` is what the MQTT client raises.
pub data Failure : Type 0 where
  no_transport : Failure
  splitter_timeout : Text → Failure
  malformed_response : Text → Failure
  splitter_failure : Text → Failure
  unexpected_response : ℤ → ℕ → Failure
  invalid_raw_length : ℕ → ℕ → Text → Failure
  invalid_raw_payload : ℕ → Text → Failure
  invalid_value : ℤ → Failure

-- the second field of a text as an address; `_command_addr` and `_response_addr` have one body
abbrev pub address_field : List Text → Option ℤ
address_field (_ ∷ a ∷ _) = int_auto a
address_field _ = none

abbrev pub command_addr : Text → Option ℤ
command_addr command = address_field (split b';' command)

abbrev pub response_addr : Text → Option ℤ
response_addr response = address_field (split b';' response)

-- equality of the addresses, where a missing one equals only a missing one
abbrev pub same_int : ℤ → ℤ → Bool
same_int (pos m) (pos n) = m == n
same_int (negsuc m) (negsuc n) = m == n
same_int _ _ = false

abbrev pub same_address : Option ℤ → Option ℤ → Bool
same_address none none = true
same_address (some a) (some b) = same_int a b
same_address _ _ = false

-- `expected_addr is None or _response_addr(candidate) == expected_addr`
abbrev pub is_answer : Option ℤ → Text → Bool
is_answer none candidate = true
is_answer (some a) candidate = same_address (response_addr candidate) (some a)

-- `_payload` on the fields of the response
abbrev pub payload_of : ℕ → Text → List Text → Result Failure Text
payload_of address response (status ∷ a ∷ value ∷ _) =
    if not (same_text status (codes "1"))
    then err (splitter_failure response)
    else elim (int_auto a) [
      | none ↦ err (malformed_response response)
      | some n ↦
          if not (is_nat n address) then err (unexpected_response n address) else ok (strip value)
    ]
payload_of address response _ = err (malformed_response response)

-- `_payload`
unfoldable pub payload : Text → ℕ → Result Failure Text
payload response address = payload_of address response (split b';' response)

-- `str(n)`, digits put before those already there; each step divides by ten, so that `n` steps do
unfoldable pub decimal_onto : ℕ → ℕ → Text → Text
decimal_onto zero n acc = (48 + n % 10) ∷ acc
decimal_onto (suc fuel) n acc =
    let rest = decimal_onto fuel (n / 10) ((48 + n % 10) ∷ acc) in
    if ltb n 10 then (48 + n) ∷ acc else rest

unfoldable pub decimal : ℕ → Text
decimal n = decimal_onto n n []

abbrev pub upper_digit : ℕ → ℕ
upper_digit n = if ltb n 10 then n + 48 else n + 55

-- the format `0x{address:04X}` of an address of 16 bits
unfoldable pub address_text : ℕ → Text
address_text a =
    b'0'
    ∷ b'x'
    ∷ upper_digit (a / 4096)
    ∷ upper_digit (a / 256 % 16)
    ∷ upper_digit (a / 16 % 16)
    ∷ upper_digit (a % 16)
    ∷ []

-- the command of `read_raw`
unfoldable pub read_command : ℕ → ℕ → Text
unfolding address_text decimal decimal_onto
read_command address length =
    codes "r;" ++ address_text address ++ codes ";" ++ decimal length ++ codes ";raw;False"

-- the command of `write_byte`
unfoldable pub write_command : ℕ → ℕ → Text
unfolding address_text decimal decimal_onto
write_command address value = codes "w;" ++ address_text address ++ codes ";1;" ++ decimal value

commands_run :
    (read_command 2215 4 ≡ codes "r;0x08A7;4;raw;False")
    × (write_command 22305 100 ≡ codes "w;0x5721;1;100")
    × (command_addr (write_command 30060 255) ≡ some (pos 30060))
    × (payload (codes "1;0x756C; 0a1B0000 ") 30060 ≡ ok (codes "0a1B0000"))
    × (payload (codes "1;0x756D;00") 30060 ≡ err (unexpected_response (pos 30061) 30060))
unfolding read_command write_command payload split int_auto strip
commands_run = (refl, refl, refl, refl, refl)
