-- ===== src/Schedule/Manager.antt =====
-- `ScheduleManager.request`, `read_block`, `write_block`, `readback_target` and `apply`: a day's
-- block is written, read back and, when it differs, put back.
use optolink.Base.{
  ℕ, zero, suc, ◌+◌, ◌-◌, ◌*◌, Bool, true, false, ◌&&◌, ◌||◌, not, Option, none, some, List, [],
  ◌∷◌, ◌++◌, map, leb, ◌==◌, if◌then◌else◌, length, every,
}
use optolink.Base.Result.{Result, ok, err}
use optolink.Text.{Text, ℤ, codes, same_text, is_nat, split, strip, int_auto, int_hex}
use optolink.Text.Hex.{from_hex, to_hex}
use optolink.Maintenance.Commands.{address_text}
use optolink.Maintenance.Device.{
  Broker, Session, Op, drop, give, raise, first_do, attempt, sleep, ◌>>=◌,
}
use optolink.Schedule.Times.{ScheduleError, Window}
use optolink.Schedule.Blocks.{encode_schedule, decode_block}

-- the programs' base addresses
pub data Program : Type 0 where
  heating : Program
  dhw : Program
  circulation : Program

abbrev pub base : Program → ℕ
base heating = 0x2000
base dhw = 0x2100
base circulation = 0x2200

-- the address of a day's block; Monday is 0
abbrev pub block_address : Program → ℕ → ℕ
block_address program day = base program + day * 8

-- What is raised on the way. `no_transport` is what the MQTT client raises.
pub data LinkError : Type 0 where
  no_transport : LinkError
  timed_out : LinkError
  malformed_answer : LinkError
  read_refused : LinkError
  not_a_block : LinkError
  bad_block : ScheduleError → LinkError
  not_restored : LinkError
  was_restored : LinkError

abbrev pub or_hex : Option ℤ → Option ℤ → Option ℤ
or_hex none b = b
or_hex (some a) b = some a

-- `parse_response_addr` on the fields of the response
abbrev pub field_addr : List Text → Option ℤ
field_addr (_ ∷ a ∷ _) = or_hex (int_auto a) (int_hex a)
field_addr _ = none

abbrev pub has_addr : ℕ → Option ℤ → Bool
has_addr address none = false
has_addr address (some a) = is_nat a address

-- `parse_response_addr(response) == expected_addr`
abbrev pub is_for : ℕ → Text → Bool
is_for address response = has_addr address (field_addr (split b';' response))

-- the first of the responses that is for the address
unfoldable pub search_answer : ℕ → List Text → Option Text
search_answer address [] = none
search_answer address (r ∷ rs) =
    let rest = search_answer address rs in if is_for address r then some r else rest

-- `on_message`: responses are stripped, and of those since the command the latest two hundred kept
abbrev pub hear : List Text → List Text → List Text
hear rs ms = let all = rs ++ ms in drop (length all - 200) all

-- the last field and all that follows it, separators included
abbrev pub joined : List Text → Text
joined [] = []
joined (t ∷ []) = t
joined (t ∷ u ∷ ts) = t ++ b';' ∷ joined (u ∷ ts)

-- `response_value` on all fields; the source splits twice
abbrev pub value_of : List Text → Result LinkError Text
value_of (status ∷ a ∷ v ∷ vs) =
    if not (same_text status (codes "1")) then err read_refused else ok (strip (joined (v ∷ vs)))
value_of _ = err malformed_answer

abbrev pub is_hex_digit : ℕ → Bool
is_hex_digit c = (leb 48 c && leb c 57) || ((leb 65 c && leb c 70) || (leb 97 c && leb c 102))

abbrev pub checked_block : Option (List ℕ) → Result LinkError (List ℕ)
checked_block none = err not_a_block
checked_block (some raw) = elim (decode_block raw) [ err e ↦ err (bad_block e) | ok _ ↦ ok raw ]

-- the tests of `read_block` on the value
unfoldable pub block_of : Text → Result LinkError (List ℕ)
unfolding decode_block from_hex
block_of value =
    if not (length value == 16 && every is_hex_digit value)
    then err not_a_block
    else checked_block (from_hex value)

-- `read_block` behind the request
unfoldable pub block_response : Text → Result LinkError (List ℕ)
unfolding block_of split strip
block_response response = elim (value_of (split b';' response)) [
  | err e ↦ err e
  | ok value ↦ block_of value
]

abbrev pub upper_code : ℕ → ℕ
upper_code c = if leb b'a' c && leb c b'z' then c - 32 else c

-- the command of `read_block`
abbrev pub read_block_command : ℕ → Text
read_block_command address = codes "r;" ++ address_text address ++ codes ";8;raw;False"

-- the command of `write_block`
abbrev pub write_block_command : ℕ → List ℕ → Text
write_block_command address raw =
    codes "wraw;" ++ address_text address ++ codes ";" ++ map upper_code (to_hex raw)

abbrev pub same_bytes : List ℕ → List ℕ → Bool
same_bytes = same_text

-- what `apply` ends with
pub data Outcome : Type 0 where
  rejected : ScheduleError → Outcome
  unchanged : Outcome
  written : Outcome
  failed : LinkError → Outcome

-- what `apply` returns
abbrev pub succeeded : Outcome → Bool
succeeded unchanged = true
succeeded written = true
succeeded _ = false

-- an outcome, and the windows that `publish_datapoint_state` published, if any
pub record Applied : Type 0 where
  pub outcome : Outcome
  pub published : Option (List Window)

abbrev pub applied : Outcome → Option (List Window) → Applied
applied o p = record { outcome = o; published = p }

module _ {W : Type 0} (broker : Broker W) where
  abbrev pub listen_once : Session W → Session W
  listen_once s = record s {
    world = (broker.look s.world).1;
    responses = hear s.responses (map strip (broker.look s.world).0);
  }

  -- the loop of `request`: a last scan follows when the deadline has passed
  unfoldable pub listen : ℕ → ℕ → Op LinkError W Text
  unfolding search_answer
  listen zero address s =
      let h = listen_once s in
      elim (search_answer address h.responses) [ none ↦ (err timed_out, h) | some r ↦ (ok r, h) ]
  listen (suc n) address s =
      let h = listen_once s in
      let later = listen n address h in
      elim (search_answer address h.responses) [ none ↦ later | some r ↦ (ok r, h) ]

  abbrev pub put_out : Text → Session W → Session W
  put_out command s = record s {
    world = (broker.publish command s.world).1;
    responses = [];
    sent = command ∷ s.sent;
  }

  -- `request`
  unfoldable pub ask : Text → ℕ → Op LinkError W Text
  unfolding listen
  ask command address s =
      let p = put_out command s in
      if not (broker.publish command s.world).0
      then (err no_transport, p)
      else listen (broker.looks p.world) address p

  -- `read_block`
  unfoldable pub read_block : ℕ → Op LinkError W (List ℕ)
  unfolding ask block_response
  read_block address =
      ask (read_block_command address) address >>= λ response. λ s. (block_response response, s)

  -- a timeout of a write is not an error, since the readback decides
  abbrev pub forgive : Result LinkError Text → Op LinkError W (Option Text)
  forgive (ok response) = give (some response)
  forgive (err timed_out) = give none
  forgive (err e) = raise e

  -- `write_block`
  unfoldable pub write_block : ℕ → List ℕ → Op LinkError W (Option Text)
  unfolding ask to_hex
  write_block address raw =
      attempt (ask (write_block_command address raw) address) λ answer. forgive answer

  -- `readback_target`, with as many delays as are left behind the first
  unfoldable pub readback_target : ℕ → ℕ → List ℕ → Op LinkError W (List ℕ)
  unfolding read_block
  readback_target zero address target = first_do (sleep broker) (read_block address)
  readback_target (suc n) address target =
      let again = readback_target n address target in
      first_do (sleep broker)
        (read_block address >>= λ last. if same_bytes last target then give last else again)

  -- `READBACK_DELAYS` has three
  abbrev pub readback : ℕ → List ℕ → Op LinkError W (List ℕ)
  readback = readback_target 2

  -- `apply` after a readback that is not the target
  unfoldable pub put_back : ℕ → List ℕ → List Window → Op LinkError W Applied
  unfolding write_block readback_target
  put_back address original windows = write_block address original >>= λ _.
      readback address original >>= λ restored.
      if not (same_bytes restored original)
      then raise not_restored
      else give (applied (failed was_restored) (some windows))

  abbrev pub windows_of : Result ScheduleError (List Window) → Result LinkError (List Window)
  windows_of (err e) = err (bad_block e)
  windows_of (ok ws) = ok ws

  -- the body of the `try` of `apply`, for a block that was made of the payload
  unfoldable pub apply_block : ℕ → List ℕ → List Window → Op LinkError W Applied
  unfolding put_back decode_block
  apply_block address target windows = read_block address >>= λ original.
      (λ s. (windows_of (decode_block original), s)) >>= λ original_windows.
      if same_bytes original target
      then give (applied unchanged (some windows))
      else write_block address target >>= λ _. readback address target >>= λ last.
          if not (same_bytes last target)
          then put_back address original original_windows
          else give (applied written (some windows))

  -- the `except` of `apply`
  abbrev pub settled : Result LinkError Applied → Applied
  settled (ok a) = a
  settled (err e) = applied (failed e) none

  -- `apply`
  unfoldable pub apply : Program → ℕ → Text → Session W → Applied × Session W
  unfolding apply_block encode_schedule
  apply program day payload s = elim (encode_schedule payload) [
    | err e ↦ (applied (rejected e) none, s)
    | ok (target, windows) ↦
        let r = apply_block (block_address program day) target windows s in (settled r.0, r.1)
  ]
