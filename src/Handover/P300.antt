-- ===== src/Handover/P300.antt =====
-- The P300 side of `ReadOnlyWire` (tools/handover_acceleration/coordinator.py): the checks of a
-- frame, the two kinds of reads and the handshake.
pub mod Frames
use optolink.Base.{
  ℕ, zero, suc, ◌+◌, ◌*◌, ◌%◌, Bool, false, ◌&&◌, ◌||◌, Option, none, some, [], ◌∷◌, ◌==◌,
  if◌then◌else◌, length,
}
use optolink.Base.Effect.{give, raise, ◌>>=◌, ◌>>◌, view, change, on_raise, demand}
use optolink.Handover.{
  Bytes, same_bytes, sum, device_id, software, ack, eot, start, p300_id, p300_software, RamName,
  RamRead, p300_ram_reads, WirePhase, is_p300, is_p300_verified, protocol,
}
use optolink.Handover.Wire.{
  Port, WireOp, set_phase, clear_handshake, clock, nap, tx, exact_until, control_until, control,
  gap, quiet, sync, reset_before_eot,
}

-- `body[:-1]` and `body[-1]`, of a body that is not empty
abbrev pub front : Bytes → Bytes
front [] = []
front (b ∷ []) = []
front (b ∷ c ∷ bs) = b ∷ front (c ∷ bs)

abbrev pub last : Bytes → ℕ
last [] = 0
last (b ∷ []) = b
last (b ∷ c ∷ bs) = last (c ∷ bs)

abbrev pub head_is : ℕ → Bytes → Bool
head_is n [] = false
head_is n (b ∷ bs) = b == n

-- The checks of both reads on what follows the start byte: the length byte, the sum, the message
-- type, the function, the address, and the count. `body[5:-1]` is the payload.
abbrev pub has_sum : ℕ → Bytes → Bool
has_sum size body = ((size + sum (front body)) % 256) == last body

abbrev pub has_header : ℕ → ℕ → ℕ → Bytes → Bool
has_header fc addr count (mid ∷ f ∷ hi ∷ lo ∷ n ∷ rest) =
    mid == 1 && f == fc && (hi * 256 + lo) == addr && n == count
has_header fc addr count _ = false

abbrev pub payload : Bytes → Bytes
payload (mid ∷ f ∷ hi ∷ lo ∷ n ∷ rest) = front rest
payload _ = []

-- `(request, expected) in (...)` of `p300_read`, with the address that goes with the request
abbrev pub is_known : Bytes → Bytes → Bool
is_known request expected =
    (same_bytes request p300_id && same_bytes expected device_id)
    || (same_bytes request p300_software && same_bytes expected software)

abbrev pub address_of : Bytes → ℕ
address_of request = if same_bytes request p300_id then 0x00f8 else 0x778c

module _ {W : Type 0} (port : Port W) where
  -- `for _ in range(8): first = ...; if first != ACK: break`; the last byte read is the result
  unfoldable pub after_acks : ℕ → Bytes → ℕ → WireOp W Bytes
  after_acks zero first deadline = give first
  after_acks (suc turns) first deadline =
      let rest : Bytes → WireOp W Bytes = λ x. after_acks turns x deadline in
      exact_until port 1 deadline >>= λ x. if same_bytes x ack then rest x else give x

  -- what both reads do up to the body, and the body: the size is one of its first byte's values
  unfoldable pub read_frame : Bytes → ℕ → WireOp W Bytes
  read_frame request size = do
    gap port
    tx port request
    t ← clock port
    control_until port ack (t + 3000000)
    first ← after_acks 8 [] (t + 3000000)
    demand (same_bytes first (0x41 ∷ [])) protocol
    n ← exact_until port 1 (t + 3000000)
    demand (head_is size n) protocol
    exact_until port (size + 1) (t + 3000000)

  unfoldable pub p300_read : Bytes → Bytes → WireOp W Bytes
  p300_read request expected = do
    p ← view (λ s. s.phase)
    demand (is_p300 p) protocol
    demand (is_known request expected) protocol
    body ← read_frame request 7
    demand (has_sum 7 body) protocol
    demand (has_header 1 (address_of request) 2 body) protocol
    demand (same_bytes (payload body) expected) protocol
    tx port ack
    quiet port
    give (payload body)

  -- The frame of a block of the allowlist, in the `try` of `p300_read_ram_fixed`.
  unfoldable pub read_block : RamRead → WireOp W Bytes
  read_block r = do
    body ← read_frame r.request (5 + r.size)
    demand (has_sum (5 + r.size) body) protocol
    demand (has_header r.fc r.addr r.size body && length (payload body) == r.size) protocol
    tx port ack
    quiet port
    give (payload body)

  -- `p300_read_ram_fixed`; a name that is not on the allowlist is `none`
  unfoldable pub p300_read_ram_fixed : Option RamName → WireOp W Bytes
  p300_read_ram_fixed name = do
    p ← view (λ s. s.phase)
    demand (is_p300_verified p) protocol
    elim name as (λ _. WireOp W Bytes) [
      | none ↦ raise protocol
      | some n ↦ on_raise (set_phase WirePhase.failed_closed) (read_block (p300_ram_reads n))
    ]

  -- the last part of both handshakes
  unfoldable pub read_identities : WireOp W (Unit {0})
  read_identities = do
    i ← p300_read p300_id device_id
    s ← p300_read p300_software software
    give tt

  unfoldable pub verify_p300 : WireOp W (Unit {0})
  verify_p300 = do
    change (λ s. set_phase WirePhase.p300_sync (clear_handshake s))
    on_raise (set_phase WirePhase.failed_closed) (do
      sync port 1
      change (set_phase WirePhase.p300_handshake)
      tx port start
      control port ack 6000000
      read_identities)
    change (set_phase WirePhase.p300_verified)

  -- the body of `to_p300_early_start_experiment` between the two changes of the mode
  unfoldable pub early_start : WireOp W (Unit {0})
  early_start = do
    change (set_phase WirePhase.p300_sync)
    reset_before_eot port
    tx port eot
    nap port 25000
    change (set_phase WirePhase.p300_handshake)
    tx port start
    control port ack 350000
    read_identities
