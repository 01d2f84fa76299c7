-- ===== src/Handover.antt =====
-- The protocols of tools/handover_acceleration/coordinator.py: the fixed messages, the modes of the
-- coordinator and the phases of the wire with what may be sent in each.
pub mod Wire
pub mod Vs1
pub mod P300
pub mod Owner
pub mod Calls
pub mod Guarded
pub mod Sound
pub mod Window
pub mod Spec
use optolink.Base.{ℕ, ◌+◌, ◌/◌, ◌%◌, Bool, true, false, List, [], ◌∷◌, ◌++◌, map, some_of}
use optolink.Text.{same_text}

abbrev pub Bytes : Type 0
Bytes = List ℕ

abbrev pub same_bytes : Bytes → Bytes → Bool
same_bytes = same_text

-- `message in messages`
abbrev pub is_one_of : Bytes → List Bytes → Bool
is_one_of m = some_of (same_bytes m)

abbrev pub sum : Bytes → ℕ
sum [] = 0
sum (b ∷ bs) = b + sum bs

abbrev pub device_id : Bytes
device_id = 0x20 ∷ 0xc2 ∷ []

abbrev pub software : Bytes
software = 0x01 ∷ 0x03 ∷ []

abbrev pub eot : Bytes
eot = 0x04 ∷ []

abbrev pub enq : Bytes
enq = 0x05 ∷ []

abbrev pub ack : Bytes
ack = 0x06 ∷ []

abbrev pub nak : Bytes
nak = 0x15 ∷ []

abbrev pub stx : Bytes
stx = 0x01 ∷ []

-- the start of P300
abbrev pub start : Bytes
start = 0x16 ∷ 0x00 ∷ 0x00 ∷ []

abbrev pub vs1_id : Bytes
vs1_id = 0xf7 ∷ 0x00 ∷ 0xf8 ∷ 0x02 ∷ []

abbrev pub vs1_software : Bytes
vs1_software = 0xf7 ∷ 0x77 ∷ 0x8c ∷ 0x02 ∷ []

pub data GfaName : Type 0 where
  p80 p06 p09 p87 : GfaName

-- `GFA`
abbrev pub gfa : GfaName → Bytes
gfa p80 = 0x6b ∷ 0x40 ∷ 0x50 ∷ 0x01 ∷ []
gfa p06 = 0x6b ∷ 0x40 ∷ 0x06 ∷ 0x01 ∷ []
gfa p09 = 0x6b ∷ 0x40 ∷ 0x09 ∷ 0x01 ∷ []
gfa p87 = 0x6b ∷ 0x40 ∷ 0x57 ∷ 0x01 ∷ []

abbrev pub gfa_values : List Bytes
gfa_values = map gfa (p80 ∷ p06 ∷ p09 ∷ p87 ∷ [])

abbrev pub p300_id : Bytes
p300_id = 0x41 ∷ 0x05 ∷ 0x00 ∷ 0x01 ∷ 0x00 ∷ 0xf8 ∷ 0x02 ∷ 0x00 ∷ []

abbrev pub p300_software : Bytes
p300_software = 0x41 ∷ 0x05 ∷ 0x00 ∷ 0x01 ∷ 0x77 ∷ 0x8c ∷ 0x02 ∷ 0x0b ∷ []

-- `_fixed_p300_request`; the sum leaves out the first byte
abbrev pub fixed_p300_request : ℕ → ℕ → ℕ → Bytes
fixed_p300_request fc addr length =
    let rest : Bytes = 0x05 ∷ 0x00 ∷ fc ∷ addr / 256 ∷ addr % 256 ∷ length ∷ [] in
    (0x41 ∷ rest) ++ (sum rest % 256 ∷ [])

pub record RamRead : Type 0 where
  pub fc : ℕ
  pub addr : ℕ
  pub size : ℕ
  pub request : Bytes

pub data RamName : Type 0 where
  ram_0f20_32 ram_1c60_32 : RamName

-- `P300_RAM_READS`
abbrev pub p300_ram_reads : RamName → RamRead
p300_ram_reads ram_0f20_32 = record {
  fc = 0x03;
  addr = 0x0f20;
  size = 32;
  request = fixed_p300_request 3 0x0f20 32;
}
p300_ram_reads ram_1c60_32 = record {
  fc = 0x03;
  addr = 0x1c60;
  size = 32;
  request = fixed_p300_request 3 0x1c60 32;
}

abbrev pub ram_requests : List Bytes
ram_requests = map (λ n. (p300_ram_reads n).request) (ram_0f20_32 ∷ ram_1c60_32 ∷ [])

-- `TX_ALLOW`
abbrev pub tx_allow : List Bytes
tx_allow =
    eot ∷ ack ∷ start ∷ (stx ++ vs1_id) ∷ vs1_id ∷ vs1_software ∷ gfa_values
    ++ (p300_id ∷ p300_software ∷ ram_requests)

pub data Mode : Type 0 where
  detached unknown switching vs1_verified p300_verified failed_closed recovering : Mode

pub data WirePhase : Type 0 where
  failed_closed vs1_sync vs1_handshake vs1_verified p300_sync p300_handshake p300_verified :
      WirePhase

-- `PHASE_TX_ALLOW`
abbrev pub phase_tx_allow : WirePhase → List Bytes
phase_tx_allow WirePhase.failed_closed = []
phase_tx_allow WirePhase.vs1_sync = eot ∷ []
phase_tx_allow WirePhase.vs1_handshake =
    (stx ++ vs1_id) ∷ vs1_id ∷ vs1_software ∷ gfa p80 ∷ gfa p06 ∷ []
phase_tx_allow WirePhase.vs1_verified = gfa_values
phase_tx_allow WirePhase.p300_sync = eot ∷ []
phase_tx_allow WirePhase.p300_handshake = start ∷ ack ∷ p300_id ∷ p300_software ∷ []
phase_tx_allow WirePhase.p300_verified = p300_id ∷ ack ∷ ram_requests

abbrev pub is_p300_verified : WirePhase → Bool
is_p300_verified WirePhase.p300_verified = true
is_p300_verified _ = false

-- `phase in (VS1_SYNC, P300_SYNC)`, and the same for the handshake and the verified phase of either
-- protocol
abbrev pub is_sync : WirePhase → Bool
is_sync WirePhase.vs1_sync = true
is_sync WirePhase.p300_sync = true
is_sync _ = false

abbrev pub is_vs1 : WirePhase → Bool
is_vs1 WirePhase.vs1_handshake = true
is_vs1 WirePhase.vs1_verified = true
is_vs1 _ = false

abbrev pub is_p300 : WirePhase → Bool
is_p300 WirePhase.p300_handshake = true
is_p300 WirePhase.p300_verified = true
is_p300 _ = false

-- The exceptions; `device` is one of the serial port, `assertion` a failed `assert`. `stuck` is none
-- of the source's: a loop of the model has run out of turns.
pub data Raised : Type 0 where
  protocol busy restore device assertion stuck : Raised
