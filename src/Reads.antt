-- ===== src/Reads.antt =====
-- The read kinds and ticket states of tools/handover_acceleration/scheduler.py, which the queue,
-- the freshness ledger, the batcher and the planner share.
use optolink.Base.{ℕ, ◌≡◌, ◌↔◌, Bool, true, false, arith, ◌==◌}

-- `ReadKind`
pub data ReadKind : Type 0 where
  vs1_p80 vs1_p06 vs1_p09 vs1_p87 p300_id p300_ram_0f20_32 p300_ram_1c60_32 : ReadKind

pub data Protocol : Type 0 where
  vs1 p300 : Protocol

-- `ReadKind.mode`
abbrev pub mode_of : ReadKind → Protocol
mode_of p300_id = p300
mode_of p300_ram_0f20_32 = p300
mode_of p300_ram_1c60_32 = p300
mode_of _ = vs1

abbrev pub is_p300 : Protocol → Bool
is_p300 p300 = true
is_p300 vs1 = false

abbrev pub same_mode : Protocol → Protocol → Bool
same_mode vs1 vs1 = true
same_mode p300 p300 = true
same_mode _ _ = false

-- The one protocol that is not the given one.
abbrev pub other_mode : Protocol → Protocol
other_mode vs1 = p300
other_mode p300 = vs1

-- `TicketState`
pub data TicketState : Type 0 where
  queued running completed failed cancelled expired : TicketState

abbrev pub is_queued : TicketState → Bool
is_queued queued = true
is_queued _ = false

abbrev pub is_running : TicketState → Bool
is_running running = true
is_running _ = false

abbrev pub is_settled : TicketState → Bool
is_settled queued = false
is_settled running = false
is_settled _ = true

-- A number for each kind, by which kinds are compared.
abbrev pub kind_index : ReadKind → ℕ
kind_index vs1_p80 = 0
kind_index vs1_p06 = 1
kind_index vs1_p09 = 2
kind_index vs1_p87 = 3
kind_index p300_id = 4
kind_index p300_ram_0f20_32 = 5
kind_index p300_ram_1c60_32 = 6

abbrev pub same_kind : ReadKind → ReadKind → Bool
same_kind a b = kind_index a == kind_index b

pub same_kind_iff : (a b : ReadKind) → (same_kind a b ≡ true) ↔ (a ≡ b)
same_kind_iff a b = ground arith

-- A numeric argument as the code tests it: a value that is no finite number (or a Boolean), a
-- negative number, or a number of microseconds.
pub data Quantity : Type 0 where
  not_finite negative : Quantity
  micros : ℕ → Quantity

pub same_mode_iff : (a b : Protocol) → (same_mode a b ≡ true) ↔ (a ≡ b)
same_mode_iff a b = ground arith
