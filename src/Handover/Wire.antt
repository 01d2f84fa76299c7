-- ===== src/Handover/Wire.antt =====
-- `ReadOnlyWire` of tools/handover_acceleration/coordinator.py up to `sync`: what is sent and what is
-- read, with deadlines. Times are microseconds.
use optolink.Base.{
  ℕ, zero, suc, ◌+◌, ◌-◌, Bool, ◌&&◌, ◌||◌, Option, none, some, List, [], ◌∷◌, ◌++◌, ltb, leb, ◌==◌,
  if◌then◌else◌, length,
}
use optolink.Base.Effect.{Op, give, raise, ◌>>=◌, ◌>>◌, view, change, on_raise, demand}
use optolink.Base.Result.{ok}
use optolink.Handover.{
  Bytes, same_bytes, is_one_of, ack, nak, enq, eot, tx_allow, GfaName, WirePhase, phase_tx_allow,
  is_sync, Raised, protocol, device, stuck,
}

-- The serial object, the clock and the file of the lease, with states `W`. `time` is what the clock
-- shows, `tick` a reading of it. `write` and `read` raise where they give `none`, the operations with
-- a `Bool` where they give `false`. `lock` opens, checks and locks the file of the lease.
pub record Port (W : Type 0) : Type 0 where
  pub time : W → ℕ
  pub tick : W → W
  pub sleep : ℕ → W → W
  pub write : Bytes → W → Option ℕ × W
  pub read : ℕ → W → Option Bytes × W
  pub reset : W → Bool × W
  pub open_port : W → Bool × W
  pub close : W → Bool × W
  pub lock : W → Bool × W
  pub unlock : W → W

pub data EventKind : Type 0 where
  sending receiving unexpected : EventKind

pub record Event : Type 0 where
  pub kind : EventKind
  pub bytes : Bytes
  pub at : ℕ

-- a value of `_handshake_gfa`, under its name
pub record Handshake : Type 0 where
  pub name : GfaName
  pub value : Bytes
  pub at : ℕ

-- `events` has the latest first. `sent` is no field of the source: the messages given to the port,
-- each with the phase of the wire at that time, the latest first.
pub record Wire (W : Type 0) : Type 0 where
  pub world : W
  pub last_io : ℕ
  pub phase : WirePhase
  pub events : List Event
  pub handshake_gfa : List Handshake
  pub sent : List (WirePhase × Bytes)

abbrev pub WireOp : Type 0 → Type 0 → Type 0
WireOp W A = Op Raised (Wire W) A

module _ {W : Type 0} where
  abbrev pub set_phase : WirePhase → Wire W → Wire W
  set_phase p s = record s { phase = p }

  abbrev pub clear_handshake : Wire W → Wire W
  clear_handshake s = record s { handshake_gfa = [] }

  abbrev pub or_device : {A : Type 0} → Option A → WireOp W A
  or_device none = raise device
  or_device (some a) = give a

module _ {W : Type 0} (port : Port W) where
  -- `ReadOnlyWire.__init__`, on the world and the messages sent before
  abbrev pub new_wire : W → List (WirePhase × Bytes) → Wire W
  new_wire w sent = record {
    world = port.tick w;
    last_io = port.time w;
    phase = WirePhase.failed_closed;
    events = [];
    handshake_gfa = [];
    sent = sent;
  }

  -- `self.clock()`
  unfoldable pub clock : WireOp W ℕ
  clock s = (ok (port.time s.world), record s { world = port.tick s.world })

  unfoldable pub nap : ℕ → WireOp W (Unit {0})
  nap d = change λ s. record s { world = port.sleep d s.world }

  -- `_event`
  unfoldable pub event : EventKind → Bytes → WireOp W (Unit {0})
  event k d = clock >>= λ t.
      change λ s. record s { events = (record { kind = k; bytes = d; at = t }) ∷ s.events }

  -- `self.port.write`
  unfoldable pub put : Bytes → WireOp W ℕ
  put m s =
      or_device (port.write m s.world).0
        (record s { world = (port.write m s.world).1; sent = (s.phase, m) ∷ s.sent })

  -- `self.port.read`
  unfoldable pub get : ℕ → WireOp W Bytes
  get n s = or_device (port.read n s.world).0 (record s { world = (port.read n s.world).1 })

  unfoldable pub tx : Bytes → WireOp W (Unit {0})
  tx m = do
    p ← view (λ s. s.phase)
    demand (is_one_of m tx_allow && is_one_of m (phase_tx_allow p)) protocol
    event sending m
    on_raise (set_phase WirePhase.failed_closed) (put m >>= λ n. demand (n == length m) protocol)

  -- One turn of the loop of `exact_until` after the deadline: the next turns are `rest`.
  unfoldable pub receive : (Bytes → WireOp W Bytes) → Bytes → Bytes → WireOp W Bytes
  receive rest bytes [] = nap 1000 >> rest bytes
  receive rest bytes (b ∷ part) = event receiving (b ∷ part) >> rest (bytes ++ (b ∷ part))

  unfoldable pub exact_turns : ℕ → ℕ → ℕ → Bytes → WireOp W Bytes
  exact_turns zero n deadline bytes = if leb n (length bytes) then give bytes else raise stuck
  exact_turns (suc turns) n deadline bytes =
      let rest : Bytes → WireOp W Bytes = exact_turns turns n deadline in
      if leb n (length bytes) then give bytes else (do
        t ← clock
        demand (ltb t deadline) protocol
        part ← get (n - length bytes)
        receive rest bytes part)

  -- `exact_until`; each turn brings a byte or ends with a sleep
  unfoldable pub exact_until : ℕ → ℕ → WireOp W Bytes
  exact_until n deadline =
      view (λ s. n + (deadline - port.time s.world)) >>= λ turns. exact_turns turns n deadline []

  unfoldable pub exact : ℕ → ℕ → WireOp W Bytes
  exact n timeout = clock >>= λ t. exact_until n (t + timeout)

  -- the loop of `control_until`, with the turns left
  unfoldable pub control_turns : ℕ → Bytes → ℕ → WireOp W (Unit {0})
  control_turns zero expected deadline = raise protocol
  control_turns (suc turns) expected deadline =
      let rest : WireOp W (Unit {0}) = control_turns turns expected deadline in
      exact_until 1 deadline >>= λ x.
      if same_bytes x expected
      then give tt
      else if same_bytes expected enq && is_one_of x (ack ∷ nak ∷ [])
      then rest
      else raise protocol

  unfoldable pub control_until : Bytes → ℕ → WireOp W (Unit {0})
  control_until = control_turns 32

  unfoldable pub control : Bytes → ℕ → WireOp W (Unit {0})
  control expected timeout = clock >>= λ t. control_until expected (t + timeout)

  unfoldable pub gap : WireOp W (Unit {0})
  gap = view (λ s. s.last_io) >>= λ last_io. clock >>= λ t. nap (last_io + 25000 - t)

  -- what a turn of `quiet` does with a byte that was read
  unfoldable pub silence : WireOp W (Unit {0}) → Bytes → WireOp W (Unit {0})
  silence rest [] = nap 1000 >> rest
  silence rest (b ∷ bs) = event unexpected (b ∷ bs) >> raise protocol

  unfoldable pub quiet_turns : ℕ → ℕ → WireOp W (Unit {0})
  quiet_turns zero end = clock >>= λ t. if ltb t end then raise stuck else give tt
  quiet_turns (suc turns) end =
      let rest : WireOp W (Unit {0}) = quiet_turns turns end in
      clock >>= λ t. if ltb t end then (get 1 >>= silence rest) else give tt

  -- `quiet`; each turn ends with a sleep
  unfoldable pub quiet : WireOp W (Unit {0})
  quiet = do
    t ← clock
    turns ← view (λ s. t + 10000 - port.time s.world)
    quiet_turns turns (t + 10000)
    now ← clock
    change λ s. record s { last_io = now }

  unfoldable pub reset_before_eot : WireOp W (Unit {0})
  reset_before_eot s =
      demand (port.reset s.world).0 device (record s { world = (port.reset s.world).1 })

  -- `for _ in range(count): self.control(ENQ, timeout=6.0)`
  unfoldable pub enquiries : ℕ → WireOp W (Unit {0})
  enquiries zero = give tt
  enquiries (suc n) = control enq 6000000 >> enquiries n

  unfoldable pub sync : ℕ → WireOp W (Unit {0})
  sync count = do
    demand (count == 1 || count == 2) protocol
    p ← view (λ s. s.phase)
    demand (is_sync p) protocol
    reset_before_eot
    tx eot
    enquiries count
