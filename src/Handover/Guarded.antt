-- ===== src/Handover/Guarded.antt =====
-- What the operations of `ReadOnlyWire` (tools/handover_acceleration/coordinator.py) keep, up to
-- `sync`: the phase and the samples, and that only allowed messages have been sent.
pub mod Turns
pub mod Lines
pub mod Sessions
pub mod Handshakes
use optolink.Base.{
  ℕ, ◌+◌, ◌-◌, ◌≤◌, ◌≡◌, ◌≢◌, ◌⊎◌, inl, inr, Bool, true, Option, none, some, List, All,
}
use optolink.Base.Effect.{give, raise, demand, Outcome}
use optolink.Base.Effect.Triples.{Does-bind, Does, Does-change, Does-demand}
use optolink.Handover.{
  Bytes, is_one_of, tx_allow, WirePhase, phase_tx_allow, Raised, protocol, device, stuck,
}
use optolink.Handover.Wire.{
  Port, EventKind, Handshake, Wire, WireOp, or_device, clock, nap, event, get,
}

-- a message that may be sent at all, and in its phase
abbrev pub Allowed : WirePhase × Bytes → Type 0
Allowed (p, m) = (is_one_of m tx_allow ≡ true) × (is_one_of m (phase_tx_allow p) ≡ true)

-- The clock does not go back, and a sleep lasts as long as it was asked to.
pub record Moves {W : Type 0} (port : Port W) : Type 0 where
  pub tick_on : (w : W) → port.time w ≤ port.time (port.tick w)
  pub read_on : (n : ℕ) (w : W) → port.time w ≤ port.time (port.read n w).1
  pub sleep_on : (d : ℕ) (w : W) → port.time w + d ≤ port.time (port.sleep d w)

module _ {W : Type 0} where
  abbrev pub Calm : Wire W → Type 0
  Calm s = All Allowed s.sent

  -- between the steps of a session
  abbrev pub Steady : WirePhase → List Handshake → Wire W → Type 0
  Steady p h s = (s.phase ≡ p) × (s.handshake_gfa ≡ h) × Calm s

  -- after an exception of a kind that is expected
  abbrev pub Thrown : (Raised → Type 0) → List Handshake → Raised → Wire W → Type 0
  Thrown Fine h e s = (s.handshake_gfa ≡ h) × Calm s × Fine e

-- `Fine` are the exceptions expected of the operations on a port: any, or any but `stuck` where the
-- clock moves.
pub record Watch (W : Type 0) : Type 1 where
  pub port : Port W
  pub Fine : Raised → Type 0
  pub fine : (e : Raised) → e ≢ stuck → Fine e
  pub ends : Fine stuck ⊎ Moves port

-- any exception, or any but `stuck` where the clock moves
abbrev pub any_raise : {W : Type 0} → Port W → Watch W
any_raise port = record { port = port; Fine = λ _. Unit; fine = λ _ _. tt; ends = inl tt }

abbrev pub no_loop : {W : Type 0} (port : Port W) → Moves port → Watch W
no_loop port moves = record {
  port = port;
  Fine = λ e. e ≢ stuck;
  fine = λ e n. n;
  ends = inr moves;
}

module _ {W : Type 0} (watch : Watch W) where
  open watch use {port, Fine, fine, ends}

  -- with a bound on the turns that are needed, where the clock moves
  abbrev pub Timed : (ℕ → Type 0) → Wire W → Type 0
  Timed T s = Fine stuck ⊎ (Moves port × T (port.time s.world))

  module _ (p : WirePhase) (h : List Handshake) where
    abbrev pub Keeps : {A : Type 0} → WireOp W A → Type 0
    Keeps m = Does (Steady p h) m (λ _. Steady p h) (Thrown Fine h)

    pub thrown : (e : Raised) → e ≢ stuck → (s : Wire W) → Steady p h s → Thrown Fine h e s
    thrown e n s i = (i.1, i.2, fine e n)

    pub clock-Keeps : Keeps (clock port)
    unfolding clock
    clock-Keeps = record { at = λ s i. i }

    pub nap-Keeps : (d : ℕ) → Keeps (nap port d)
    unfolding nap
    nap-Keeps d = Does-change _ (λ s i. i)

    pub event-Keeps : (k : EventKind) (d : Bytes) → Keeps (event port k d)
    unfolding event
    event-Keeps k d = Does-bind (λ _. Steady p h) _ _ clock-Keeps (λ t. Does-change _ (λ s i. i))

    pub get-Keeps : (n : ℕ) → Keeps (get port n)
    unfolding get raise give
    get-Keeps n = record {
      at = λ s i. got (port.read n s.world).0 (record s { world = (port.read n s.world).1 }) i;
    }
      where
        got :
            (o : Option Bytes) (s : Wire W)
            → Steady p h s
            → Outcome (λ _. Steady p h) (Thrown Fine h) (or_device o s).0 (or_device o s).1
        got none s i = thrown device (cc) s i
        got (some b) s i = i

    pub demand-Keeps : (b : Bool) → Keeps (demand b protocol)
    demand-Keeps b = Does-demand b protocol (λ s i _. i) (λ s i _. thrown protocol (cc) s i)
