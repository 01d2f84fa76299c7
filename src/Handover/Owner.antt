-- ===== src/Handover/Owner.antt =====
-- `HandoverCoordinator` of tools/handover_acceleration/coordinator.py, with `PortLease`: the owner of
-- the serial port and its mode.
pub mod Switches
use optolink.Base.{
  ℕ, Bool, true, false, not, ◌&&◌, ◌||◌, List, [], ◌∷◌, if◌then◌else◌, some_of, every,
}
use optolink.Base.Effect.{
  Op, give, raise, ◌>>=◌, ◌>>◌, view, change, on_raise, except, finally, demand, check,
}
use optolink.Handover.{GfaName, p80, p06, Mode, Raised, protocol, busy, device, assertion}
use optolink.Handover.Wire.{Port, Wire, Handshake, WireOp, new_wire}
use optolink.Handover.Vs1.{drop_session, verify_attached_vs1, verify_vs1}

pub data Transition : Type 0 where
  vs1_attached vs1 p300 p300_early_start vs1_early_identity : Transition

pub data Ending : Type 0 where
  failed verified verified_without_eot : Ending
  verified_after : ℕ → Ending

-- `has_wire` is `wire is not None`, and `wire` the present wire or the last; `held` is
-- `lease.fd is not None`. `history` has the latest first.
pub record Owner (W : Type 0) : Type 0 where
  pub mode : Mode
  pub has_wire : Bool
  pub wire : Wire W
  pub held : Bool
  pub history : List (Transition × Ending)
  pub recovery_attempted : Bool
  pub borrowed_port : Bool

abbrev pub OwnerOp : Type 0 → Type 0 → Type 0
OwnerOp W A = Op Raised (Owner W) A

abbrev pub is_detached : Mode → Bool
is_detached Mode.detached = true
is_detached _ = false

abbrev pub is_vs1_verified : Mode → Bool
is_vs1_verified Mode.vs1_verified = true
is_vs1_verified _ = false

abbrev pub is_p300_verified : Mode → Bool
is_p300_verified Mode.p300_verified = true
is_p300_verified _ = false

abbrev pub is_p80 : GfaName → Bool
is_p80 p80 = true
is_p80 _ = false

abbrev pub is_p06 : GfaName → Bool
is_p06 p06 = true
is_p06 _ = false

-- `set(values) == {'P80', 'P06'}`
abbrev pub has_both : List Handshake → Bool
has_both hs =
    some_of (λ h. is_p80 h.name) hs
    && some_of (λ h. is_p06 h.name) hs
    && every (λ h. is_p80 h.name || is_p06 h.name) hs

module _ {W : Type 0} where
  -- `HandoverCoordinator.__init__`, and `borrow_existing_vs1` with `true`
  abbrev pub new_owner : Bool → Wire W → Owner W
  new_owner borrowed w = record {
    mode = Mode.detached;
    has_wire = false;
    wire = w;
    held = false;
    history = [];
    recovery_attempted = false;
    borrowed_port = borrowed;
  }

  abbrev pub set_mode : Mode → Owner W → Owner W
  set_mode m s = record s { mode = m }

  abbrev pub note : Transition → Ending → Owner W → Owner W
  note t e s = record s { history = (t, e) ∷ s.history }

  abbrev pub on_the_wire : (Wire W → Wire W) → Owner W → Owner W
  on_the_wire f s = record s { wire = f s.wire }

  -- `_fail_closed`
  abbrev pub fail_closed : Owner W → Owner W
  fail_closed s =
      if s.has_wire
      then on_the_wire drop_session (set_mode Mode.failed_closed s)
      else set_mode Mode.failed_closed s

  -- an operation of the wire
  unfoldable pub on_wire : {A : Type 0} → WireOp W A → OwnerOp W A
  on_wire m s = ((m s.wire).0, record s { wire = (m s.wire).1 })

  -- `assert self.wire is not None`
  abbrev pub assert_wire : OwnerOp W (Unit {0})
  assert_wire = check (λ s. s.has_wire) assertion

  abbrev pub require_mode : (Mode → Bool) → OwnerOp W (Unit {0})
  require_mode test = check (λ s. test s.mode) protocol

  -- one of `mode` and of `self.wire is not None`
  abbrev pub require_mode_and_wire : (Mode → Bool) → OwnerOp W (Unit {0})
  require_mode_and_wire test = check (λ s. test s.mode && s.has_wire) protocol

  -- a call of the serial object or of the system that raises where it is false
  unfoldable pub outside : (W → Bool × W) → Raised → OwnerOp W (Unit {0})
  outside f e s =
      demand (f s.wire.world).0 e (on_the_wire (λ w. record w { world = (f w.world).1 }) s)

module _ {W : Type 0} (port : Port W) where
  -- `PortLease.acquire` and `PortLease.release`
  unfoldable pub acquire : OwnerOp W (Unit {0})
  acquire = do
    check (λ s. not s.held) busy
    outside port.lock busy
    change λ s. record s { held = true }

  abbrev pub release : Owner W → Owner W
  release s =
      if s.held
      then on_the_wire (λ w. record w { world = port.unlock w.world }) (record s { held = false })
      else s

  -- the `finally` of `_close_resources`
  abbrev pub let_go : Owner W → Owner W
  let_go s = release (record s { has_wire = false })

  unfoldable pub close_port : OwnerOp W (Unit {0})
  close_port = view (λ s. s.has_wire && not s.borrowed_port) >>= λ b.
      if b then outside port.close device else give tt

  unfoldable pub close_resources : OwnerOp W (Unit {0})
  close_resources = finally close_port (change let_go)

  -- `_verify_attached_vs1`
  unfoldable pub attach_vs1 : OwnerOp W (Unit {0})
  attach_vs1 = do
    assert_wire
    change (set_mode Mode.switching)
    on_raise (λ s. note vs1_attached failed (set_mode Mode.failed_closed s))
        (on_wire (verify_attached_vs1 port))
    change (λ s. note vs1_attached verified_without_eot (set_mode Mode.vs1_verified s))

  -- `_verify_vs1`
  unfoldable pub recover_vs1 : ℕ → Bool → OwnerOp W (Unit {0})
  recover_vs1 count recovery = do
    assert_wire
    change (set_mode (if recovery then Mode.recovering else Mode.switching))
    on_raise (λ s. note vs1 failed (set_mode Mode.failed_closed s))
        (on_wire (verify_vs1 port count))
    change (λ s. note vs1 (verified_after count) (set_mode Mode.vs1_verified s))

  -- the `try` of `__enter__`
  unfoldable pub open_session : OwnerOp W (Unit {0})
  open_session = do
    outside port.open_port device
    change λ s. record s {
      mode = Mode.unknown;
      has_wire = true;
      wire = new_wire port s.wire.world s.wire.sent;
    }
    b ← view (λ s. s.borrowed_port)
    if b then attach_vs1 else recover_vs1 2 false

  -- `__enter__`
  unfoldable pub enter : OwnerOp W (Unit {0})
  enter = do
    require_mode is_detached
    acquire
    except open_session λ e. do change (set_mode Mode.failed_closed); close_resources; raise e
