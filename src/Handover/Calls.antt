-- ===== src/Handover/Calls.antt =====
-- The calls of a coordinator (tools/handover_acceleration/coordinator.py), in any order: one method,
-- or a window with the methods that its callback calls.
pub mod Laws
use optolink.Base.{ℕ, Option, List, [], ◌∷◌}
use optolink.Base.Effect.{give, ◌>>=◌, ◌>>◌}
use optolink.Handover.{GfaName, RamName}
use optolink.Handover.Wire.{Port}
use optolink.Handover.Owner.{Owner, OwnerOp, enter}
use optolink.Handover.Owner.Switches.{
  exit, to_p300, to_p300_early_start_experiment, to_vs1_fast, to_vs1_early_identity_experiment,
  restore_vs1, verified_gfa_snapshot, gfa_read, p300_identity, p300_ram_read, p300_window,
}

pub data Method : Type 0 where
  entering exiting starting starting_early returning returning_early restoring identity : Method
  snapshot : ℕ → Method
  gfa : Option GfaName → Method
  ram : Option RamName → Method

pub data Call : Type 0 where
  plain : Method → Call
  window : List Method → Call

module _ {W : Type 0} (port : Port W) where
  -- a method without its value
  abbrev pub method : Method → OwnerOp W (Unit {0})
  method entering = enter port
  method exiting = exit port
  method starting = to_p300 port
  method starting_early = to_p300_early_start_experiment port
  method returning = to_vs1_fast port
  method returning_early = to_vs1_early_identity_experiment port
  method restoring = restore_vs1 port
  method identity = p300_identity port >>= λ _. give tt
  method (snapshot age) = verified_gfa_snapshot port age >>= λ _. give tt
  method (gfa name) = gfa_read port name >>= λ _. give tt
  method (ram name) = p300_ram_read port name >>= λ _. give tt

  -- a callback that calls methods up to the first that raises
  abbrev pub callback : List Method → OwnerOp W (Unit {0})
  callback [] = give tt
  callback (m ∷ ms) = method m >> callback ms

  abbrev pub call : Call → OwnerOp W (Unit {0})
  call (plain m) = method m
  call (window ms) = p300_window port (callback ms)

  unfoldable pub run : List Call → Owner W → Owner W
  run [] s = s
  run (c ∷ cs) s = run cs (call c s).1
