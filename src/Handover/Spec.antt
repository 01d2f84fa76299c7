-- ===== src/Handover/Spec.antt =====
-- What `HandoverCoordinator` (tools/handover_acceleration/coordinator.py) promises of its mode, as a
-- machine without a wire: what one step may change, and how often it may recover.
pub mod Refines
pub mod Switched
pub mod Sessions
pub mod Calls
use optolink.Base.{ℕ, ◌+◌, ◌≤◌, Bool, true, false, arith}
use optolink.Handover.{Mode}

-- the mode, whether there is a wire, and whether a recovery was tried since P300 was last entered
pub record View : Type 0 where
  pub mode : Mode
  pub open_ : Bool
  pub tried : Bool

abbrev pub at : Mode → Bool → Bool → View
at m o t = record { mode = m; open_ = o; tried = t }

-- Each step of a session. A recovery starts in any mode but a verified VS1, needs a wire, and is
-- made once; P300 is entered from a verified VS1 and makes a recovery possible again. Only `forsaken`
-- keeps the mode of a wire that is gone: the port could not be closed.
pub data Step : View → View → Type 0 where
  opened : (o t : Bool) → Step (at Mode.detached o t) (at Mode.vs1_verified true t)
  not_opened : (o t : Bool) → Step (at Mode.detached o t) (at Mode.failed_closed false t)
  started : (o t : Bool) → Step (at Mode.vs1_verified o t) (at Mode.p300_verified o false)
  returned : (o t : Bool) → Step (at Mode.p300_verified o t) (at Mode.vs1_verified o t)
  lost_vs1 : (o t : Bool) → Step (at Mode.vs1_verified o t) (at Mode.failed_closed o t)
  lost_p300 : (o t : Bool) → Step (at Mode.p300_verified o t) (at Mode.failed_closed o t)
  recovered : (m : Mode) → Step (at m true false) (at Mode.vs1_verified true true)
  not_recovered : (m : Mode) → Step (at m true false) (at Mode.failed_closed true true)
  left : (o t : Bool) → Step (at Mode.vs1_verified o t) (at Mode.detached false t)
  given_up : (m : Mode) (o t : Bool) → Step (at m o t) (at Mode.failed_closed false t)
  forsaken : (m : Mode) (o t : Bool) → Step (at m o t) (at m false t)

pub data Reach (v : View) : View → Type 0 where
  here : Reach v v
  next : {u w : View} → Reach v u → Step u w → Reach v w

abbrev pub recovers : {u w : View} → Step u w → ℕ
recovers (recovered m) = 1
recovers (not_recovered m) = 1
recovers _ = 0

abbrev pub starts : {u w : View} → Step u w → ℕ
starts (started o t) = 1
starts _ = 0

abbrev pub recoveries : {v w : View} → Reach v w → ℕ
recoveries here = 0
recoveries (next r s) = recoveries r + recovers s

abbrev pub entries : {v w : View} → Reach v w → ℕ
entries here = 0
entries (next r s) = entries r + starts s

abbrev count : Bool → ℕ
count true = 1
count false = 0

Step-balance : {u w : View} (s : Step u w) → recovers s + count u.tried ≤ starts s + count w.tried
Step-balance (opened o t) = omega arith
Step-balance (started o true) = omega arith
Step-balance (started o false) = omega arith
Step-balance (recovered m) = omega arith
Step-balance (not_recovered m) = omega arith
Step-balance _ = omega arith

Reach-balance :
    {v w : View} (r : Reach v w) → recoveries r + count v.tried ≤ entries r + count w.tried
Reach-balance here = omega arith
Reach-balance (next r s) = omega (arith, Reach-balance r, Step-balance s)

count-le : (t : Bool) → count t ≤ 1
count-le true = omega arith
count-le false = omega arith

-- Between two recoveries P300 is entered.
pub recoveries_le : {v w : View} (r : Reach v w) → recoveries r ≤ entries r + 1
recoveries_le {w = w} r = omega (arith, Reach-balance r, count-le w.tried)

pub Reach-trans : {u v w : View} → Reach u v → Reach v w → Reach u w
Reach-trans r here = r
Reach-trans r (next q s) = next (Reach-trans r q) s
