-- ===== src/Handover/Window.antt =====
-- What a recovery and a window of `HandoverCoordinator` (tools/handover_acceleration/coordinator.py)
-- have done where they return.
use optolink.Base.{ℕ, ◌≡◌, refl, ◌∙◌, sym, Bool, true, false, not, arith, if◌then◌else◌}
use mathlib.Core.Path.{subst}
use optolink.Base.Effect.{give, Outcome}
use optolink.Base.Effect.Triples.{
  Does-give, Does-raise, Does-view, Does-bind, Does-if, Does-except, Does-from, Does, Does-change,
  Does-check, Does-finally, Does-any,
}
use optolink.Base.Result.{Result, ok, err, OnOk}
use optolink.Handover.{Mode, Raised, protocol, restore, assertion}
use optolink.Handover.Wire.{Port}
use optolink.Handover.Owner.{Owner, OwnerOp, is_vs1_verified, is_p300_verified, recover_vs1}
use optolink.Handover.Owner.Switches.{
  to_vs1_fast, recover_once, restore_vs1, leave_p300, p300_window,
}
use optolink.Handover.Sound.Reads.{vs1_mode}

module _ {W : Type 0} where
  abbrev pub Verified : Owner W → Type 0
  Verified s = s.mode ≡ Mode.vs1_verified

module _ {W : Type 0} (port : Port W) where
  recover_vs1-Verified :
      (count : ℕ) (recovery : Bool)
      → Does (λ _. Unit {0}) (recover_vs1 port count recovery) (λ _. Verified) (λ _ _. Unit {0})
  unfolding recover_vs1
  recover_vs1-Verified count recovery =
      Does-check _ assertion _ (λ s i _. tt)
        (Does-bind (λ _ _. Unit {0}) _ _ (Does-change _ (λ s i. tt))
          (λ _. Does-bind (λ _ _. Unit {0}) _ _ (Does-any _) (λ _. Does-change _ (λ s i. refl))))

  pub restore_vs1-Verified :
      Does (λ _. Unit {0}) (restore_vs1 port) (λ _. Verified) (λ _ _. Unit {0})
  unfolding restore_vs1 recover_once
  restore_vs1-Verified =
      Does-bind (λ b s. b ≡ is_vs1_verified s.mode) _ _ (Does-view _ (λ s i. refl))
        (λ b.
          Does-if b _ _ (λ h. Does-give tt (λ s i. vs1_mode s.mode (sym i ∙ h)))
            (λ _.
              Does-check _ restore _ (λ s i _. tt)
                (Does-check _ restore _ (λ s i _. tt)
                  (Does-bind (λ _ _. Unit {0}) _ _ (Does-change _ (λ s i. tt))
                    (λ _. recover_vs1-Verified 2 true)))))

  to_vs1_fast-Verified : Does (λ _. Unit {0}) (to_vs1_fast port) (λ _. Verified) (λ _ _. Unit {0})
  unfolding to_vs1_fast
  to_vs1_fast-Verified =
      Does-check _ protocol _ (λ s i _. tt)
        (Does-from (λ _. Unit {0}) _ (λ s i. tt) (recover_vs1-Verified 1 false))

  leave_p300-Verified : Does (λ _. Unit {0}) (leave_p300 port) (λ _. Verified) (λ _ _. Unit {0})
  unfolding leave_p300
  leave_p300-Verified =
      Does-bind (λ m s. m ≡ s.mode) _ _ (Does-view _ (λ s i. refl))
        (λ m.
          Does-if (is_p300_verified m) _
            (if not (is_vs1_verified m) then restore_vs1 port else give tt)
            (λ _.
              Does-except (λ _ _. Unit {0}) _ _
                (Does-from (λ _. Unit {0}) _ (λ s i. tt) to_vs1_fast-Verified)
                (λ e. Does-bind (λ _ _. Unit {0}) _ _ (Does-any _) (λ _. Does-raise e (λ s i. tt))))
            (λ _.
              Does-if (not (is_vs1_verified m)) _ _
                (λ _. Does-from (λ _. Unit {0}) _ (λ s i. tt) restore_vs1-Verified)
                (λ h. Does-give tt (λ s i.
                  vs1_mode s.mode (subst (λ x. is_vs1_verified x ≡ true) i (ground arith))))))

  p300_window-Verified :
      {A : Type 0} (fn : OwnerOp W A)
      → Does (λ _. Unit {0}) (p300_window port fn) (λ _. Verified) (λ _ _. Unit {0})
  unfolding p300_window
  p300_window-Verified fn =
      Does-check _ protocol _ (λ s i _. tt)
        (Does-finally (λ _ _. Unit {0}) (λ _ _. Unit {0}) _ _ (Does-any _)
          (λ _. leave_p300-Verified) (λ e. Does-any _))

  -- A window returns a value only with VS1 verified again. Whatever the callback does, and however
  -- the way back went, where the value of `p300_window` is given out the mode is a verified VS1;
  -- where the way back is not confirmed the value is withheld and an exception raised.
  pub p300_window_returns :
      {A : Type 0} (fn : OwnerOp W A) (s : Owner W)
      → OnOk (λ _. (p300_window port fn s).1.mode ≡ Mode.vs1_verified) (p300_window port fn s).0
  p300_window_returns {A = A} fn s =
      value (p300_window port fn s).0 _ ((p300_window-Verified fn).at s tt)
    where
      value :
          (r : Result Raised A) (t : Owner W)
          → Outcome (λ _. Verified) (λ _ _. Unit {0}) r t
          → OnOk (λ _. t.mode ≡ Mode.vs1_verified) r
      value (ok b) t o = o
      value (err e) t o = tt
