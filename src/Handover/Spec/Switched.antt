-- ===== src/Handover/Spec/Switched.antt =====
-- The transitions and the recovery of `HandoverCoordinator`
-- (tools/handover_acceleration/coordinator.py) are steps of the machine of modes.
use optolink.Base.{ℕ, ◌≡◌, refl, ◌∙◌, not-eq-true, sym, Bool, true, false, if◌then◌else◌}
use optolink.Base.Effect.{◌>>=◌, ◌>>◌, change, on_raise}
use optolink.Base.Effect.Triples.{
  Does-give, Does-view, Does-bind, Does-if, Does, Does-change, Does-check, Does-fact,
}
use optolink.Handover.{Mode, restore, assertion}
use optolink.Handover.Wire.{Port}
use optolink.Handover.Owner.{Owner, OwnerOp, attach_vs1, recover_vs1}
use optolink.Handover.Owner.Switches.{
  to_p300, to_p300_early_start_experiment, to_vs1_fast, to_vs1_early_identity_experiment,
  recover_once, restore_vs1,
}
use optolink.Handover.Spec.{
  View, at, Step, started, returned, lost_vs1, lost_p300, recovered, not_recovered,
}
use optolink.Handover.Spec.Refines.{
  from_vs1, from_p300, At, Reached, stays, goes, Moves, Refines, frame, ends, in_mode,
  in_mode_and_wire, At-fail_closed, asserted,
}

once :
    (m : Mode) (o t : Bool)
    → o ≡ true
    → t ≡ false
    → Step (at m o t) (at Mode.vs1_verified o true) × Step (at m o t) (at Mode.failed_closed o true)
once m true false e f = (recovered m, not_recovered m)
once m true true e f = absurd cc
once m false t e f = absurd cc

module _ {W : Type 0} (port : Port W) where
  pub recover-Moves :
      (m : Mode) (o t : Bool) (count : ℕ) (recovery : Bool) (v : View) (Y : Owner W → Type 0)
      → Step v (at Mode.vs1_verified o t)
      → ((s : Owner W) → At (at Mode.failed_closed o t) s → Y s)
      → (o ≡ false → (s : Owner W) → At (at m o t) s → Y s)
      → Does (At (at m o t)) (recover_vs1 port count recovery) (λ _. Reached v) (λ _. Y)
  unfolding recover_vs1
  recover-Moves m o t count recovery v Y good bad gone =
      Does-check _ assertion _ (λ s i e. gone (sym i.1 ∙ e) s i)
        (Does-bind (λ _. At (at (if recovery then Mode.recovering else Mode.switching) o t)) _ _
          (Does-change _ (λ s i. (refl, i.0.1, i.0.2)))
          (λ _.
            ends v _ _ _ Y _ _ _ (frame _ _) (λ s i. (refl, i.1, i.2)) (λ s i. (refl, i.1, i.2))
              good bad))

  pub attach-Moves :
      (m : Mode) (t : Bool) (v : View) (Y : Owner W → Type 0)
      → Step v (at Mode.vs1_verified true t)
      → ((s : Owner W) → At (at Mode.failed_closed true t) s → Y s)
      → Does (At (at m true t)) (attach_vs1 port) (λ _. Reached v) (λ _. Y)
  unfolding attach_vs1
  attach-Moves m t v Y good bad =
      Does-check _ assertion _ (λ s i e. absurd (cc))
        (Does-bind (λ _. At (at Mode.switching true t)) _ _
          (Does-change _ (λ s i. (refl, i.0.1, i.0.2)))
          (λ _.
            ends v _ _ _ Y _ _ _ (frame _ _) (λ s i. (refl, i.1, i.2)) (λ s i. (refl, i.1, i.2))
              good bad))

  -- from a mode of `test` through the switching one
  switch :
      (v u : View) (m : OwnerOp W (Unit {0})) (f g : Owner W → Owner W)
      → Does
          (At (at Mode.switching v.open_ v.tried))
          m
          (λ _. At (at Mode.switching v.open_ v.tried))
          (λ _. At (at Mode.switching v.open_ v.tried))
      → ((s : Owner W)
          → At (at Mode.switching v.open_ v.tried) s
          → At (at Mode.failed_closed v.open_ v.tried) (f s))
      → ((s : Owner W) → At (at Mode.switching v.open_ v.tried) s → At u (g s))
      → Step v u
      → Step v (at Mode.failed_closed v.open_ v.tried)
      → (h : Owner W → Owner W)
      → ((s : Owner W) → At v s → At (at Mode.switching v.open_ v.tried) (h s))
      → Moves v (change h >> (on_raise f m >>= λ _. change g))
  switch v u m f g hm hf hg su sx h hh =
      Does-bind (λ _. At (at Mode.switching v.open_ v.tried)) _ _ (Does-change _ hh)
        (λ _. ends v _ u _ (Reached v) m f g hm hf hg su (goes v _ sx))

  pub to_p300-Refines : Refines (to_p300 port)
  unfolding to_p300
  to_p300-Refines v = in_mode v _ _ (λ h.
      switch v (at Mode.p300_verified v.open_ false) _ _ _ (asserted _ _ (frame _ _))
        (λ s i. At-fail_closed _ s i) (λ s i. (refl, i.1, refl)) (from_vs1 _ _ _ _ h (started _ _))
        (from_vs1 _ _ _ _ h (lost_vs1 _ _)) _ (λ s i. (refl, i.1, i.2)))

  pub early_start-Refines : Refines (to_p300_early_start_experiment port)
  unfolding to_p300_early_start_experiment
  early_start-Refines v = in_mode_and_wire v _ _ (λ h.
      switch v (at Mode.p300_verified v.open_ false) _ _ _ (frame _ _) (λ s i. At-fail_closed _ s i)
        (λ s i. (refl, i.1, refl)) (from_vs1 _ _ _ _ h (started _ _))
        (from_vs1 _ _ _ _ h (lost_vs1 _ _)) _ (λ s i. (refl, i.1, i.2)))

  pub early_identity-Refines : Refines (to_vs1_early_identity_experiment port)
  unfolding to_vs1_early_identity_experiment
  early_identity-Refines v = in_mode_and_wire v _ _ (λ h.
      switch v (at Mode.vs1_verified v.open_ v.tried) _ _ _ (frame _ _)
        (λ s i. At-fail_closed _ s i) (λ s i. (refl, i.1, i.2)) (from_p300 _ _ _ _ h (returned _ _))
        (from_p300 _ _ _ _ h (lost_p300 _ _)) _ (λ s i. (refl, i.1, i.2)))

  pub to_vs1_fast-Refines : Refines (to_vs1_fast port)
  unfolding to_vs1_fast
  to_vs1_fast-Refines v = in_mode v _ _ (λ h.
      recover-Moves v.mode v.open_ v.tried 1 false v (Reached v)
        (from_p300 _ _ _ _ h (returned _ _)) (goes v _ (from_p300 _ _ _ _ h (lost_p300 _ _)))
        (λ _. stays v))

  recover_once-Refines : Refines (recover_once port)
  unfolding recover_once
  recover_once-Refines v =
      Does-check _ restore _ (λ s i _. stays v s i)
        (Does-check _ restore _ (λ s i _. stays v s i.0)
          (Does-bind (λ _ s. At (at v.mode v.open_ true) s × ((v.open_ ≡ true) × (v.tried ≡ false)))
            _ _
            (Does-change _ (λ s i.
              ((i.0.0.0, i.0.0.1, refl), (sym i.0.0.1 ∙ i.0.1, sym i.0.0.2 ∙ not-eq-true _ i.1))))
            (λ _. Does-fact _ (λ f.
              let steps = once v.mode v.open_ v.tried f.0 f.1 in
              recover-Moves v.mode v.open_ true 2 true v (Reached v) steps.0 (goes v _ steps.1)
                (λ e. absurd (cc))))))

  pub restore_vs1-Refines : Refines (restore_vs1 port)
  unfolding restore_vs1
  restore_vs1-Refines v =
      Does-bind (λ _. At v) _ _ (Does-view _ (λ s i. i))
        (λ b. Does-if b _ _ (λ _. Does-give tt (stays v)) (λ _. recover_once-Refines v))
