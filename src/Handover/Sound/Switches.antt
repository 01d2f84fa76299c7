-- ===== src/Handover/Sound/Switches.antt =====
-- The methods of HandoverCoordinator (tools/handover_acceleration/coordinator.py) that change the
-- protocol, recover VS1 or leave keep the mode sound.
use optolink.Base.{◌≡◌, refl, true, false, [], if_elim, if◌then◌else◌}
use optolink.Base.Effect.Triples.{
  Does-give, Does-view, Does-bind, Does-if, Does-on_raise, Does-except, Does-from, Does-weaken,
  Does-change, Does-check, Does-demand,
}
use optolink.Handover.{Mode, WirePhase, protocol, restore, assertion}
use optolink.Handover.Owner.{set_mode}
use optolink.Handover.Owner.Switches.{
  to_p300, to_p300_early_start_experiment, to_vs1_fast, to_vs1_early_identity_experiment,
  recover_once, restore_vs1, confirm_vs1, exit,
}
use optolink.Handover.Guarded.{Calm, Steady, Thrown, Watch}
use optolink.Handover.Guarded.Sessions.{InVs1, InP300, Refused}
use optolink.Handover.Guarded.Handshakes.{
  early_identity-InVs1, early_start-Keeps, verify_p300-InP300,
}
use optolink.Handover.Sound.{
  Rests, IsSound, IsReady, IsLeft, sound-IsReady, left-IsSound, Raises, Keeps, Does-on_wire,
  refused, transition, recover_vs1-Keeps, fail_closed-IsSound,
}
use optolink.Handover.Sound.Sessions.{close_resources-Keeps}

module _ {W : Type 0} (watch : Watch W) where
  open watch use {port, Fine, fine}

  pub to_p300-Keeps : Keeps watch (to_p300 port)
  unfolding to_p300
  to_p300-Keeps = Does-check _ protocol _ (refused watch _ protocol (cc)) (
      Does-bind (λ _ s. Calm s.wire) _ _ (Does-change _ (λ s i. i.0.0))
        (λ _.
          Does-bind (λ _ s. InP300 s.wire) _ _
            (Does-on_raise _ _ (
              Does-check _ assertion _
                (λ s i _. (fail_closed-IsSound watch s i, fine assertion (cc)))
                (Does-on_wire watch Calm (λ _. InP300) (Refused Fine) _ (verify_p300-InP300 watch)
                  (λ s i. i.0) (λ _ s w _ o. o)
                  (λ e s w _ o. (fail_closed-IsSound watch (record s { wire = w }) o.0.2, o.1)))))
            (λ _. Does-change _ (λ s i. (i.2, tt, λ _. (i.0, i.1))))))

  pub early_start_experiment-Keeps : Keeps watch (to_p300_early_start_experiment port)
  unfolding to_p300_early_start_experiment
  early_start_experiment-Keeps = Does-check _ protocol _ (refused watch _ protocol (cc)) (
      Does-bind (λ _ s. Calm s.wire × (s.wire.handshake_gfa ≡ [])) _ _
        (Does-change _ (λ s i. (i.0.0, refl)))
        (λ _.
          transition watch (λ s. Calm s × (s.handshake_gfa ≡ [])) _ _ _
            (Steady WirePhase.p300_handshake []) (Thrown Fine []) (early_start-Keeps watch)
            (λ s i. (i.2, tt, λ _. (refl, i.1))) (λ e s o. (fail_closed-IsSound watch s o.1, o.2))))

  pub to_vs1_fast-Keeps : Keeps watch (to_vs1_fast port)
  unfolding to_vs1_fast
  to_vs1_fast-Keeps =
      Does-check _ protocol _ (refused watch _ protocol (cc))
        (Does-from IsReady _ (λ s i. sound-IsReady s i.0) (recover_vs1-Keeps watch 1 false))

  pub early_identity-Keeps : Keeps watch (to_vs1_early_identity_experiment port)
  unfolding to_vs1_early_identity_experiment
  early_identity-Keeps = Does-check _ protocol _ (refused watch _ protocol (cc)) (
      Does-bind (λ _ s. Calm s.wire) _ _ (Does-change _ (λ s i. i.0.0))
        (λ _.
          transition watch Calm _ _ _ InVs1 (Refused Fine) (early_identity-InVs1 watch)
            (λ s i. (i.2, tt, λ _. (i.0, i.1)))
            (λ e s o. (fail_closed-IsSound watch s o.0.2, o.1))))

  recover_once-Keeps : Keeps watch (recover_once port)
  unfolding recover_once
  recover_once-Keeps = Does-check _ restore _ (refused watch _ restore (cc)) (
      Does-check _ restore _ (λ s i _. (i.0, fine restore (cc)))
        (Does-bind (λ _. IsReady) _ _ (Does-change _ (λ s i. sound-IsReady s i.0.0))
          (λ _. recover_vs1-Keeps watch 2 true)))

  pub restore_vs1-Keeps : Keeps watch (restore_vs1 port)
  unfolding restore_vs1
  restore_vs1-Keeps =
      Does-bind (λ _. IsSound) _ _ (Does-view _ (λ s i. i))
        (λ b. Does-if b _ _ (λ _. Does-give tt (λ s i. i)) (λ _. recover_once-Keeps))

  confirm_vs1-Keeps : Keeps watch (confirm_vs1 port)
  unfolding confirm_vs1
  confirm_vs1-Keeps =
      Does-bind (λ _. IsSound) _ _ (Does-view _ (λ s i. i))
        (λ b.
          Does-bind (λ _. IsSound) _ _ (Does-view _ (λ s i. i))
            (λ t.
              Does-if b _ _ (λ _. Does-give true (λ s i. i))
                (λ _.
                  Does-if t _ _ (λ _. Does-give false (λ s i. i))
                    (λ _.
                      Does-except (Raises watch) _ _
                        (Does-bind (λ _. IsSound) _ _ restore_vs1-Keeps
                          (λ _. Does-give true (λ s i. i)))
                        (λ e. Does-give false (λ s i. i.0))))))

  pub exit-Keeps : Keeps watch (exit port)
  unfolding exit
  exit-Keeps =
      Does-bind (λ _. IsSound) _ _ confirm_vs1-Keeps
        (λ confirmed.
          Does-bind (λ _. IsLeft) _ _
            (Does-weaken (λ _. IsLeft) (λ e s. IsLeft s × Fine e) _
              (Does-from _ _ (λ s i. (i.0, i.1)) (close_resources-Keeps watch)) (λ _ s i. i)
              (λ e s i. (left-IsSound s i.0, i.1)))
            (λ _.
              Does-bind (λ _. IsSound) _ _
                (Does-change _ (λ s i.
                  left-IsSound
                    (set_mode (if confirmed then Mode.detached else Mode.failed_closed) s)
                    (i.0, if_elim Rests confirmed (λ _. tt) (λ _. tt), i.2)))
                (λ _.
                  Does-demand confirmed restore (λ s i _. i) (λ s i _. (i, fine restore (cc))))))
