-- ===== src/Handover/Sound/Sessions.antt =====
-- HandoverCoordinator (tools/handover_acceleration/coordinator.py) enters and closes with a sound mode.
use optolink.Base.{◌≡◌, refl, true, false, if_elim}
use optolink.Base.Effect.{raise, ◌>>◌}
use optolink.Base.Effect.Triples.{
  Does-give, Does-raise, Does-view, Does-bind, Does-if, Does-except, Does-from, Does-weaken, Does,
  Does-change, Does-check, Does-finally, Does-fact,
}
use optolink.Handover.{Raised, protocol, busy, device}
use optolink.Handover.Owner.{
  Owner, acquire, let_go, close_port, close_resources, open_session, enter,
}
use optolink.Handover.Guarded.{Calm, Watch}
use optolink.Handover.Sound.{
  Rests, IsSound, IsReady, IsLeft, left-IsSound, Raises, Keeps, fail, refused, recover_vs1-Keeps,
  attach_vs1-Keeps, outside-Keeps,
}

module _ {W : Type 0} (watch : Watch W) where
  open watch use {port, Fine, fine}

  IsLeft-let_go : (s : Owner W) → Calm s.wire → Rests s.mode → IsLeft (let_go port s)
  IsLeft-let_go s c r =
      if_elim (λ (t : Owner W). IsLeft t) s.held (λ _. (c, r, refl)) (λ _. (c, r, refl))

  pub close_resources-Keeps :
      Does
        (λ s. Calm s.wire × Rests s.mode)
        (close_resources port)
        (λ _. IsLeft)
        (λ e s. IsLeft s × Fine e)
  unfolding close_resources close_port
  close_resources-Keeps =
      Does-finally (λ _ s. Calm s.wire × Rests s.mode)
        (λ e s. (Calm s.wire × Rests s.mode) × Fine e) _ _
        (Does-bind (λ _ s. Calm s.wire × Rests s.mode) _ _ (Does-view _ (λ s i. i))
          (λ b.
            Does-if b _ _
              (λ _.
                outside-Keeps watch _ _ port.close device (λ s w i. i)
                  (λ s i. (i, fine device (cc))))
              (λ _. Does-give tt (λ s i. i))))
        (λ _. Does-change _ (λ s i. IsLeft-let_go s i.0 i.1))
        (λ e. Does-change _ (λ s i. (IsLeft-let_go s i.0.0 i.0.1, i.1)))

  open_session-Keeps :
      Does (λ s. Calm s.wire) (open_session port) (λ _. IsSound) (λ e s. Calm s.wire × Fine e)
  unfolding open_session
  open_session-Keeps =
      Does-bind (λ _ s. Calm s.wire) _ _
        (outside-Keeps watch (λ s. Calm s.wire) _ port.open_port device (λ s w i. i)
          (λ s i. (i, fine device (cc))))
        (λ _.
          Does-bind (λ _. Ready) _ _ (Does-change _ (λ s i. (i, refl)))
            (λ _.
              Does-bind (λ _. Ready) _ _ (Does-view _ (λ s i. i))
                (λ b.
                  Does-from IsReady _ (λ s i. (i.0, λ h. absurd (cc)))
                    (Does-weaken (λ _. IsSound) (Raises watch) _
                      (Does-if b _ _ (λ _. attach_vs1-Keeps watch)
                        (λ _. recover_vs1-Keeps watch 2 false))
                      (λ _ s i. i) (λ e s i. (i.0.0, i.1))))))
    where
      Ready : Owner W → Type 0
      Ready s = Calm s.wire × (s.has_wire ≡ true)

  -- an exception behind `_close_resources`
  close-Raises :
      (e : Raised)
      → Does
          (λ s. (Calm s.wire × Rests s.mode) × Fine e)
          (close_resources port >> raise {A = Unit {0}} e)
          (λ _. IsSound)
          (Raises watch)
  close-Raises e = Does-fact _ (λ f.
      Does-bind (λ _. IsLeft) _ _
        (Does-weaken (λ _. IsLeft) (λ e s. IsLeft s × Fine e) _ close_resources-Keeps (λ _ s i. i)
          (λ e s i. (left-IsSound s i.0, i.1)))
        (λ _. Does-raise e (λ s i. (left-IsSound s i, f))))

  acquire-Keeps : Keeps watch (acquire port)
  unfolding acquire
  acquire-Keeps = Does-check _ busy _ (refused watch _ busy (cc)) (
      Does-from IsSound _ (λ s i. i.0)
        (Does-bind (λ _. IsSound) _ _
          (outside-Keeps watch IsSound (Raises watch) port.lock busy (λ s w i. i)
            (fail watch busy (cc) (λ s i. i)))
          (λ _. Does-change _ (λ s i. i))))

  pub enter-Keeps : Keeps watch (enter port)
  unfolding enter
  enter-Keeps = Does-check _ protocol _ (refused watch _ protocol (cc)) (
      Does-bind (λ _. IsSound) _ _ (Does-from IsSound _ (λ s i. i.0) acquire-Keeps)
        (λ _.
          Does-except (λ e s. Calm s.wire × Fine e) _ _
            (Does-from _ _ (λ s i. i.0) open_session-Keeps)
            (λ e.
              Does-bind (λ _ s. (Calm s.wire × Rests s.mode) × Fine e) _ _
                (Does-change _ (λ s i. ((i.0, tt), i.1))) (λ _. close-Raises e))))
