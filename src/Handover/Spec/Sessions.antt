-- ===== src/Handover/Spec/Sessions.antt =====
-- The same for opening and closing, for the reads, and for any calls of `HandoverCoordinator`
-- (tools/handover_acceleration/coordinator.py).
use optolink.Base.{◌≡◌, refl, ◌∙◌, sym, Bool, true, false, arith, if_elim, if◌then◌else◌}
use mathlib.Core.Path.{subst}
use optolink.Base.Effect.{raise, ◌>>◌, change, demand}
use optolink.Base.Effect.Triples.{
  Does-give, Does-raise, Does-view, Does-bind, Does-if, Does-except, Does-from, Does-weaken,
  Does-both, Does, Does-change, Does-check, Does-finally, Does-fact, Does-demand,
}
use optolink.Handover.{Mode, Raised, busy, restore, device}
use optolink.Handover.Wire.{Port}
use optolink.Handover.Owner.{
  Owner, is_detached, is_vs1_verified, set_mode, outside, acquire, let_go, close_port,
  close_resources, open_session, enter,
}
use optolink.Handover.Owner.Switches.{restore_vs1, confirm_vs1, exit}
use optolink.Handover.Sound.{outside-Keeps}
use optolink.Handover.Guarded.{any_raise}
use optolink.Handover.Sound.Reads.{vs1_mode}
use optolink.Handover.Spec.{View, at, Step, opened, left, given_up, forsaken}
use optolink.Handover.Window.{Verified, restore_vs1-Verified}
use optolink.Handover.Spec.Refines.{At, Reached, stays, goes, Moves, Refines, in_mode, further_with}
use optolink.Handover.Spec.Switched.{recover-Moves, attach-Moves, restore_vs1-Refines}

detached_mode : (m : Mode) → is_detached m ≡ true → m ≡ Mode.detached
detached_mode m h = ground arith

last_step :
    (u : View) (b : Bool)
    → (b ≡ true → u.mode ≡ Mode.vs1_verified)
    → Step u (at (if b then Mode.detached else Mode.failed_closed) false u.tried)
last_step u true f =
    subst (λ m. Step (at m u.open_ u.tried) (at Mode.detached false u.tried)) (sym (f refl))
      (left u.open_ u.tried)
last_step u false f = given_up u.mode u.open_ u.tried

module _ {W : Type 0} (port : Port W) where
  -- a call of the outside
  call_out :
      (P : Owner W → Type 0) (f : W → Bool × W) (e : Raised)
      → ((s : Owner W) (w : W)
          → P s
          → let t : Owner W = record s { wire = record s.wire { world = w } } in P t)
      → Does P (outside f e) (λ _. P) (λ _. P)
  call_out P f e k = outside-Keeps (any_raise port) P (λ _. P) f e k (λ s i. i)

  -- the mode and the tried recovery, whether there is a wire or not
  abbrev pub Has : Mode → Bool → Owner W → Type 0
  Has m t s = (s.mode ≡ m) × (s.recovery_attempted ≡ t)

  At-let_go : (m : Mode) (t : Bool) (s : Owner W) → Has m t s → At (at m false t) (let_go port s)
  At-let_go m t s i =
      if_elim (λ (x : Owner W). At (at m false t) x) s.held (λ _. (i.0, refl, i.1))
        (λ _. (i.0, refl, i.1))

  pub closes :
      (m : Mode) (t : Bool)
      → Does (Has m t) (close_resources port) (λ _. At (at m false t)) (λ _. At (at m false t))
  unfolding close_resources close_port
  closes m t =
      Does-finally (λ _. Has m t) (λ _. Has m t) _ _
        (Does-bind (λ _. Has m t) _ _ (Does-view _ (λ s i. i))
          (λ b.
            Does-if b _ _ (λ _. call_out (Has m t) _ _ (λ s w i. i))
              (λ _. Does-give tt (λ s i. i))))
        (λ _. Does-change _ (At-let_go m t)) (λ e. Does-change _ (At-let_go m t))

  -- what is left of the start where `__enter__` raises
  abbrev Tried : Bool → Owner W → Type 0
  Tried t s = s.recovery_attempted ≡ t

  open_session-Moves :
      (v : View)
      → is_detached v.mode ≡ true
      → Does (At v) (open_session port) (λ _. Reached v) (λ _. Tried v.tried)
  unfolding open_session
  open_session-Moves v h =
      Does-bind (λ _. At v) _ _
        (Does-weaken (λ _. At v) (λ _. At v) _ (call_out (At v) port.open_port device (λ s w i. i))
          (λ _ s i. i) (λ e s i. i.2))
        (λ _.
          Does-bind (λ _. At new) _ _ (Does-change _ (λ s i. (refl, refl, i.2)))
            (λ _.
              Does-bind (λ _. At new) _ _ (Does-view _ (λ s i. i))
                (λ b.
                  Does-if b _ _
                    (λ _.
                      attach-Moves port Mode.unknown v.tried v (Tried v.tried) verified
                        (λ s i. i.2))
                    (λ _.
                      recover-Moves port Mode.unknown true v.tried 2 false v (Tried v.tried)
                        verified (λ s i. i.2) (λ e. absurd (cc))))))
    where
      new : View
      new = at Mode.unknown true v.tried

      verified : Step v (at Mode.vs1_verified true v.tried)
      verified =
          subst (λ m. Step (at m v.open_ v.tried) (at Mode.vs1_verified true v.tried))
            (sym (detached_mode v.mode h)) (opened v.open_ v.tried)

  abandons :
      (v : View) (e : Raised)
      → Does
          (Tried v.tried)
          (change (set_mode Mode.failed_closed) >> (close_resources port >> raise {A = Unit {0}} e))
          (λ _. Reached v)
          (λ _. Reached v)
  abandons v e =
      Does-bind (λ _. Has Mode.failed_closed v.tried) _ _ (Does-change _ (λ s i. (refl, i)))
        (λ _.
          Does-bind (λ _. Reached v) _ _
            (Does-weaken (λ _. At (at Mode.failed_closed false v.tried))
              (λ _. At (at Mode.failed_closed false v.tried)) _ (closes Mode.failed_closed v.tried)
              (λ _ s i. goes v _ (given_up _ _ _) s i) (λ e s i. goes v _ (given_up _ _ _) s i))
            (λ _. Does-raise e (λ s i. i)))

  acquires : (v : View) → Does (At v) (acquire port) (λ _. At v) (λ _. Reached v)
  unfolding acquire
  acquires v =
      Does-check _ busy _ (λ s i _. stays v s i)
        (Does-from (At v) _ (λ s i. i.0)
          (Does-bind (λ _. At v) _ _
            (Does-weaken (λ _. At v) (λ _. At v) _ (call_out (At v) port.lock busy (λ s w i. i))
              (λ _ s i. i) (λ e s i. stays v s i))
            (λ _. Does-change _ (λ s i. i))))

  pub enter-Refines : Refines (enter port)
  unfolding enter
  enter-Refines v = in_mode v _ _ (λ h.
      Does-bind (λ _. At v) _ _ (acquires v)
        (λ _. Does-except (λ _. Tried v.tried) _ _ (open_session-Moves v h) (abandons v)))

  pub confirms :
      (v : View)
      → Does
          (At v)
          (confirm_vs1 port)
          (λ b s. Reached v s × (b ≡ true → Verified s))
          (λ _. Reached v)
  unfolding confirm_vs1
  confirms v = Does-bind Looked _ _ (Does-view _ (λ s i. (i, refl))) (λ b.
      Does-bind (λ _. Looked b) _ _ (Does-view _ (λ s i. i))
        (λ t.
          Does-if b _ _
            (λ h. Does-give true (λ s i. (stays v s i.0, λ _. vs1_mode s.mode (sym i.1 ∙ h))))
            (λ _.
              Does-if t _ _ (λ _. Does-give false (λ s i. (stays v s i.0, λ e. absurd (cc))))
                (λ _.
                  Does-except (λ _. Reached v) _ _
                    (Does-bind (λ _ s. Reached v s × Verified s) _ _ restored
                      (λ _. Does-give true (λ s i. (i.0, λ _. i.1))))
                    (λ e. Does-give false (λ s i. (i, λ e. absurd (cc))))))))
    where
      Looked : Bool → Owner W → Type 0
      Looked b s = At v s × (b ≡ is_vs1_verified s.mode)

      restored :
          {b : Bool}
          → Does (Looked b) (restore_vs1 port) (λ _ s. Reached v s × Verified s) (λ _. Reached v)
      restored =
          Does-from (λ s. At v s × Unit {0}) _ (λ s i. (i.0, tt))
            (Does-weaken (λ _ s. Reached v s × Verified s) (λ _ s. Reached v s × Unit {0}) _
              (Does-both _ (restore_vs1-Refines port v) (restore_vs1-Verified port)) (λ _ s i. i)
              (λ e s i. i.0))

  exits :
      (u : View) (b : Bool)
      → (b ≡ true → u.mode ≡ Mode.vs1_verified)
      → Moves u (
          close_resources port
          >> (change (set_mode (if b then Mode.detached else Mode.failed_closed))
              >> demand b restore))
  exits u b f =
      Does-bind (λ _. At (at u.mode false u.tried)) _ _
        (Does-weaken (λ _. At (at u.mode false u.tried)) (λ _. At (at u.mode false u.tried)) _
          (Does-from (Has u.mode u.tried) _ (λ s i. (i.0, i.2)) (closes u.mode u.tried))
          (λ _ s i. i) (λ e s i. goes u _ (forsaken _ _ _) s i))
        (λ _.
          Does-bind (λ _. At (at (if b then Mode.detached else Mode.failed_closed) false u.tried)) _
            _ (Does-change _ (λ s i. (refl, i.1, i.2)))
            (λ _.
              Does-demand b restore (λ s i _. goes u _ (last_step u b f) s i)
                (λ s i _. goes u _ (last_step u b f) s i)))

  pub exit-Refines : Refines (exit port)
  unfolding exit
  exit-Refines v =
      Does-bind (λ b s. Reached v s × (b ≡ true → Verified s)) _ _ (confirms v)
        (λ b. further_with _ _ (λ u.
          Does-from (λ s. At u s × (b ≡ true → u.mode ≡ Mode.vs1_verified)) _
            (λ s i. (i.0, λ e. sym i.0.0 ∙ i.1 e)) (Does-fact _ (λ f. exits u b f))))
