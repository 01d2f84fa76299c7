-- ===== src/Handover/Spec/Calls.antt =====
-- What any calls of the coordinator do is a way of the machine of modes.
use optolink.Base.{
  ℕ, ◌+◌, ◌≤◌, ◌≡◌, refl, ap, ◌∙◌, sym, not, Option, none, some, List, [], ◌∷◌, if◌then◌else◌,
}
use mathlib.Core.Path.{subst}
use optolink.Base.Effect.{give, ◌>>=◌, ◌>>◌, on_raise, Outcome}
use optolink.Base.Effect.Triples.{
  Does-give, Does-raise, Does-view, Does-bind, Does-if, Does-on_raise, Does-except, Does-from,
  Does-weaken, Does, Does-check, Does-finally, Does-test,
}
use optolink.Base.Result.{Result, ok, err}
use optolink.Handover.{GfaName, RamName, Mode, Raised, protocol, assertion}
use optolink.Handover.Wire.{Port}
use optolink.Handover.Owner.{
  Owner, OwnerOp, is_vs1_verified, is_p300_verified, fail_closed, assert_wire,
}
use optolink.Handover.Owner.Switches.{
  restore_vs1, verified_gfa_snapshot, gfa_query, gfa_read, p300_identity, ram_query, p300_ram_read,
  leave_p300, p300_window,
}
use optolink.Handover.Spec.{View, at, Step, lost_vs1, lost_p300, Reach}
use optolink.Handover.Calls.{
  Method, entering, exiting, starting, starting_early, returning, returning_early, restoring,
  identity, snapshot, gfa, ram, Call, plain, window, method, callback, call, run,
}
use optolink.Handover.Spec.{recoveries, entries, recoveries_le}
use optolink.Handover.Spec.Refines.{
  At, Reached, stays, goes, Moves, Refines, frame, in_mode, in_mode_and_wire, At-fail_closed,
  from_vs1, from_p300, after, further,
}
use optolink.Handover.Spec.Switched.{
  to_p300-Refines, early_start-Refines, early_identity-Refines, to_vs1_fast-Refines,
  restore_vs1-Refines,
}
use optolink.Handover.Spec.Sessions.{enter-Refines, exit-Refines}

module _ {W : Type 0} (port : Port W) where
  pub snapshot-Refines : (age : ℕ) → Refines (verified_gfa_snapshot port age)
  unfolding verified_gfa_snapshot
  snapshot-Refines age v = in_mode_and_wire v _ _ (λ h.
      Does-bind (λ _. At v) _ _ (Does-view _ (λ s i. i))
        (λ values.
          Does-test _ protocol _ (λ s i _. stays v s i)
            (λ _.
              Does-bind (λ _. At v) _ _
                (Does-weaken (λ _. At v) (λ _. At v) _ (frame v _) (λ _ s i. i)
                  (λ e s i. stays v s i))
                (λ now.
                  Does-test _ protocol _ (λ s i _. stays v s i) (λ _. Does-give _ (stays v))))))

  -- a read that closes the session where it raises
  reads :
      {A : Type 0} (v : View) (m : OwnerOp W A)
      → Step v (at Mode.failed_closed v.open_ v.tried)
      → Does (At v) m (λ _. At v) (λ _. At v)
      → Moves v (assert_wire >> on_raise fail_closed m)
  reads v m st h =
      Does-check _ assertion _ (λ s i _. stays v s i)
        (Does-from (At v) _ (λ s i. i.0)
          (Does-on_raise fail_closed _ (
            Does-weaken (λ _. At v) (λ _. At v) _ h (λ _ s i. stays v s i)
              (λ e s i. goes v _ st (fail_closed s) (At-fail_closed v s i)))))

  pub gfa_read-Refines : (name : Option GfaName) → Refines (gfa_read port name)
  unfolding gfa_read gfa_query
  gfa_read-Refines none v = in_mode v _ _ (λ h. Does-raise protocol (stays v))
  gfa_read-Refines (some n) v = in_mode v _ _ (λ h. reads v _ (from_vs1 _ _ _ _ h (lost_vs1 _ _)) (
      Does-bind (λ _. At v) _ _ (frame v _)
        (λ value. Does-test _ protocol _ (λ s i _. i) (λ _. Does-give value (λ s i. i)))))

  pub p300_identity-Refines : Refines (p300_identity port)
  unfolding p300_identity
  p300_identity-Refines v =
      in_mode v _ _ (λ h. reads v _ (from_p300 _ _ _ _ h (lost_p300 _ _)) (frame v _))

  pub p300_ram_read-Refines : (name : Option RamName) → Refines (p300_ram_read port name)
  unfolding p300_ram_read ram_query
  p300_ram_read-Refines none v = in_mode v _ _ (λ h. Does-raise protocol (stays v))
  p300_ram_read-Refines (some n) v =
      in_mode v _ _ (λ h. reads v _ (from_p300 _ _ _ _ h (lost_p300 _ _)) (frame v _))

  leave_p300-Refines : Refines (leave_p300 port)
  unfolding leave_p300
  leave_p300-Refines v =
      Does-bind (λ _. At v) _ _ (Does-view _ (λ s i. i))
        (λ m.
          Does-if (is_p300_verified m) _
            (if not (is_vs1_verified m) then restore_vs1 port else give tt)
            (λ _.
              Does-except (λ _. Reached v) _ _ (to_vs1_fast-Refines port v)
                (λ e.
                  Does-bind (λ _. Reached v) _ _ (further _ (restore_vs1-Refines port))
                    (λ _. Does-raise e (λ s i. i))))
            (λ _.
              Does-if (not (is_vs1_verified m)) _ _ (λ _. restore_vs1-Refines port v)
                (λ _. Does-give tt (stays v))))

  window-Refines : {A : Type 0} (fn : OwnerOp W A) → Refines fn → Refines (p300_window port fn)
  unfolding p300_window
  window-Refines fn h v = in_mode v _ _ (λ _.
      Does-finally (λ _. Reached v) (λ _. Reached v) _ _
        (after v _ _ (to_p300-Refines port v) (λ _. h)) (λ _. further _ leave_p300-Refines)
        (λ _. further _ leave_p300-Refines))

  dropped : {A : Type 0} (m : OwnerOp W A) → Refines m → Refines (m >>= λ _. give tt)
  dropped m h v = after v _ _ (h v) (λ _ u. Does-give tt (stays u))

  method-Refines : (m : Method) → Refines (method port m)
  method-Refines entering = enter-Refines port
  method-Refines exiting = exit-Refines port
  method-Refines starting = to_p300-Refines port
  method-Refines starting_early = early_start-Refines port
  method-Refines returning = to_vs1_fast-Refines port
  method-Refines returning_early = early_identity-Refines port
  method-Refines restoring = restore_vs1-Refines port
  method-Refines identity = dropped _ p300_identity-Refines
  method-Refines (snapshot age) = dropped _ (snapshot-Refines age)
  method-Refines (gfa name) = dropped _ (gfa_read-Refines name)
  method-Refines (ram name) = dropped _ (p300_ram_read-Refines name)

  callback-Refines : (ms : List Method) → Refines (callback port ms)
  callback-Refines [] v = Does-give tt (stays v)
  callback-Refines (m ∷ ms) v = after v _ _ (method-Refines m v) (λ _. callback-Refines ms)

  call-Refines : (c : Call) → Refines (call port c)
  call-Refines (plain m) = method-Refines m
  call-Refines (window ms) = window-Refines (callback port ms) (callback-Refines ms)

  run_reaches : (cs : List Call) (s : Owner W) (v : View) → Reached v s → Reached v (run port cs s)
  unfolding run
  run_reaches [] s v i = i
  run_reaches (c ∷ cs) s v i =
      run_reaches cs (call port c s).1 v
        (either (call port c s).0 _ ((further (call port c) (call-Refines c)).at s i))
    where
      either :
          (r : Result Raised (Unit {0})) (t : Owner W)
          → Outcome (λ _. Reached v) (λ _. Reached v) r t
          → Reached v t
      either (ok a) t o = o
      either (err e) t o = o

-- the machine's view of a coordinator
abbrev pub view_of : {W : Type 0} → Owner W → View
view_of s = at s.mode s.has_wire s.recovery_attempted

At-eq : {W : Type 0} (u : View) (s : Owner W) → At u s → u ≡ view_of s
At-eq u s i =
    ap (λ m. at m u.open_ u.tried) (sym i.0)
    ∙ ap (λ o. at s.mode o u.tried) (sym i.1)
    ∙ ap (λ t. at s.mode s.has_wire t) (sym i.2)

-- The coordinator implements the machine of modes: what any calls do to its mode, its wire and the
-- mark of a tried recovery, in whatever outcome, is a way of steps of the machine, on which there is
-- at most one recovery more than there are entries into P300. So a failed recovery is not repeated
-- before a session has been verified again in both protocols.
pub run-Refines :
    {W : Type 0} (port : Port W) (cs : List Call) (s : Owner W)
    → (r : Reach (view_of s) (view_of (run port cs s))) × (recoveries r ≤ entries r + 1)
run-Refines port cs s =
    let (u, r, i) = run_reaches port cs s (view_of s) (stays (view_of s) s (refl, refl, refl)) in
    let q = subst (Reach (view_of s)) (At-eq u (run port cs s) i) r in (q, recoveries_le q)
