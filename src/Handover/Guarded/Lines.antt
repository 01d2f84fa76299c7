-- ===== src/Handover/Guarded/Lines.antt =====
-- The same for the deadlines, the control bytes, the silence and the messages of `ReadOnlyWire`
-- (tools/handover_acceleration/coordinator.py).
use optolink.Base.{
  ℕ, zero, suc, ◌+◌, ◌-◌, ◌≤◌, ◌<◌, ◌≡◌, ◌⊎◌, inl, inr, Bool, true, false, Option, none, some, List,
  [], ◌∷◌, arith, ltb, ltb→lt, &&-eq-true, if◌then◌else◌,
}
use optolink.Base.Effect.{give, raise, ◌>>=◌, ◌>>◌, view, demand, Outcome}
use optolink.Base.Effect.Triples.{
  Does-give, Does-raise, Does-view, Does-bind, Does-if, Does-on_raise, Does-from, Does, Does-change,
  Does-test, Does-known,
}
use optolink.Base.Result.{Result, ok, err}
use optolink.Handover.{
  Bytes, is_one_of, enq, eot, tx_allow, WirePhase, Raised, protocol, device, stuck,
}
use optolink.Handover.Wire.{
  sending, unexpected, Handshake, Wire, WireOp, set_phase, or_device, put, tx, exact_until, exact,
  control_turns, control_until, control, gap, silence, quiet_turns, quiet, reset_before_eot,
  enquiries, sync,
}
use optolink.Handover.Guarded.{
  Allowed, Moves, Steady, Thrown, Watch, Timed, Keeps, thrown, clock-Keeps, nap-Keeps, event-Keeps,
  demand-Keeps,
}
use optolink.Handover.Guarded.Turns.{
  Turning, clock_turn, sleep_turn, get_turn, Enough, exact_turns-Keeps,
}

module _ {W : Type 0} (watch : Watch W) (p : WirePhase) (h : List Handshake) where
  open watch use {port, Fine, fine, ends}

  pub chain :
      {A B : Type 0} (m : WireOp W B) (k : B → WireOp W A)
      → Keeps watch p h m
      → ((b : B) → Keeps watch p h (k b))
      → Keeps watch p h (m >>= k)
  chain m k = Does-bind (λ _. Steady p h) m k

  pub refuse :
      (b : Bool) {A : Type 0} (k : WireOp W A)
      → (b ≡ true → Keeps watch p h k)
      → Keeps watch p h (demand b protocol >> k)
  refuse b k f = Does-test b protocol k (λ s i _. thrown watch p h protocol (cc) s i) f

  pub done : {A : Type 0} (a : A) → Keeps watch p h (give a)
  done a = Does-give a (λ s i. i)

  wrong : {A : Type 0} → Keeps watch p h (raise {A = A} protocol)
  wrong = Does-raise protocol (λ s i. thrown watch p h protocol (cc) s i)

  pub either :
      {A : Type 0} (b : Bool) (m n : WireOp W A)
      → Keeps watch p h m
      → Keeps watch p h n
      → Keeps watch p h (if b then m else n)
  either b m n hm hn = Does-if b m n (λ _. hm) (λ _. hn)

  pub look :
      {A B : Type 0} (f : Wire W → B) (k : B → WireOp W A)
      → ((b : B) → Keeps watch p h (k b))
      → Keeps watch p h (view f >>= k)
  look f k hk = Does-bind (λ _. Steady p h) (view f) k (Does-view f (λ s i. i)) hk

  pub exact_until-Keeps : (n deadline : ℕ) → Keeps watch p h (exact_until port n deadline)
  unfolding exact_until
  exact_until-Keeps n deadline =
      Does-bind (λ turns. Enough watch p h (n - 0) deadline turns) _ _
        (Does-view _ (λ s i. (i, enough s ends)))
        (λ turns. exact_turns-Keeps watch p h turns n deadline [])
    where
      enough :
          (s : Wire W)
          → (Fine stuck ⊎ Moves port)
          → Timed watch (λ now. (n - 0) + (deadline - now) ≤ n + (deadline - port.time s.world)) s
      enough s (inl x) = inl x
      enough s (inr m) = inr (m, omega arith)

  pub exact-Keeps : (n timeout : ℕ) → Keeps watch p h (exact port n timeout)
  unfolding exact
  exact-Keeps n timeout = chain _ _ (clock-Keeps watch p h) (λ t. exact_until-Keeps n (t + timeout))

  control_turns-Keeps :
      (turns : ℕ) (expected : Bytes) (deadline : ℕ)
      → Keeps watch p h (control_turns port turns expected deadline)
  unfolding control_turns
  control_turns-Keeps zero expected deadline = wrong
  control_turns-Keeps (suc turns) expected deadline = chain _ _ (exact_until-Keeps 1 deadline) (λ x.
      either _ _ _ (done tt) (either _ _ _ (control_turns-Keeps turns expected deadline) wrong))

  pub control_until-Keeps :
      (expected : Bytes) (deadline : ℕ) → Keeps watch p h (control_until port expected deadline)
  unfolding control_until
  control_until-Keeps = control_turns-Keeps 32

  pub control-Keeps :
      (expected : Bytes) (timeout : ℕ) → Keeps watch p h (control port expected timeout)
  unfolding control
  control-Keeps expected timeout =
      chain _ _ (clock-Keeps watch p h) (λ t. control_until-Keeps expected (t + timeout))

  pub gap-Keeps : Keeps watch p h (gap port)
  unfolding gap
  gap-Keeps = look _ _ (λ last_io. chain _ _ (clock-Keeps watch p h) (λ t. nap-Keeps watch p h _))

  silence-Keeps :
      (turns end t : ℕ) (rest : WireOp W (Unit {0}))
      → t < end
      → Does (Enough watch p h 0 end turns) rest (λ _. Steady p h) (Thrown Fine h)
      → (bytes : Bytes)
      → Does
          (Turning watch p h 0 end (suc turns) t)
          (silence port rest bytes)
          (λ _. Steady p h)
          (Thrown Fine h)
  unfolding silence
  silence-Keeps turns end t rest early next [] =
      Does-bind (λ _. Enough watch p h 0 end turns) _ _ (sleep_turn watch p h 0 end turns t early)
        (λ _. next)
  silence-Keeps turns end t rest early next (b ∷ bs) =
      Does-from (Steady p h) _ (λ s i. i.0)
        (chain _ _ (event-Keeps watch p h unexpected (b ∷ bs)) (λ _. wrong))

  quiet_turns-Keeps :
      (turns end : ℕ)
      → Does
          (Enough watch p h 0 end turns)
          (quiet_turns port turns end)
          (λ _. Steady p h)
          (Thrown Fine h)
  unfolding quiet_turns
  quiet_turns-Keeps zero end =
      Does-bind (Turning watch p h 0 end 0) _ _ (clock_turn watch p h 0 end 0) (λ t.
        Does-if _ _ _ (λ early. Does-raise stuck (out t early)) (λ _. Does-give tt (λ s i. i.0)))
    where
      out :
          (t : ℕ)
          → ltb t end ≡ true
          → (s : Wire W) → Turning watch p h 0 end 0 t s
          → Thrown Fine h stuck s
      out t early s (i, inl x) = (i.1, i.2, x)
      out t early s (i, inr (m, x)) = absurd (ground arith)
  quiet_turns-Keeps (suc turns) end =
      Does-bind (Turning watch p h 0 end (suc turns)) _ _ (clock_turn watch p h 0 end (suc turns))
        (λ t.
          Does-if _ _ _
            (λ early.
              Does-bind (λ _. Turning watch p h 0 end (suc turns) t) _ _
                (get_turn watch p h 0 end (suc turns) t 1)
                (silence-Keeps turns end t _ (ltb→lt t end early) (quiet_turns-Keeps turns end)))
            (λ _. Does-give tt (λ s i. i.0)))

  pub quiet-Keeps : Keeps watch p h (quiet port)
  unfolding quiet
  quiet-Keeps = chain _ _ (clock-Keeps watch p h) (λ t.
      Does-bind (λ turns. Enough watch p h 0 (t + 10000) turns) _ _
        (Does-view _ (λ s i. (i, enough t s ends)))
        (λ turns.
          Does-bind (λ _. Steady p h) _ _ (quiet_turns-Keeps turns (t + 10000))
            (λ _. chain _ _ (clock-Keeps watch p h) (λ now. Does-change _ (λ s i. i)))))
    where
      enough :
          (t : ℕ) (s : Wire W)
          → (Fine stuck ⊎ Moves port)
          → Timed watch (λ now. 0 + (t + 10000 - now) ≤ t + 10000 - port.time s.world) s
      enough t s (inl x) = inl x
      enough t s (inr m) = inr (m, omega arith)

  -- A message goes out only behind the test of the lists.
  put-Keeps : (m : Bytes) → Allowed (p, m) → Keeps watch p h (put port m)
  unfolding put raise give
  put-Keeps m a = record {
    at = λ s i.
        sent (port.write m s.world).0
          (record s { world = (port.write m s.world).1; sent = (s.phase, m) ∷ s.sent })
          (i.0, i.1, (rw (i.0) a, i.2));
  }
    where
      sent :
          (o : Option ℕ) (s : Wire W)
          → Steady p h s
          → Outcome (λ _. Steady p h) (Thrown Fine h) (or_device o s).0 (or_device o s).1
      sent none s i = thrown watch p h device (cc) s i
      sent (some n) s i = i

  pub tx-Keeps : (m : Bytes) → Keeps watch p h (tx port m)
  unfolding tx
  tx-Keeps m =
      Does-known _ p _ (λ s i. i.0)
        (refuse _ _ (λ ok.
          let (a, b) = &&-eq-true (is_one_of m tx_allow) _ ok in
          chain _ _ (event-Keeps watch p h sending m) (λ _.
            Does-on_raise (set_phase WirePhase.failed_closed) _
              (chain _ _ (put-Keeps m (a, b)) (λ n. demand-Keeps watch p h _)))))

  pub reset-Keeps : Keeps watch p h (reset_before_eot port)
  unfolding reset_before_eot demand
  reset-Keeps = record {
    at = λ s i. reset (port.reset s.world).0 (record s { world = (port.reset s.world).1 }) i;
  }
    where
      reset :
          (b : Bool) (s : Wire W)
          → Steady p h s
          → let o : Result Raised (Unit {0}) × Wire W = if b then (ok tt, s) else (err device, s) in
            Outcome (λ _. Steady p h) (Thrown Fine h) o.0 o.1
      reset true s i = i
      reset false s i = thrown watch p h device (cc) s i

  enquiries-Keeps : (n : ℕ) → Keeps watch p h (enquiries port n)
  unfolding enquiries
  enquiries-Keeps zero = done tt
  enquiries-Keeps (suc n) = chain _ _ (control-Keeps enq 6000000) (λ _. enquiries-Keeps n)

  pub sync-Keeps : (count : ℕ) → Keeps watch p h (sync port count)
  unfolding sync
  sync-Keeps count = refuse _ _ (λ _. look _ _ (λ q.
      refuse _ _
        (λ _. chain _ _ reset-Keeps (λ _. chain _ _ (tx-Keeps eot) (λ _. enquiries-Keeps count)))))
