-- ===== src/Handover/Guarded/Turns.antt =====
-- `exact_until` of `ReadOnlyWire` (tools/handover_acceleration/coordinator.py) turn by turn: enough
-- turns are given where the clock moves.
use optolink.Base.{
  ℕ, zero, suc, ◌+◌, ◌-◌, ◌≤◌, ◌<◌, ◌≡◌, inl, inr, false, Option, none, some, List, [], ◌∷◌, ◌++◌,
  arith, ltb, leb, length, length-append,
}
use optolink.Base.Effect.{give, raise, ◌>>=◌, change, Outcome}
use optolink.Base.Effect.Triples.{
  Does-give, Does-raise, Does-bind, Does-if, Does, Does-change, Does-test,
}
use optolink.Handover.{Bytes, WirePhase, protocol, device, stuck}
use optolink.Handover.Wire.{
  receiving, Handshake, Wire, WireOp, or_device, clock, nap, event, get, receive, exact_turns,
}
use optolink.Handover.Guarded.{Steady, Thrown, Watch, Timed, thrown}

module _ {W : Type 0} (watch : Watch W) where
  open watch use {port, Fine, fine, ends}

  module _ (p : WirePhase) (h : List Handshake) where
    abbrev Bounded : ℕ → ℕ → ℕ → ℕ → ℕ → Type 0
    Bounded n deadline left t now = (n + (deadline - t) ≤ left) × (t ≤ now)

    -- in a loop that may need `n` bytes and lasts to the deadline: the turns left are enough
    abbrev pub Enough : ℕ → ℕ → ℕ → Wire W → Type 0
    Enough n deadline left s = Steady p h s × Timed watch (λ now. n + (deadline - now) ≤ left) s

    -- the same after the clock was found at `t`
    abbrev pub Turning : ℕ → ℕ → ℕ → ℕ → Wire W → Type 0
    Turning n deadline left t s = Steady p h s × Timed watch (Bounded n deadline left t) s

    pub clock_turn :
        (n deadline left : ℕ)
        → Does (Enough n deadline left) (clock port) (Turning n deadline left) (Thrown Fine h)
    unfolding clock
    clock_turn n deadline left = record { at = λ s i. (i.0, turn s i.1) }
      where
        turn :
            (s : Wire W)
            → Timed watch (λ now. n + (deadline - now) ≤ left) s
            → Timed watch
                (Bounded n deadline left (port.time s.world))
                (record s { world = port.tick s.world })
        turn s (inl x) = inl x
        turn s (inr (m, t)) = inr (m, (t, m.tick_on s.world))

    pub sleep_turn :
        (n deadline turns t : ℕ)
        → t < deadline
        → Does
            (Turning n deadline (suc turns) t)
            (nap port 1000)
            (λ _. Enough n deadline turns)
            (Thrown Fine h)
    unfolding nap
    sleep_turn n deadline turns t early = Does-change _ (λ s i. (i.0, later s i.1))
      where
        later :
            (s : Wire W)
            → Timed watch (Bounded n deadline (suc turns) t) s
            → Timed watch
                (λ now. n + (deadline - now) ≤ turns)
                (record s { world = port.sleep 1000 s.world })
        later s (inl x) = inl x
        later s (inr (m, (a, b))) = inr (m, omega (arith, m.sleep_on 1000 s.world))

    pub get_turn :
        (n deadline left t k : ℕ)
        → Does
            (Turning n deadline left t)
            (get port k)
            (λ _. Turning n deadline left t)
            (Thrown Fine h)
    unfolding get raise give
    get_turn n deadline left t k = record {
      at = λ s i.
          got (port.read k s.world).0 (record s { world = (port.read k s.world).1 })
            (i.0, later s i.1);
    }
      where
        later :
            (s : Wire W)
            → Timed watch (Bounded n deadline left t) s
            → Timed watch (Bounded n deadline left t) (record s { world = (port.read k s.world).1 })
        later s (inl x) = inl x
        later s (inr (m, (x, y))) = inr (m, (x, omega (arith, m.read_on k s.world)))

        got :
            (o : Option Bytes) (s : Wire W)
            → Turning n deadline left t s
            → Outcome
                (λ _. Turning n deadline left t)
                (Thrown Fine h)
                (or_device o s).0
                (or_device o s).1
        got none s i = thrown watch p h device (cc) s i.0
        got (some b) s i = i

    -- One turn of `exact_until` before the deadline, while bytes are missing.
    module _ (n deadline turns t : ℕ) (bytes : Bytes) (rest : Bytes → WireOp W Bytes)
        (more : length bytes < n) (early : t < deadline)
        (next : (bs : Bytes)
          → Does
              (Enough (n - length bs) deadline turns)
              (rest bs)
              (λ _. Steady p h)
              (Thrown Fine h)) where
      abbrev Now : Wire W → Type 0
      Now = Turning (n - length bytes) deadline (suc turns) t

      byte_turn :
          (b : ℕ) (part : Bytes)
          → Does Now
              (event port receiving (b ∷ part))
              (λ _. Enough (n - length (bytes ++ (b ∷ part))) deadline turns)
              (Thrown Fine h)
      unfolding event clock change ◌>>=◌
      byte_turn b part = record { at = λ s i. (i.0, later s i.1) }
        where
          later :
              (s : Wire W)
              → Timed watch (Bounded (n - length bytes) deadline (suc turns) t) s
              → Timed watch
                  (λ now. (n - length (bytes ++ (b ∷ part))) + (deadline - now) ≤ turns)
                  (record s { world = port.tick s.world })
          later s (inl x) = inl x
          later s (inr (m, (x, y))) =
              inr (m, omega (arith, m.tick_on s.world, length-append bytes (b ∷ part)))

      receive_turn :
          (part : Bytes) → Does Now (receive port rest bytes part) (λ _. Steady p h) (Thrown Fine h)
      unfolding receive
      receive_turn [] =
          Does-bind (λ _. Enough (n - length bytes) deadline turns) _ _
            (sleep_turn _ deadline turns t early) (λ _. next bytes)
      receive_turn (b ∷ part) =
          Does-bind (λ _. Enough (n - length (bytes ++ (b ∷ part))) deadline turns) _ _
            (byte_turn b part) (λ _. next (bytes ++ (b ∷ part)))

      one_turn :
          Does Now
            (get port (n - length bytes) >>= receive port rest bytes)
            (λ _. Steady p h)
            (Thrown Fine h)
      one_turn = Does-bind (λ _. Now) _ _ (get_turn _ deadline (suc turns) t _) receive_turn

    pub exact_turns-Keeps :
        (turns n deadline : ℕ) (bytes : Bytes)
        → Does
            (Enough (n - length bytes) deadline turns)
            (exact_turns port turns n deadline bytes)
            (λ _. Steady p h)
            (Thrown Fine h)
    unfolding exact_turns
    exact_turns-Keeps zero n deadline bytes =
        Does-if (leb n (length bytes)) (give bytes) (raise stuck)
          (λ _. Does-give bytes (λ s i. i.0)) (λ more. Does-raise stuck (λ s i. out more s i))
      where
        out :
            leb n (length bytes) ≡ false
            → (s : Wire W) → Enough (n - length bytes) deadline zero s
            → Thrown Fine h stuck s
        out more s (i, inl x) = (i.1, i.2, x)
        out more s (i, inr (m, t)) = absurd (ground arith)
    exact_turns-Keeps (suc turns) n deadline bytes =
        Does-if (leb n (length bytes)) (give bytes) _ (λ _. Does-give bytes (λ s i. i.0))
          (λ more.
            Does-bind (Turning (n - length bytes) deadline (suc turns)) _ _
              (clock_turn _ deadline (suc turns))
              (λ t.
                Does-test (ltb t deadline) protocol _
                  (λ s i _. thrown watch p h protocol (cc) s i.0)
                  (λ early.
                    one_turn n deadline turns t bytes _ (ground arith) (ground arith)
                      (exact_turns-Keeps turns n deadline))))
