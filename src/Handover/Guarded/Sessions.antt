-- ===== src/Handover/Guarded/Sessions.antt =====
-- What the reads of `ReadOnlyWire` (tools/handover_acceleration/coordinator.py)
-- keep, and what a verified or a closed wire is.
use optolink.Base.{ℕ, zero, suc, ◌+◌, ◌≡◌, refl, sym, ap, false, List, [], ◌∷◌, not-eq-true}
use optolink.Base.Effect.{give, ◌>>=◌, ◌>>◌, Outcome}
use optolink.Base.Effect.Triples.{Does-give, Does-bind, Does, Does-test}
use mathlib.Core.Path.{subst}
use optolink.Base.Result.{Result, ok, err}
use optolink.Text.{same_text-eq}
use optolink.Handover.{
  Bytes, same_bytes, device_id, software, ack, GfaName, p80, p06, gfa, p300_id, p300_software,
  RamRead, WirePhase, Raised, protocol,
}
use optolink.Handover.Wire.{Handshake, Wire, WireOp, tx, quiet}
use optolink.Handover.Vs1.{vs1_read, expect, read_samples}
use optolink.Handover.P300.{after_acks, read_frame, p300_read, read_block, read_identities}
use optolink.Handover.Guarded.{
  Calm, Steady, Thrown, Watch, Keeps, thrown, clock-Keeps, demand-Keeps,
}
use optolink.Handover.Guarded.Lines.{
  chain, refuse, done, either, look, exact_until-Keeps, exact-Keeps, control_until-Keeps, gap-Keeps,
  quiet-Keeps, tx-Keeps,
}

abbrev pub sample : GfaName → Bytes → ℕ → Handshake
sample n v t = record { name = n; value = v; at = t }

-- the samples of a handshake: `P80` is 20, and `P06` is not FF
abbrev pub Proven : List Handshake → Type 0
Proven hs =
    (t80 : ℕ) × (b06 : Bytes) × (t06 : ℕ) × (hs
      ≡ sample p80 (0x20 ∷ []) t80 ∷ sample p06 b06 t06 ∷ [])
    × (same_bytes b06 (0xff ∷ []) ≡ false)

-- the wire of a verified VS1 session, of a verified P300 session, and a closed one
abbrev pub InVs1 : {W : Type 0} → Wire W → Type 0
InVs1 s = (s.phase ≡ WirePhase.vs1_verified) × Proven s.handshake_gfa × Calm s

abbrev pub InP300 : {W : Type 0} → Wire W → Type 0
InP300 s = Steady WirePhase.p300_verified [] s

abbrev pub IsClosed : {W : Type 0} → Wire W → Type 0
IsClosed s = Steady WirePhase.failed_closed [] s

abbrev pub Refused : {W : Type 0} → (Raised → Type 0) → Raised → Wire W → Type 0
Refused Fine e s = IsClosed s × Fine e

module _ {W : Type 0} (watch : Watch W) where
  open watch use {port, Fine, fine}

  module _ (p : WirePhase) (h : List Handshake) where
    pub vs1_read-Keeps : (request : Bytes) (n : ℕ) → Keeps watch p h (vs1_read port request n)
    unfolding vs1_read
    vs1_read-Keeps request n = look watch p h _ _ (λ q. refuse watch p h _ _ (λ _.
        refuse watch p h _ _ (λ _. chain watch p h _ _ (gap-Keeps watch p h) (λ _.
          chain watch p h _ _ (tx-Keeps watch p h request) (λ _.
            chain watch p h _ _ (exact-Keeps watch p h n 2000000)
              (λ r. chain watch p h _ _ (quiet-Keeps watch p h) (λ _. done watch p h r)))))))

    pub expect-Keeps : (request value : Bytes) → Keeps watch p h (expect port request value)
    unfolding expect
    expect-Keeps request value =
        chain watch p h _ _ (vs1_read-Keeps request 2) (λ x. demand-Keeps watch p h _)

    pub read_samples-Proven :
        Does (Steady p h) (read_samples port) (λ hs s. Steady p h s × Proven hs) (Thrown Fine h)
    unfolding read_samples
    read_samples-Proven = begin (vs1_read-Keeps (gfa p80) 1) (λ b80.
        begin (clock-Keeps watch p h) (λ t80.
          Does-test _ protocol _ (λ s i _. thrown watch p h protocol (cc) s i)
            (λ e80. begin (vs1_read-Keeps (gfa p06) 1) (λ b06. begin (clock-Keeps watch p h) (λ t06.
              Does-test _ protocol _ (λ s i _. thrown watch p h protocol (cc) s i)
                (λ e06. Does-give _ (λ s i. (
                  i,
                  (
                    t80,
                    b06,
                    t06,
                    ap (λ b. sample p80 b t80 ∷ sample p06 b06 t06 ∷ [])
                        (same_text-eq b80 (0x20 ∷ []) e80),
                    not-eq-true _ e06,
                  ),
                ))))))))
      where
        begin :
            {B : Type 0} {m : WireOp W B} {k : B → WireOp W (List Handshake)}
            → Keeps watch p h m
            → ((b : B) → Does (Steady p h) (k b) (λ hs s. Steady p h s × Proven hs) (Thrown Fine h))
            → Does (Steady p h) (m >>= k) (λ hs s. Steady p h s × Proven hs) (Thrown Fine h)
        begin = Does-bind (λ _. Steady p h) _ _

    after_acks-Keeps :
        (turns : ℕ) (first : Bytes) (deadline : ℕ)
        → Keeps watch p h (after_acks port turns first deadline)
    unfolding after_acks
    after_acks-Keeps zero first deadline = done watch p h first
    after_acks-Keeps (suc turns) first deadline =
        chain watch p h _ _ (exact_until-Keeps watch p h 1 deadline)
          (λ x. either watch p h _ _ _ (after_acks-Keeps turns x deadline) (done watch p h x))

    read_frame-Keeps : (request : Bytes) (size : ℕ) → Keeps watch p h (read_frame port request size)
    unfolding read_frame
    read_frame-Keeps request size = chain watch p h _ _ (gap-Keeps watch p h) (λ _.
        chain watch p h _ _ (tx-Keeps watch p h request) (λ _.
          chain watch p h _ _ (clock-Keeps watch p h) (λ t.
            chain watch p h _ _ (control_until-Keeps watch p h ack _) (λ _.
              chain watch p h _ _ (after_acks-Keeps 8 [] _) (λ first. refuse watch p h _ _ (λ _.
                chain watch p h _ _ (exact_until-Keeps watch p h 1 _)
                  (λ n. refuse watch p h _ _ (λ _. exact_until-Keeps watch p h (size + 1) _))))))))

    -- the acknowledgement and the silence after a frame
    answer-Keeps : (bytes : Bytes) → Keeps watch p h (tx port ack >> (quiet port >> give bytes))
    answer-Keeps bytes =
        chain watch p h _ _ (tx-Keeps watch p h ack)
          (λ _. chain watch p h _ _ (quiet-Keeps watch p h) (λ _. done watch p h bytes))

    pub p300_read-Keeps :
        (request expected : Bytes) → Keeps watch p h (p300_read port request expected)
    unfolding p300_read
    p300_read-Keeps request expected = look watch p h _ _ (λ q. refuse watch p h _ _ (λ _.
        refuse watch p h _ _ (λ _. chain watch p h _ _ (read_frame-Keeps request 7) (λ body.
          refuse watch p h _ _
            (λ _. refuse watch p h _ _ (λ _. refuse watch p h _ _ (λ _. answer-Keeps _)))))))

    pub read_block-Keeps : (r : RamRead) → Keeps watch p h (read_block port r)
    unfolding read_block
    read_block-Keeps r =
        chain watch p h _ _ (read_frame-Keeps r.request (5 + r.size))
          (λ body. refuse watch p h _ _ (λ _. refuse watch p h _ _ (λ _. answer-Keeps _)))

    pub read_identities-Keeps : Keeps watch p h (read_identities port)
    unfolding read_identities
    read_identities-Keeps =
        chain watch p h _ _ (p300_read-Keeps p300_id device_id) (λ _.
          chain watch p h _ _ (p300_read-Keeps p300_software software) (λ _. done watch p h tt))

  pub vs1_read-InVs1 :
      (request : Bytes) (n : ℕ)
      → Does InVs1 (vs1_read port request n) (λ _. InVs1) (λ e s. Calm s × Fine e)
  vs1_read-InVs1 request n = record {
    at = λ s i.
        outcome s i.1 (vs1_read port request n s).0 (vs1_read port request n s).1
          ((vs1_read-Keeps WirePhase.vs1_verified s.handshake_gfa request n).at s (i.0, refl, i.2));
  }
    where
      outcome :
          (s : Wire W)
          → Proven s.handshake_gfa
          → (r : Result Raised Bytes) (t : Wire W)
          → Outcome
              (λ _. Steady WirePhase.vs1_verified s.handshake_gfa)
              (Thrown Fine s.handshake_gfa)
              r
              t
          → Outcome (λ _. InVs1) (λ e u. Calm u × Fine e) r t
      outcome s pr (ok b) t o = (o.0, subst Proven (sym o.1) pr, o.2)
      outcome s pr (err e) t o = (o.1, o.2)
