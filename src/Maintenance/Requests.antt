-- ===== src/Maintenance/Requests.antt =====
-- `request`: which response it takes for the answer, and when it finds one.
use optolink.Base.{
  ℕ, zero, suc, ◌+◌, ◌-◌, ◌≤◌, ◌<◌, ◌≡◌, refl, sym, ◌∙◌, inl, inr, true, not, Option, none, some,
  List, [], ◌∷◌, ◌++◌, arith, Any, if_elim, ◌≢◌, length, length-append,
}
use mathlib.Core.List.{append_assoc, append-nil}
use optolink.Base.Result.{Result, ok}
use optolink.Text.{Text, ℤ}
use optolink.Maintenance.Commands.{Failure, command_addr, is_answer}
use optolink.Maintenance.Device.{Broker, Session, pick, receive, await, post, request, deliver}

pick-Answer :
    (a : Option ℤ) (ms : List Text) (r : Text) → (pick a ms).0 ≡ some r → is_answer a r ≡ true
unfolding pick
pick-Answer a [] r h = absurd cc
pick-Answer a (m ∷ ms) r h =
    if_elim {A = Option Text × List Text} (λ p. p.0 ≡ some r → is_answer a r ≡ true) (is_answer a m)
      (λ e x. cc) (λ _. pick-Answer a ms r) h

-- what is left when no response is the answer
pick-none : (a : Option ℤ) (ms : List Text) → (pick a ms).0 ≡ none → (pick a ms).1 ≡ []
unfolding pick
pick-none a [] h = refl
pick-none a (m ∷ ms) h =
    if_elim {A = Option Text × List Text} (λ p. p.0 ≡ none → p.1 ≡ []) (is_answer a m)
      (λ e x. absurd cc) (λ _. pick-none a ms) h

pick-some :
    (a : Option ℤ) (ms : List Text)
    → Any (λ m. is_answer a m ≡ true) ms
    → (r : Text) × ((pick a ms).0 ≡ some r)
unfolding pick
pick-some a [] h = elim h [ ]
pick-some a (m ∷ ms) h =
    if_elim {A = Option Text × List Text} (λ p. (r : Text) × (p.0 ≡ some r)) (is_answer a m)
      (λ e. (m, refl)) (λ e. elim h [ inl x ↦ absurd cc | inr x ↦ pick-some a ms x ])

deliver-short : (rs ms : List Text) → length rs + length ms ≤ 100 → deliver rs ms ≡ rs ++ ms
deliver-short rs [] h = sym (append-nil rs)
deliver-short rs (m ∷ ms) h =
    let e : length (rs ++ m ∷ []) ≡ length rs + 1 = length-append rs (m ∷ []) in
    let z : length (rs ++ m ∷ []) - 100 ≡ 0 = ground arith in
    rw z (deliver-short (rs ++ m ∷ []) ms (ground arith) ∙ append_assoc rs (m ∷ []) ms)

module _ {W : Type 0} (broker : Broker W) where
  await-Answer :
      (n : ℕ) (c : Text) (s : Session W) (r : Text)
      → (await broker n c s).0 ≡ ok r
      → is_answer (command_addr c) r ≡ true
  unfolding await
  await-Answer zero c s r h = absurd cc
  await-Answer (suc n) c s r h =
      let found = pick (command_addr c) (receive broker s).responses in
      let left = record (receive broker s) { responses = found.1 } in
      cases found.0 left (await broker n c left)
        (pick-Answer (command_addr c) (receive broker s).responses r) (await-Answer n c left r) h
    where
      cases :
          (o : Option Text) (t : Session W) (q : Result Failure Text × Session W)
          → (o ≡ some r → is_answer (command_addr c) r ≡ true)
          → (q.0 ≡ ok r → is_answer (command_addr c) r ≡ true)
          → (elim o as (λ _. Result Failure Text × Session W) [ none ↦ q | some a ↦ (ok a, t) ]).0
            ≡ ok r
          → is_answer (command_addr c) r ≡ true
      cases none t q hs hq h = hq h
      cases (some a) t q hs hq h = hs cc

  -- the world after some looks
  abbrev pub after_looks : ℕ → W → W
  after_looks zero w = w
  after_looks (suc k) w = after_looks k (broker.look w).1

  first_look :
      (c : Text) (s : Session W)
      → s.responses ≡ []
      → length (broker.look s.world).0 ≤ 100
      → Any (λ m. is_answer (command_addr c) m ≡ true) (broker.look s.world).0
      → (pick (command_addr c) (receive broker s).responses).0 ≢ none
  first_look c s e short h missed =
      let ms = (broker.look s.world).0 in
      let all : deliver s.responses ms ≡ ms = rw e (deliver-short [] ms (omega arith)) in
      let (r, got) = pick-some (command_addr c) (deliver s.responses ms) (rw all h) in absurd cc

  await_finds :
      (n k : ℕ) (c : Text) (s : Session W)
      → k < n
      → s.responses ≡ []
      → length (broker.look (after_looks k s.world)).0 ≤ 100
      → Any (λ m. is_answer (command_addr c) m ≡ true) (broker.look (after_looks k s.world)).0
      → (r : Text) × ((await broker n c s).0 ≡ ok r)
  unfolding await
  await_finds zero k c s lt e short h = absurd (ground arith)
  await_finds (suc n) k c s lt e short h =
      let found = pick (command_addr c) (receive broker s).responses in
      let left = record (receive broker s) { responses = found.1 } in
      cases found.0 left (await broker n c left) (
        elim k
            as (λ k.
              k < suc n
              → length (broker.look (after_looks k s.world)).0 ≤ 100
              → Any (λ m. is_answer (command_addr c) m ≡ true)
                  (broker.look (after_looks k s.world)).0
              → found.0 ≡ none
              → (r : Text) × ((await broker n c left).0 ≡ ok r)) [
                | zero ↦ λ lt short h missed. absurd (first_look c s e short h missed)
                | suc j ↦ λ lt short h missed.
                    await_finds n j c left (ground arith)
                      (pick-none (command_addr c) (receive broker s).responses missed) short h
              ]
          lt short h)
    where
      cases :
          (o : Option Text) (t : Session W) (q : Result Failure Text × Session W)
          → (o ≡ none → (r : Text) × (q.0 ≡ ok r))
          → (r : Text) × ((elim o as (λ _. Result Failure Text × Session W) [
            | none ↦ q
            | some a ↦ (ok a, t)
          ]).0
              ≡ ok r)
      cases none t q h = h refl
      cases (some a) t q h = (a, refl)

  -- `request` takes nothing for the answer but a response whose address is the command's, where the
  -- command has one; and what it does depends on nothing that had arrived before the call.
  pub request-Answer :
      (c : Text) (s : Session W)
      → ((r : Text) → (request broker c s).0 ≡ ok r → is_answer (command_addr c) r ≡ true)
        × ((old : List Text) → request broker c (record s { responses = old }) ≡ request broker c s)
  unfolding request
  request-Answer c s = (
    λ r.
        if_elim {A = Result Failure Text × Session W}
          (λ q. q.0 ≡ ok r → is_answer (command_addr c) r ≡ true) (not (broker.publish c s.world).0)
          (λ _ h. absurd cc)
          (λ _. await-Answer (broker.looks (post broker c s).world) c (post broker c s) r),
    λ old. refl,
  )

  -- When the command is published and an answer to it arrives with a look before the deadline, among
  -- at most a hundred responses, `request` returns an answer: it raises neither a timeout nor another
  -- error, whatever else arrives before.
  pub request_finds :
      (c : Text) (s : Session W) (k : ℕ)
      → (broker.publish c s.world).0 ≡ true
      → k < broker.looks (broker.publish c s.world).1
      → length (broker.look (after_looks k (broker.publish c s.world).1)).0 ≤ 100
      → Any
          (λ m. is_answer (command_addr c) m ≡ true)
          (broker.look (after_looks k (broker.publish c s.world).1)).0
      → (r : Text) × ((request broker c s).0 ≡ ok r)
  unfolding request
  request_finds c s k sent lt short h =
      if_elim {A = Result Failure Text × Session W} (λ q. (r : Text) × (q.0 ≡ ok r))
        (not (broker.publish c s.world).0) (λ e. absurd cc)
        (λ _.
          await_finds (broker.looks (post broker c s).world) k c (post broker c s) lt refl short h)
