-- ===== src/Batcher/Reserve.antt =====
-- `reserve` takes the whole batch on offer or nothing.
use optolink.Base.{
  ℕ, ◌+◌, ◌≤◌, ◌<◌, ◌≡◌, ◌≢◌, Bool, true, false, not, ◌&&◌, Option, none, some, List, [], ◌∷◌, map,
  arith, refl, inl, inr, Bool-cases, Option-cases, All, Any, keep, every,
}
use optolink.Base.Result.{ok}
use optolink.Reads.{queued, running, is_queued}
use optolink.Batcher.{
  Batcher, DemandTicket, DemandSelection, expire, is_over, has_sequence, with_state,
}
use optolink.Batcher.Served.{trusted, reserve, reserve_pending, is_waiting, selects}

-- The pending ticket with the same number is queued and has not expired.
abbrev pub Waits : ℕ → List DemandTicket → DemandTicket → Type 0
Waits now pending t =
    Any (λ p. (p.sequence ≡ t.sequence) × (p.state ≡ queued) × (now < p.expires_at)) pending

abbrev fresh_of : ℕ → List DemandTicket → List DemandTicket
fresh_of now = keep (λ x. not (is_over now x))

is_waiting-Waits :
    (now : ℕ) (ts : List DemandTicket) (t : DemandTicket)
    → is_waiting (fresh_of now ts) t ≡ true
    → Waits now ts t
is_waiting-Waits now [] t h = absurd (cc h)
is_waiting-Waits now (x ∷ ts) t h = elim (Bool-cases (is_over now x)) [
  | inl over ↦ inr (is_waiting-Waits now ts t (ground arith))
  | inr valid ↦ elim (Bool-cases (has_sequence t.sequence x && is_queued x.state)) [
    | inl here ↦ inl (ground arith, ground arith, ground arith)
    | inr there ↦ inr (is_waiting-Waits now ts t (ground arith))
  ]
]

every-Waits :
    (now : ℕ) (pending ts : List DemandTicket)
    → every (is_waiting (fresh_of now pending)) ts ≡ true
    → All (Waits now pending) ts
every-Waits now pending [] h = tt
every-Waits now pending (t ∷ ts) h =
    (is_waiting-Waits now pending t (ground arith), every-Waits now pending ts (ground arith))

every-keep {ℓ} : {A : Type ℓ} (p : A → Bool) (xs : List A) → every p (keep p xs) ≡ true
every-keep p [] = refl
every-keep p (x ∷ xs) = ground (arith, every-keep p xs)

abbrev pub as_list : Option ℕ → List ℕ
as_list none = []
as_list (some n) = n ∷ []

-- What a successful `reserve` of `s` has done.
pub record Reserved (now₁ now₂ : ℕ) (b b' : Batcher) (s : DemandSelection) : Type 0 where
  pub was_offered : b.offered ≡ some s
  pub offered_lately : Any (λ at. (at ≤ now₁) × (now₁ ≤ at + 1000000)) (as_list b.offered_at)
  pub all_waited : All (Waits now₂ b.pending) s.tickets
  pub is_nonempty : s.tickets ≢ []
  pub none_left : every (λ t. not (selects s t)) b'.pending ≡ true
  pub others_kept : b'.pending ≡ keep (λ t. not (selects s t)) (fresh_of now₂ b.pending)
  pub in_hand : b'.reserved ≡ some (record s { tickets = map (with_state running) s.tickets })
  pub was_free : b.reserved ≡ none
  pub not_shut : b.failed_closed ≡ false

trusted_lem :
    (serial now : ℕ) (b : Batcher) (s : DemandSelection)
    → trusted serial now b ≡ some s
    → (b.offered ≡ some s) × Any (λ at. (at ≤ now) × (now ≤ at + 1000000)) (as_list b.offered_at)
trusted_lem serial now b s h = elim (Option-cases b.offered_at) [
  | inl never ↦ absurd (ground arith)
  | inr (at, e) ↦ (ground arith, rw e (inl (ground arith, ground arith)))
]

reserve_pending_lem :
    (now : ℕ) (s : DemandSelection) (b : Batcher)
    → (reserve_pending s (expire now b)).0 ≡ ok tt
    → All (Waits now b.pending) s.tickets
      × (s.tickets ≢ [])
      × ((reserve_pending s (expire now b)).1 ≡ record (expire now b) {
        pending = keep (λ t. not (selects s t)) (expire now b).pending;
        reserved = some (record s { tickets = map (with_state running) s.tickets });
        offered = none;
        offered_at = none;
      })
unfolding reserve_pending expire
reserve_pending_lem now s b h =
    (every-Waits now b.pending s.tickets (ground arith), ground arith, ground arith)

reserve_inv :
    (caller now₁ now₂ serial : ℕ) (b : Batcher)
    → (reserve caller (some serial) now₁ now₂ b).0 ≡ ok tt
    → (s : DemandSelection) × (trusted serial now₁ b ≡ some s)
      × (b.reserved ≡ none)
      × (b.failed_closed ≡ false)
      × (reserve caller (some serial) now₁ now₂ b ≡ reserve_pending s (expire now₂ b))
unfolding reserve
reserve_inv caller now₁ now₂ serial b h = elim (Option-cases (trusted serial now₁ b)) [
  | inl untrusted ↦ absurd (ground arith)
  | inr (s, e) ↦ (s, e, ground arith, ground arith, ground arith)
]

-- A `reserve` that succeeds takes the selection on offer, made at most a second before, whole: each of
-- its tickets was pending, queued and unexpired, none stays pending, and the unexpired others do. The
-- batch is then in hand and running, and there was none before.
pub reserve-Reserved :
    (caller now₁ now₂ : ℕ) (selection : Option ℕ) (b : Batcher)
    → (reserve caller selection now₁ now₂ b).0 ≡ ok tt
    → (s : DemandSelection) × Reserved now₁ now₂ b (reserve caller selection now₁ now₂ b).1 s
reserve-Reserved caller now₁ now₂ none b h = absurd (unfold reserve in ground arith)
reserve-Reserved caller now₁ now₂ (some serial) b h =
    let (s, e, free, not_shut, same) = reserve_inv caller now₁ now₂ serial b h in
    let (waited, nonempty, after) = reserve_pending_lem now₂ s b (rw same at h) in
    let (was_offered, lately) = trusted_lem serial now₁ b s e in
    (
      s,
      rw (same, after)
          (unfold expire in
            record {
              was_offered = was_offered;
              offered_lately = lately;
              all_waited = waited;
              is_nonempty = nonempty;
              none_left = every-keep (λ t. not (selects s t)) (fresh_of now₂ b.pending);
              others_kept = refl;
              in_hand = refl;
              was_free = free;
              not_shut = not_shut;
            }),
    )
