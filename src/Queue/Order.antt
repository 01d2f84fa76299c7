-- ===== src/Queue/Order.antt =====
-- The sequence numbers of a list of tickets rise within bounds. This is what makes a sequence
-- number a reference to one ticket.
use optolink.Base.{
  ℕ, suc, ◌+◌, ◌≤◌, ◌<◌, ◌≡◌, Bool, true, some, List, [], ◌∷◌, ◌++◌, arith, Bool-cases, inl, inr,
  length, keep, first, remove_first,
}
use optolink.Reads.{queued}
use optolink.Queue.{Ticket, has_sequence}

-- Queued tickets whose sequence numbers rise from `lo` on and stay below `hi`.
abbrev pub Between : ℕ → ℕ → List Ticket → Type 0
Between lo hi [] = lo ≤ hi
Between lo hi (t ∷ ts) = (lo ≤ t.sequence) × (t.state ≡ queued) × Between (suc t.sequence) hi ts

pub Between-le : (lo hi : ℕ) (ts : List Ticket) → Between lo hi ts → lo ≤ hi
Between-le lo hi [] h = h
Between-le lo hi (t ∷ ts) h = omega (arith, Between-le (suc t.sequence) hi ts h.2)

pub Between-weaken :
    (lo' lo hi : ℕ) (ts : List Ticket) → lo' ≤ lo → Between lo hi ts → Between lo' hi ts
Between-weaken lo' lo hi [] w h = omega arith
Between-weaken lo' lo hi (t ∷ ts) w h = (omega arith, h.1, h.2)

pub Between-append :
    (lo hi : ℕ) (ts : List Ticket) (t : Ticket)
    → Between lo hi ts
    → t.sequence ≡ hi
    → t.state ≡ queued
    → Between lo (hi + 1) (ts ++ t ∷ [])
Between-append lo hi [] t h e q = (omega arith, q, omega arith)
Between-append lo hi (x ∷ ts) t h e q = (h.0, h.1, Between-append (suc x.sequence) hi ts t h.2 e q)

pub Between-keep :
    (p : Ticket → Bool) (lo hi : ℕ) (ts : List Ticket)
    → Between lo hi ts
    → Between lo hi (keep p ts)
Between-keep p lo hi [] h = h
Between-keep p lo hi (t ∷ ts) h = elim (Bool-cases (p t)) [
  | inl e ↦ rw e (h.0, h.1, Between-keep p (suc t.sequence) hi ts h.2)
  | inr e ↦ rw e (
      Between-weaken lo (suc t.sequence) hi (keep p ts) (omega arith)
        (Between-keep p (suc t.sequence) hi ts h.2))
]

pub Between-remove_first :
    (p : Ticket → Bool) (lo hi : ℕ) (ts : List Ticket)
    → Between lo hi ts
    → Between lo hi (remove_first p ts)
Between-remove_first p lo hi [] h = h
Between-remove_first p lo hi (t ∷ ts) h = elim (Bool-cases (p t)) [
  | inl e ↦ rw e (Between-weaken lo (suc t.sequence) hi ts (omega arith) h.2)
  | inr e ↦ rw e (h.0, h.1, Between-remove_first p (suc t.sequence) hi ts h.2)
]

-- Removing what `first` found makes the list shorter by one.
pub length-remove_first :
    (p : Ticket → Bool) (ts : List Ticket) (t : Ticket)
    → first p ts ≡ some t
    → length (remove_first p ts) + 1 ≡ length ts
length-remove_first p [] t h = cc
length-remove_first p (x ∷ ts) t h = ground (arith, length-remove_first p ts t)

-- What `first` finds satisfies the test, stands within the bounds and is queued.
pub first-Between :
    (p : Ticket → Bool) (lo hi : ℕ) (ts : List Ticket) (t : Ticket)
    → Between lo hi ts
    → first p ts ≡ some t
    → (p t ≡ true) × (lo ≤ t.sequence) × (t.sequence < hi) × (t.state ≡ queued)
first-Between p lo hi [] t h e = cc
first-Between p lo hi (x ∷ ts) t h e = elim (Bool-cases (p x)) [
  | inl yes_here ↦ ground (arith, Between-le (suc x.sequence) hi ts h.2)
  | inr not_here ↦ ground (arith, first-Between p (suc x.sequence) hi ts t h.2)
]

-- A member found by any test is found again by its sequence number.
pub first-has_sequence :
    (p : Ticket → Bool) (lo hi : ℕ) (ts : List Ticket) (t : Ticket)
    → Between lo hi ts
    → first p ts ≡ some t
    → first (has_sequence t.sequence) ts ≡ some t
first-has_sequence p lo hi [] t h e = cc
first-has_sequence p lo hi (x ∷ ts) t h e = elim (Bool-cases (p x)) [
  | inl yes_here ↦ ground arith
  | inr not_here ↦ ground (
    arith,
    first-has_sequence p (suc x.sequence) hi ts t h.2,
    first-Between p (suc x.sequence) hi ts t h.2,
  )
]
