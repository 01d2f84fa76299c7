-- ===== src/Queue/Account.antt =====
-- The account of the tickets of BoundedReadQueue (tools/handover_acceleration/scheduler.py): each one is
-- found once, and the requests of one protocol that were handed out one after the other are counted.
pub mod Steps
use optolink.Base.{
  ℕ, ◌+◌, ◌≡◌, refl, Bool, true, false, not, ◌&&◌, Option, none, some, List, [], ◌∷◌, ◌++◌, map,
  arith, if◌then◌else◌, leb, ltb, first, remove_first, keep,
}
use optolink.Reads.{
  is_running, Protocol, vs1, p300, same_mode, TicketState, running, completed, failed,
}
use optolink.Queue.{Ticket, Queue, with_state, has_sequence, outcome, in_mode, repeats}
use optolink.Queue.Valid.{IsSound}

abbrev pub one_if : Bool → ℕ
one_if true = 1
one_if false = 0

-- how many of the tickets have the sequence number
abbrev pub times : ℕ → List Ticket → ℕ
times n [] = 0
times n (t ∷ ts) = one_if (has_sequence n t) + times n ts

abbrev pub on_wire_times : ℕ → Option Ticket → ℕ
on_wire_times n none = 0
on_wire_times n (some t) = one_if (has_sequence n t)

-- the states of a ticket that was handed out
abbrev pub was_taken : TicketState → Bool
was_taken running = true
was_taken completed = true
was_taken failed = true
was_taken _ = false

-- the length of a series of requests of the protocol, after one more ticket
abbrev pub and_then : Protocol → ℕ → Ticket → ℕ
and_then m k t = if was_taken t.state then (if in_mode m t then k + 1 else 0) else k

abbrev pub series : Protocol → ℕ → List Ticket → ℕ
series m k [] = k
series m k (t ∷ ts) = series m (and_then m k t) ts

abbrev pub with_wire : Protocol → ℕ → Option Ticket → ℕ
with_wire m k none = k
with_wire m k (some t) = and_then m k t

-- how many requests of the protocol were handed out one after the other, up to the latest
abbrev pub successive : Protocol → Queue → ℕ
successive m q = with_wire m (series m 0 q.left) q.inflight

-- the same by the fields that the queue keeps for it
abbrev pub counted_for : Protocol → Option Protocol → ℕ → ℕ
counted_for m none k = 0
counted_for m (some l) k = if same_mode l m then k else 0

-- The sequence number is found once if it was issued, and else not at all; the count is right for the
-- protocol.
pub record Accounts (n : ℕ) (m : Protocol) (q : Queue) : Type 0 where
  pub once :
      times n q.pending + on_wire_times n q.inflight + times n q.left
      ≡ one_if (leb 1 n && ltb n q.next_sequence)
  pub counted : successive m q ≡ counted_for m q.last_mode q.same_mode_count

-- The invariant, with the account of every ticket and of both protocols.
pub record IsValid (q : Queue) : Type 0 where
  pub sound : IsSound q
  pub accounts : (n : ℕ) (m : Protocol) → Accounts n m q

pub times-append : (n : ℕ) (xs ys : List Ticket) → times n (xs ++ ys) ≡ times n xs + times n ys
times-append n [] ys = omega arith
times-append n (x ∷ xs) ys = omega (arith, times-append n xs ys)

pub times-map :
    (n : ℕ) (s : TicketState) (ts : List Ticket) → times n (map (with_state s) ts) ≡ times n ts
times-map n s [] = refl
times-map n s (t ∷ ts) = omega (arith, times-map n s ts)

pub times-keep :
    (n : ℕ) (p : Ticket → Bool) (ts : List Ticket)
    → times n (keep (λ t. not (p t)) ts) + times n (keep p ts) ≡ times n ts
times-keep n p [] = refl
times-keep n p (t ∷ ts) = ground (arith, times-keep n p ts)

pub times-remove_first :
    (n : ℕ) (p : Ticket → Bool) (ts : List Ticket) (t : Ticket)
    → first p ts ≡ some t
    → one_if (has_sequence n t) + times n (remove_first p ts) ≡ times n ts
times-remove_first n p [] t h = cc
times-remove_first n p (x ∷ ts) t h = ground (arith, times-remove_first n p ts t)

pub series-append :
    (m : Protocol) (k : ℕ) (xs ys : List Ticket)
    → series m k (xs ++ ys) ≡ series m (series m k xs) ys
series-append m k [] ys = refl
series-append m k (x ∷ xs) ys = series-append m (and_then m k x) xs ys

pub series-map :
    (m : Protocol) (k : ℕ) (s : TicketState) (ts : List Ticket)
    → was_taken s ≡ false
    → series m k (map (with_state s) ts) ≡ k
series-map m k s [] h = refl
series-map m k s (t ∷ ts) h = cc (series-map m k s ts h)

-- the end of a request is no turn of its own
pub same_turn :
    (m : Protocol) (k : ℕ) (b : Bool) (t : Ticket)
    → is_running t.state ≡ true
    → and_then m k (with_state (outcome b) t) ≡ and_then m k t
same_turn m k true t h = ground arith
same_turn m k false t h = ground arith

pub next_turn :
    (m d : Protocol) (l : Option Protocol) (k c : ℕ) (mode : Protocol)
    → same_mode mode d ≡ true
    → k ≡ counted_for m l c
    → (if same_mode mode m then k + 1 else 0)
      ≡ counted_for m (some d) (if repeats l d then c + 1 else 1)
next_turn m d none k c mode h e = ground arith
next_turn vs1 vs1 (some vs1) k c mode h e = ground arith
next_turn vs1 vs1 (some p300) k c mode h e = ground arith
next_turn vs1 p300 (some l) k c mode h e = ground arith
next_turn p300 vs1 (some l) k c mode h e = ground arith
next_turn p300 p300 (some vs1) k c mode h e = ground arith
next_turn p300 p300 (some p300) k c mode h e = ground arith
