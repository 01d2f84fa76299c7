-- ===== src/Batcher.antt =====
-- `BoundedDemandBatcher` of tools/handover_acceleration/scheduler.py: one definition for each method.
-- Every method is one step; a reading of the clock, the caller's thread and whether an argument has
-- the type that is asked for are arguments. Times are microseconds.
pub mod Jobs
pub mod Select
pub mod Latch
pub mod Reserve
pub mod Served
pub mod Offer
use optolink.Base.{
  ℕ, ◌+◌, Bool, true, false, not, ◌&&◌, ◌||◌, Option, none, some, List, [], ◌∷◌, ◌++◌, map, ltb,
  leb, ◌==◌, if◌then◌else◌, length, keep, some_of,
}
use optolink.Base.Result.{Result, ok, err}
use optolink.Reads.{
  ReadKind, mode_of, is_p300, TicketState, queued, cancelled, expired, Quantity, not_finite,
  negative, micros,
}
use optolink.Planner.{ReadJob}
use optolink.Planner.Windows.{PhasePlan}

-- `DemandTicket`; a producer's reference to one is its sequence number
pub record DemandTicket : Type 0 where
  pub sequence : ℕ
  pub kind : ReadKind
  pub enqueued_at : ℕ
  pub expires_at : ℕ
  pub state : TicketState

-- `DemandSelection`; `serial` tells one selection object from another, as `is` does
pub record DemandSelection : Type 0 where
  pub serial : ℕ
  pub tickets : List DemandTicket
  pub jobs : List ReadJob
  pub plan : PhasePlan

-- `left` holds the tickets that no field of the object holds any more; `made` counts the selections
-- made, for their serial numbers.
pub record Batcher : Type 0 where
  pub capacity : ℕ
  pub max_distinct_reads : ℕ
  pub min_spacing : ℕ
  pub owner : ℕ
  pub pending : List DemandTicket
  pub reserved : Option DemandSelection
  pub offered : Option DemandSelection
  pub offered_at : Option ℕ
  pub next : ℕ
  pub last_completed : Option ℕ
  pub failed_closed : Bool
  pub left : List DemandTicket
  pub made : ℕ

pub data BatchError : Type 0 where
  bad_bounds not_owner bad_kind bad_deadline latched full bad_budget bad_age not_one_roundtrip :
      BatchError
  bad_selection busy untrusted not_pending not_boolean nothing_reserved : BatchError

-- `__init__`; an argument that is no integer is `none`
unfoldable pub create : Option ℕ → Option ℕ → Quantity → ℕ → Result BatchError Batcher
create (some c) (some d) (micros s) thread =
    if leb 1 c && (leb c 128 && (leb 1 d && (leb d 3 && leb 30000000 s)))
    then ok (record {
      capacity = c;
      max_distinct_reads = d;
      min_spacing = s;
      owner = thread;
      pending = [];
      reserved = none;
      offered = none;
      offered_at = none;
      next = 1;
      last_completed = none;
      failed_closed = false;
      left = [];
      made = 0;
    })
    else err bad_bounds
create _ _ _ thread = err bad_bounds

abbrev pub is_over : ℕ → DemandTicket → Bool
is_over now t = leb t.expires_at now

abbrev pub with_state : TicketState → DemandTicket → DemandTicket
with_state s t = record t { state = s }

-- `_expire`
unfoldable pub expire : ℕ → Batcher → Batcher
expire now b = record b {
  pending = keep (λ t. not (is_over now t)) b.pending;
  left = b.left ++ map (with_state expired) (keep (is_over now) b.pending);
}

abbrev pub is_demand : ReadKind → Bool
is_demand k = is_p300 (mode_of k)

-- the end of `submit`, on what `_expire` has left
admit : ReadKind → ℕ → ℕ → Batcher → Result BatchError DemandTicket × Batcher
admit kind ttl now b =
    if leb b.capacity (length b.pending)
    then (err full, b)
    else let t : DemandTicket = record {
      sequence = b.next;
      kind = kind;
      enqueued_at = now;
      expires_at = now + ttl;
      state = queued;
    } in
      (ok t, record b { pending = b.pending ++ t ∷ []; next = b.next + 1 })

submit_kind : ReadKind → Quantity → ℕ → ℕ → Batcher → Result BatchError DemandTicket × Batcher
submit_kind kind not_finite now₁ now₂ b = (err bad_deadline, b)
submit_kind kind negative now₁ now₂ b = (err bad_deadline, b)
submit_kind kind (micros ttl) now₁ now₂ b =
    if ttl == 0 || ltb 300000000 ttl
    then (err bad_deadline, b)
    else if b.failed_closed
    then (err latched, b)
    else admit kind ttl now₂ (expire now₁ b)

-- `submit`; a kind that is no `ReadKind` is `none`
unfoldable pub submit :
    Option ReadKind → Quantity → ℕ → ℕ → Batcher → Result BatchError DemandTicket × Batcher
unfolding submit_kind admit expire
submit none ttl now₁ now₂ b = (err bad_kind, b)
submit (some k) ttl now₁ now₂ b =
    if not (is_demand k) then (err bad_kind, b) else submit_kind k ttl now₁ now₂ b

-- `pending_count`
unfoldable pub pending_count : ℕ → Batcher → ℕ × Batcher
unfolding expire
pending_count now b = let e = expire now b in (length e.pending, e)

abbrev pub has_sequence : ℕ → DemandTicket → Bool
has_sequence n t = t.sequence == n

-- `cancel`
unfoldable pub cancel : ℕ → Batcher → Bool × Batcher
cancel n b =
    if some_of (has_sequence n) b.pending
    then (
      true,
      record b {
        pending = keep (λ t. not (has_sequence n t)) b.pending;
        left = b.left ++ map (with_state cancelled) (keep (has_sequence n) b.pending);
      },
    )
    else (false, b)
