-- ===== src/Batcher/Served.antt =====
-- `reserve` and `complete` of `BoundedDemandBatcher` (tools/handover_acceleration/scheduler.py),
-- and the calls of all its methods.
use optolink.Base.{
  ℕ, ◌+◌, Bool, true, false, not, ◌&&◌, ◌||◌, Option, none, some, List, [], ◌∷◌, ◌++◌, map, leb,
  ◌==◌, if◌then◌else◌, length, keep, some_of, every, is_some,
}
use optolink.Base.Result.{Result, ok, err}
use optolink.Reads.{ReadKind, running, completed, failed, expired, is_queued, Quantity}
use optolink.Planner.{Budget}
use optolink.Batcher.{
  DemandTicket, DemandSelection, Batcher, BatchError, with_state, expire, submit, pending_count,
  has_sequence, cancel, not_owner, bad_selection, busy, untrusted, not_pending, not_boolean,
  nothing_reserved,
}
use optolink.Batcher.Offer.{select}

-- the selection on offer, if it is the one meant and was made at most a second ago
abbrev pub trusted : ℕ → ℕ → Batcher → Option DemandSelection
trusted serial now b = elim b.offered [
  | none ↦ none
  | some o ↦
      if o.serial == serial
        && elim b.offered_at [ none ↦ false | some at ↦ leb at now && leb now (at + 1000000) ]
      then some o
      else none
]

-- the pending ticket with the number is queued
abbrev pub is_waiting : List DemandTicket → DemandTicket → Bool
is_waiting ts t = some_of (λ p. has_sequence t.sequence p && is_queued p.state) ts

abbrev pub selects : DemandSelection → DemandTicket → Bool
selects s t = some_of (has_sequence t.sequence) s.tickets

-- The end of `reserve`, on what `_expire` has left: all tickets go or none.
unfoldable pub reserve_pending : DemandSelection → Batcher → Result BatchError (Unit {0}) × Batcher
reserve_pending s b =
    if length s.tickets == 0 || not (every (is_waiting b.pending) s.tickets)
    then (err not_pending, b)
    else (
      ok tt,
      record b {
        pending = keep (λ t. not (selects s t)) b.pending;
        reserved = some (record s { tickets = map (with_state running) s.tickets });
        offered = none;
        offered_at = none;
      },
    )

-- `reserve`, given the serial number of the selection; one that is no `DemandSelection` is `none`.
-- `now₁` is read by the age test.
unfoldable pub reserve : ℕ → Option ℕ → ℕ → ℕ → Batcher → Result BatchError (Unit {0}) × Batcher
unfolding reserve_pending expire
reserve caller selection now₁ now₂ b =
    if not (caller == b.owner) then (err not_owner, b) else elim selection [
      | none ↦ (err bad_selection, b)
      | some serial ↦
          if is_some b.reserved || b.failed_closed
          then (err busy, b)
          else elim (trusted serial now₁ b) [
            | none ↦ (err untrusted, b)
            | some s ↦ reserve_pending s (expire now₂ b)
          ]
    ]

-- the final state of one ticket of the batch
abbrev pub settle : Bool → ℕ → DemandTicket → DemandTicket
settle success now t =
    with_state (if success then (if leb now t.expires_at then completed else expired) else failed) t

complete_batch : Bool → ℕ → DemandSelection → Batcher → Result BatchError (Unit {0}) × Batcher
complete_batch success now s b = (
  ok tt,
  record b {
    left = b.left ++ map (settle success now) s.tickets;
    last_completed = if success then some now else b.last_completed;
    failed_closed = if success then b.failed_closed else true;
    reserved = none;
  },
)

-- `complete`; arguments that are no Booleans are `none`
complete_checked : Bool → Bool → ℕ → Batcher → Result BatchError (Unit {0}) × Batcher
unfolding complete_batch
complete_checked success verified now b = elim b.reserved [
  | none ↦ (err nothing_reserved, b)
  | some s ↦ complete_batch (success && verified) now s b
]

unfoldable pub complete :
    ℕ → Option Bool → Option Bool → ℕ → Batcher → Result BatchError (Unit {0}) × Batcher
unfolding complete_checked
complete caller success verified now b =
    if not (caller == b.owner) then (err not_owner, b) else elim success [
      | none ↦ (err not_boolean, b)
      | some ok? ↦ elim verified [
        | none ↦ (err not_boolean, b)
        | some vs1? ↦ complete_checked ok? vs1? now b
      ]
    ]

-- A call of any method that changes the state.
pub data Call : Type 0 where
  call_submit : Option ReadKind → Quantity → ℕ → ℕ → Call
  call_pending_count : ℕ → Call
  call_cancel : ℕ → Call
  call_select : ℕ → Option Budget → Quantity → ℕ → ℕ → ℕ → ℕ → Call
  call_reserve : ℕ → Option ℕ → ℕ → ℕ → Call
  call_complete : ℕ → Option Bool → Option Bool → ℕ → Call

unfoldable pub step : Call → Batcher → Batcher
step (call_submit k ttl now₁ now₂) b = (submit k ttl now₁ now₂ b).1
step (call_pending_count now) b = (pending_count now b).1
step (call_cancel n) b = (cancel n b).1
step (call_select c g a now₁ now₂ now₃ now₄) b = (select c g a now₁ now₂ now₃ now₄ b).1
step (call_reserve c s now₁ now₂) b = (reserve c s now₁ now₂ b).1
step (call_complete c s v now) b = (complete c s v now b).1

unfoldable pub run : List Call → Batcher → Batcher
run [] b = b
run (c ∷ cs) b = run cs (step c b)
