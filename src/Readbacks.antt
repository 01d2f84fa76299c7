-- ===== src/Readbacks.antt =====
-- tools/handover_acceleration/pending_refresh.py: PendingReadbackLedger, which keeps count of the
-- delayed readbacks so that no protocol change overtakes one.
pub mod Lossless
pub mod Settled
pub mod Barred
pub mod Install
pub mod Queued
use optolink.Base.{
  ℕ, ◌+◌, Bool, true, false, ◌||◌, not, Option, none, some, List, [], ◌∷◌, ◌++◌, ◌==◌,
  if◌then◌else◌, is_some,
}
use optolink.Base.Result.{Result, ok, err}

pub data RefreshError : Type 0 where
  bad_index : RefreshError
  forged_ticket : RefreshError
  two_in_flight : RefreshError
  missing_key : RefreshError
  not_idle : RefreshError

-- `_pending` is a dictionary: pairs of a ticket and an index. `_marker` is what tells the ledger's own
-- items from others, which `Item` says by its constructors.
pub record Readbacks : Type 0 where
  pub next_ticket : ℕ
  pub pending : List (ℕ × ℕ)
  pub seen : ℕ
  pub inflight : Option ℕ
  pub failed_closed : Bool

-- what the queue of forced reads holds: an item of the ledger, or anything else
pub data Item : Type 0 where
  ticketed : ℕ → ℕ → Item
  legacy : Option ℕ → Item

abbrev pub new_ledger : Readbacks
new_ledger = record {
  next_ticket = 1;
  pending = [];
  seen = 0;
  inflight = none;
  failed_closed = false;
}

-- `_pending.get(ticket)`
abbrev pub pending_index : ℕ → List (ℕ × ℕ) → Option ℕ
pending_index t [] = none
pending_index t ((u, i) ∷ ps) = let rest = pending_index t ps in if t == u then some i else rest

-- `_pending` without the ticket
abbrev pub without : ℕ → List (ℕ × ℕ) → List (ℕ × ℕ)
without t [] = []
without t ((u, i) ∷ ps) = let rest = without t ps in if t == u then rest else (u, i) ∷ rest

-- `register`; `none` stands for an index that is no integer or negative
unfoldable pub register : Option ℕ → Readbacks → Result RefreshError Item × Readbacks
register none r = (err bad_index, r)
register (some index) r = (
  ok (ticketed r.next_ticket index),
  record r {
    next_ticket = r.next_ticket + 1;
    pending = (r.next_ticket, index) ∷ r.pending;
    seen = r.seen + 1;
  },
)

abbrev pub same_index : Option ℕ → ℕ → Bool
same_index none i = false
same_index (some j) i = j == i

-- `consume`
unfoldable pub consume : Item → Readbacks → Result RefreshError (Option ℕ) × Readbacks
consume (legacy item) r = (ok item, r)
consume (ticketed ticket index) r =
    if not (same_index (pending_index ticket r.pending) index)
    then (err forged_ticket, r)
    else if is_some r.inflight
    then (err two_in_flight, record r { failed_closed = true })
    else (ok (some index), record r { inflight = some ticket })

-- `del self._pending[ticket]`
abbrev pub retire : ℕ → Readbacks → Result RefreshError (Unit {0}) × Readbacks
retire ticket r =
    if is_some (pending_index ticket r.pending)
    then (ok tt, record r { pending = without ticket r.pending; inflight = none })
    else (err missing_key, record r { inflight = none })

-- `complete_forced`; the argument says whether the return code is 1
unfoldable pub complete_forced : Bool → Readbacks → Result RefreshError (Unit {0}) × Readbacks
complete_forced success r = elim r.inflight [
  | none ↦ (ok tt, r)
  | some ticket ↦
      if success
      then retire ticket r
      else (ok tt, record r { inflight = none; failed_closed = true })
]

-- `cancel_not_scheduled`
unfoldable pub cancel_not_scheduled : ℕ → Readbacks → Readbacks
cancel_not_scheduled ticket r = record r { pending = without ticket r.pending }

abbrev pub is_none : List (ℕ × ℕ) → Bool
is_none [] = true
is_none (_ ∷ _) = false

-- `require_idle_for_p300`
unfoldable pub require_idle : Readbacks → Result RefreshError (Unit {0})
require_idle r =
    if r.failed_closed || (is_some r.inflight || not (is_none r.pending))
    then err not_idle
    else ok tt

-- The calls of the ledger's callers: the MQTT callbacks, the workers and the main loop.
pub data Call : Type 0 where
  call_register : Option ℕ → Call
  call_consume : Item → Call
  call_complete : Bool → Call
  call_cancel : ℕ → Call

-- The ledger, with the tickets that were retired by a successful read or given up before their start.
pub record History : Type 0 where
  pub ledger : Readbacks
  pub retired : List ℕ
  pub cancelled : List ℕ

-- the ticket that a completion retires
abbrev pub retires : Bool → Readbacks → List ℕ
retires false r = []
retires true r = elim r.inflight [
  | none ↦ []
  | some ticket ↦ if is_some (pending_index ticket r.pending) then ticket ∷ [] else []
]

unfoldable pub step : Call → History → History
unfolding register consume complete_forced cancel_not_scheduled
step (call_register index) h = record h { ledger = (register index h.ledger).1 }
step (call_consume item) h = record h { ledger = (consume item h.ledger).1 }
step (call_complete success) h = record h {
  ledger = (complete_forced success h.ledger).1;
  retired = retires success h.ledger ++ h.retired;
}
step (call_cancel ticket) h = record h {
  ledger = cancel_not_scheduled ticket h.ledger;
  cancelled = ticket ∷ h.cancelled;
}

unfoldable pub run : List Call → History → History
unfolding step
run [] h = h
run (c ∷ cs) h = run cs (step c h)

abbrev pub at_start : History
at_start = record { ledger = new_ledger; retired = []; cancelled = [] }
