-- ===== src/Readbacks/Install.antt =====
-- `install_before_mqtt_connect` of tools/handover_acceleration/pending_refresh.py: the two
-- callbacks that it puts into the MQTT module, the timers that they start, and the queue of forced
-- reads. The module's own `is_forced` is a parameter.
use optolink.Base.{
  ℕ, zero, suc, Bool, true, false, not, ◌||◌, Option, none, some, List, [], ◌∷◌, ◌++◌, leb,
  if◌then◌else◌,
}
use optolink.Base.Result.{Result, ok, err}
use optolink.Readbacks.{
  RefreshError, Readbacks, Item, ticketed, legacy, new_ledger, register, consume, complete_forced,
  cancel_not_scheduled,
}

-- what the installation finds of the module's attributes
pub record MqttModule : Type 0 where
  pub has_ledger : Bool
  pub has_client : Bool
  pub queue_is_list : Bool
  pub can_force : Bool
  pub can_delay : Bool

pub data InstallError : Type 0 where
  already_installed connected no_queue unknown_topology : InstallError

-- `install_before_mqtt_connect`
unfoldable pub install_before_mqtt_connect : MqttModule → Result InstallError Readbacks
install_before_mqtt_connect m =
    if m.has_ledger
    then err already_installed
    else if m.has_client
    then err connected
    else if not m.queue_is_list
    then err no_queue
    else if not m.can_force || not m.can_delay
    then err unknown_topology
    else ok new_ledger

-- The ledger, `lst_force_refresh`, and the workers that still sleep, each with its item.
pub record Refreshes : Type 0 where
  pub ledger : Readbacks
  pub queue : List Item
  pub sleeping : List Item

abbrev pub installed : Readbacks → List Item → Refreshes
installed ledger queue = record { ledger = ledger; queue = queue; sleeping = [] }

pub data ForceError : Type 0 where
  unbounded not_started : ForceError
  refused : RefreshError → ForceError

-- `type(delay) in (int, float) and 0 <= delay <= 60`; `none` is anything but a number from 0
abbrev pub is_bounded : Option ℕ → Bool
is_bounded none = false
is_bounded (some delay) = leb delay 60000000

abbrev pub ticket_of : Item → ℕ
ticket_of (ticketed ticket index) = ticket
ticket_of (legacy item) = 0

-- `thread.start()`: the worker sleeps with its item, or the item is given up
abbrev pub start_worker : Bool → Item → Refreshes → Result ForceError (Unit {0}) × Refreshes
start_worker true item s = (ok tt, record s { sleeping = item ∷ s.sleeping })
start_worker false item s =
    (err not_started, record s { ledger = cancel_not_scheduled (ticket_of item) s.ledger })

abbrev pub registered :
    Bool → Result RefreshError Item → Refreshes → Result ForceError (Unit {0}) × Refreshes
registered starts (err e) s = (err (refused e), s)
registered starts (ok item) s = start_worker starts item s

-- `tracked_force_delayed`, where the thread starts or does not
unfoldable pub tracked_force_delayed :
    Option ℕ → Option ℕ → Bool → Refreshes → Result ForceError (Unit {0}) × Refreshes
unfolding register cancel_not_scheduled
tracked_force_delayed index delay starts s =
    if not (is_bounded delay)
    then (err unbounded, s)
    else let r = register index s.ledger in
      let t : Refreshes = record s { ledger = r.1 } in registered starts r.0 t

abbrev pub nth : ℕ → List Item → List Item
nth n [] = []
nth zero (i ∷ is) = i ∷ []
nth (suc n) (i ∷ is) = nth n is

abbrev pub remove_nth : ℕ → List Item → List Item
remove_nth n [] = []
remove_nth zero (i ∷ is) = is
remove_nth (suc n) (i ∷ is) = i ∷ remove_nth n is

-- the end of a worker, any of those that sleep: `lst_force_refresh.append(item)`
unfoldable pub worker : ℕ → Refreshes → Refreshes
worker n s = record s { queue = s.queue ++ nth n s.sleeping; sleeping = remove_nth n s.sleeping }

-- What happens after the installation, in any order: a readback is asked for, a worker wakes, the main
-- loop asks for a forced read, or has ended one, and a naked index is queued.
pub data Event : Type 0 where
  forces : Option ℕ → Option ℕ → Bool → Event
  wakes : ℕ → Event
  polls : Event
  completes : Bool → Event
  queues : Option ℕ → Event

module _ (prior_is_forced : List Item → Item × List Item) where
  -- `tracked_is_forced`
  unfoldable pub tracked_is_forced : Refreshes → Result RefreshError (Option ℕ) × Refreshes
  unfolding consume
  tracked_is_forced s =
      let p = prior_is_forced s.queue in
      let r = consume p.0 s.ledger in (r.0, record s { ledger = r.1; queue = p.1 })

  unfoldable pub happens : Event → Refreshes → Refreshes
  unfolding tracked_force_delayed worker tracked_is_forced complete_forced
  happens (forces index delay starts) s = (tracked_force_delayed index delay starts s).1
  happens (wakes n) s = worker n s
  happens polls s = (tracked_is_forced s).1
  happens (completes success) s = record s { ledger = (complete_forced success s.ledger).1 }
  happens (queues index) s = record s { queue = s.queue ++ legacy index ∷ [] }

  unfoldable pub run : List Event → Refreshes → Refreshes
  unfolding happens
  run [] s = s
  run (e ∷ es) s = run es (happens e s)
