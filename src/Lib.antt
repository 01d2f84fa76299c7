-- ===== src/Lib.antt =====
-- The decision logic of optolink, which lets one owner of a serial port serve a Viessmann heating
-- controller in two protocols, VS1 (GFA values) and P300, and answers requests for reads.
--
-- Parts and files:
--   Reads            kinds of reads, their protocols, ticket states (tools/handover_acceleration/scheduler.py)
--   Queue            BoundedReadQueue: bounded admission, one read on the wire, fairness between the
--                    protocols (scheduler.py); Queue/Order, Valid, Account, Invariant,
--                    Handed and Take hold its proofs
--   Freshness        GfaFreshnessLedger, and Freshness/Provenance OwnerGfaProvenance: which VS1 samples
--                    count as proof, and how a protocol transfer voids them (scheduler.py)
--   Planner          Budget, ReadJob, plan_phase_windows: the exclusive P300 windows of a list of jobs
--                    (tools/handover_acceleration/phase_planner.py); Planner/Windows the plan
--   Batcher          BoundedDemandBatcher: one-shot batches of P300 reads over the planner, shut after
--                    the first failure (scheduler.py)
--   Maintenance      optolink_maintenance_core.py (config/optolink-splitter), the guarded settings of the
--                    maintenance display: Commands (texts), Device (MqttSession, request), Bytes (reads,
--                    writes, restore), Snapshot, Settings (set_hours, set_months), Reset, Host (lock and
--                    session); Log, Requests, Readings, Surface, Calls, Verify, Restored and Outcomes
--                    hold its proofs
--   Schedule         the schedule manager (tools/optolink-schedule-manager.py): Times and Blocks (payloads,
--                    bytes), Manager (request, read_block, write_block, apply); Windows, RoundTrip,
--                    Canonical, Rechecked and Confirmed hold its proofs; Schedule/Editor the slots of a draft,
--                    State and Actions the editor's commands, the others its proofs
--   Clock            the controller's time in eight bytes (tools/optolink-clock-sync.py), with the
--                    calendar of Python's datetime; Clock/Sync ClockSync and its synchronize;
--                    Clock/RoundTrip and the modules of Clock/Sync hold its proofs
--   Handover         coordinator.py (tools/handover_acceleration), the owner of the serial port: messages,
--                    modes and phases; Handover/Wire (ReadOnlyWire up to sync), Vs1, P300 (the reads
--                    and handshakes), Owner and Owner/Switches (HandoverCoordinator, PortLease), Calls; Guarded, Sound,
--                    Window, Spec, P300/Frames and Calls/Laws hold its proofs
--   Execution        execute_read_phases (tools/handover_acceleration/phase_executor.py): a plan carried out
--                    on the coordinator; Execution/Reads, Steps and Laws hold its proofs
--   Readbacks        PendingReadbackLedger (tools/handover_acceleration/pending_refresh.py);
--                    Readbacks/Install its callbacks, timers and queue in the MQTT module; Lossless,
--                    Settled, Barred and Queued hold its proofs
--   Text             what the program uses of Python's str, int and bytes; Text/Hex, Text/Strip
--   Base             helpers
--   Tests            the theorems at concrete inputs, and runs of the definitions
--
-- Correspondence. A class is a record with its fields, a method a function of the same name from the
-- arguments and the state to the result and the new state. A method that raises returns `err` beside
-- the state as it was left. Each method that holds its lock from the first to the last line is one
-- step; a thread is its number, and each reading of the clock is an argument, so that two readings in
-- one method are two arguments. `Call`, `step` and `run` give the callers' sequences of calls in any
-- order. Tickets are shared objects in the source: the queue's record keeps those that have left in
-- `left`, with their final state.
--
-- Numbers. Times are whole microseconds where the source has floating-point seconds or milliseconds;
-- rounding of the floating point is not modelled. A numeric argument that the source checks for being
-- finite and not negative is a `Quantity`. An argument that the source checks for its type is an
-- `Option` or a data type of the shapes that the code tells apart. Texts are ASCII.
--
-- The MQTT client, the splitter, the controller and the clock of the maintenance core and the schedule
-- manager are a `Broker` with any states: it says whether a publication succeeds, how often the clock
-- is found before the deadline, and what arrives up to each look. The loop of `request` recurs on that
-- number of looks. A session keeps the log of the commands published, `sent`. Error messages are not
-- modelled; the codes and details are. The clock synchronisation has a `Host` in that place: it also
-- says what the host's clock shows and whether a status is published; a `Session` keeps the statuses.
--
-- The serial object and the clock of the coordinator are a `Port` with any states. Its loops recur on
-- a number of turns: the time left to the deadline and the bytes missing, which is enough where the
-- clock moves (Handover.Calls.Laws.call_ends); a loop out of turns raises `stuck`, which the source
-- has not. Its record of a wire keeps beside the source's fields the messages given to the port, each
-- with the phase at that time. A value that the callback of a window gives, and the messages of the
-- exceptions, do not matter to the model. The lease is a lock that the parameter grants or not. The `is_forced` of the
-- upstream MQTT module is a function on the queue of forced reads, of which the theorem on timers asks
-- that it takes at most the entry that it gives.
--
-- Recursion is structural, also over the list of jobs in `order_from`, which stands for the loop over
-- blocks. Only `decimal`, the digits of a number, has fuel: the number itself, while each step divides
-- by ten.
--
-- Not modelled: threads below the granularity of a method, the MQTT broker, file
-- system work of staging and admission, the patchers of the upstream splitter (whose source is
-- elsewhere), the shell scripts, and the Home Assistant profile, which is data.
pub mod Base
pub mod Text
pub mod Reads
pub mod Queue
pub mod Freshness
pub mod Planner
pub mod Batcher
pub mod Maintenance
pub mod Schedule
pub mod Handover
pub mod Execution
pub mod Readbacks
pub mod Clock
pub mod Tests
