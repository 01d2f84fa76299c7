-- ===== src/Clock/Sync.antt =====
-- `ClockSync` of tools/optolink-clock-sync.py: reading and writing the controller's clock over the
-- splitter, and `synchronize`.
pub mod Requests
pub mod Reports
pub mod Confirmed
use optolink.Base.{
  ℕ, zero, suc, ◌+◌, ◌-◌, ◌*◌, ◌/◌, Bool, true, false, not, ◌&&◌, ◌||◌, Option, none, some, List,
  [], ◌∷◌, ◌++◌, map, leb, ◌==◌, if◌then◌else◌, length, every,
}
use optolink.Base.Effect.{Op, give, raise, ◌>>=◌, ◌>>◌, change, except, demand}
use optolink.Base.Result.{Result, ok, err}
use optolink.Text.{Text, codes, same_text, split, strip}
use optolink.Text.Hex.{from_hex, to_hex}
use optolink.Maintenance.Device.{drop}
use optolink.Schedule.Manager.{search_answer}
use optolink.Clock.{
  ClockError, DateTime, days_before, isoweekday, encode_system_time, decode_system_time,
}

-- The exceptions: of the MQTT client, `TimeoutError`, the `RuntimeError`s and the `ValueError`s of the
-- formats.
pub data SyncError : Type 0 where
  no_transport timed_out malformed splitter_failure unexpected_readback not_verified : SyncError
  bad_time : ClockError → SyncError

pub data SyncState : Type 0 where
  checked within synced unverified : SyncState

-- the payload of `publish_status`: the drift is that of its two times
pub record Status : Type 0 where
  pub state : SyncState
  pub host_time : DateTime
  pub device_time : Option DateTime
  pub corrected : Bool
  pub weekday_ok : Option Bool

-- The MQTT client, the splitter, the controller and the host's clock, with states `W`.
-- `publish_status` publishes the status and the time of the controller. `waits` says
-- how often the wait for a response ends before the deadline, `hear` what arrives during one.
pub record Host (W : Type 0) : Type 0 where
  pub publish : Text → W → Bool × W
  pub publish_status : Status → W → Bool × W
  pub waits : W → ℕ
  pub hear : W → List Text × W
  pub pause : ℕ → W → W
  pub now : W → DateTime × W

-- `responses` are those after `start_seq`. `sent` and `statuses` are no fields of the source: what was
-- published, the latest first.
pub record Session (W : Type 0) : Type 0 where
  pub world : W
  pub responses : List Text
  pub sent : List Text
  pub statuses : List Status

abbrev pub SyncOp : Type 0 → Type 0 → Type 0
SyncOp W A = Op SyncError (Session W) A

abbrev pub read_command : Text
read_command = codes "r;0x088E;8;raw;False"

abbrev pub upper : ℕ → ℕ
upper c = if leb b'a' c && leb c b'z' then c - 32 else c

abbrev pub write_command : List ℕ → Text
write_command raw = codes "wraw;0x088E;" ++ map upper (to_hex raw)

-- seconds since the first day of the year 1
unfoldable pub seconds_of : DateTime → ℕ
unfolding days_before
seconds_of t =
    let y = t.year - 1 in
    (((y * 365 + y / 4 - y / 100 + y / 400 + days_before t.year t.month + t.day) * 24 + t.hour) * 60
        + t.minute)
      * 60
    + t.second

-- `abs(drift)`
unfoldable pub drift : DateTime → DateTime → ℕ
unfolding seconds_of
drift a b = (seconds_of a - seconds_of b) + (seconds_of b - seconds_of a)

-- `response_value` on the fields of the response
abbrev pub response_value : List Text → Result SyncError Text
response_value (status ∷ a ∷ value ∷ _) =
    if same_text status (codes "1") then ok (strip value) else err splitter_failure
response_value _ = err malformed

abbrev pub is_hex_digit : ℕ → Bool
is_hex_digit c =
    (leb b'0' c && leb c b'9') || (leb b'A' c && leb c b'F') || (leb b'a' c && leb c b'f')

-- `re.fullmatch(r"[0-9A-Fa-f]{16}", value)`
abbrev pub is_clock_value : Text → Bool
is_clock_value v = length v == 16 && every is_hex_digit v

abbrev pub decoded : Option (List ℕ) → Result SyncError (DateTime × ℕ)
decoded none = err unexpected_readback
decoded (some raw) = elim (decode_system_time raw) [ err e ↦ err (bad_time e) | ok t ↦ ok t ]

module _ {W : Type 0} where
  -- `except TimeoutError`
  abbrev pub let_pass : SyncError → SyncOp W (Unit {0})
  let_pass timed_out = give tt
  let_pass e = raise e

  unfoldable pub of_result : {A : Type 0} → Result SyncError A → SyncOp W A
  of_result r s = (r, s)

module _ {W : Type 0} (host : Host W) where
  unfoldable pub now : SyncOp W DateTime
  now s = (ok (host.now s.world).0, record s { world = (host.now s.world).1 })

  -- `on_message` for what arrives during a wait: the latest hundred are kept
  abbrev pub wait : Session W → Session W
  wait s =
      let all = s.responses ++ map strip (host.hear s.world).0 in
      record s { world = (host.hear s.world).1; responses = drop (length all - 100) all }

  -- the loop of `request`, with the waits left
  unfoldable pub listen : ℕ → SyncOp W Text
  unfolding search_answer
  listen zero s = elim (search_answer 0x088E s.responses) [
    | none ↦ (err timed_out, s)
    | some r ↦ (ok r, s)
  ]
  listen (suc n) s =
      let later = listen n (wait s) in
      elim (search_answer 0x088E s.responses) [ none ↦ later | some r ↦ (ok r, s) ]

  abbrev pub post : Text → Session W → Session W
  post command s = record s {
    world = (host.publish command s.world).1;
    responses = [];
    sent = command ∷ s.sent;
  }

  unfoldable pub request : Text → SyncOp W Text
  unfolding listen
  request command s =
      let p = post command s in
      if not (host.publish command s.world).0
      then (err no_transport, p)
      else listen (host.waits p.world) p

  unfoldable pub read_clock : SyncOp W (DateTime × ℕ)
  read_clock = do
    response ← request read_command
    value ← of_result (response_value (split b';' response))
    demand (is_clock_value value) unexpected_readback
    of_result (decoded (from_hex value))

  -- `write_clock`: a timeout is let pass
  unfoldable pub write_clock : List ℕ → SyncOp W (Unit {0})
  write_clock raw = except (request (write_command raw) >>= λ _. give tt) let_pass

  unfoldable pub publish_status : Status → SyncOp W (Unit {0})
  publish_status st s =
      demand (host.publish_status st s.world).0 no_transport
        (record s { world = (host.publish_status st s.world).1; statuses = st ∷ s.statuses })

  unfoldable pub pause : ℕ → SyncOp W (Unit {0})
  pause d = change λ s. record s { world = host.pause d s.world }

  -- The loop over the delays, with what was read last, and what follows it.
  unfoldable pub verify : List ℕ → Option DateTime → Option Bool → SyncOp W Bool
  verify [] last_device last_weekday_ok = do
    verify_host ← now
    publish_status (record {
      state = unverified;
      host_time = verify_host;
      device_time = last_device;
      corrected = true;
      weekday_ok = last_weekday_ok;
    })
    raise not_verified
  verify (d ∷ ds) last_device last_weekday_ok =
      let rest : Option DateTime → Option Bool → SyncOp W Bool = verify ds in
      do
        pause d
        read ← read_clock
        verify_host ← now
        if leb (drift read.0 verify_host) 5 && read.1 == isoweekday read.0
            then (publish_status (record {
              state = synced;
              host_time = verify_host;
              device_time = some read.0;
              corrected = true;
              weekday_ok = some true;
            })
                >>= λ _. give true)
            else rest (some read.0) (some (read.1 == isoweekday read.0))

  abbrev pub encoded : Result ClockError (List ℕ) → Result SyncError (List ℕ)
  encoded (err e) = err (bad_time e)
  encoded (ok raw) = ok raw

  -- the part of `synchronize` that writes
  unfoldable pub correct : SyncOp W Bool
  correct = do
    target ← now
    raw ← of_result (encoded (encode_system_time target))
    write_clock raw
    verify (500000 ∷ 1000000 ∷ 2000000 ∷ []) none none

  unfoldable pub synchronize : ℕ → Bool → Bool → SyncOp W Bool
  synchronize threshold force check_only = do
    read ← read_clock
    host_time ← now
    if check_only
        then (publish_status (record {
          state = checked;
          host_time = host_time;
          device_time = some read.0;
          corrected = false;
          weekday_ok = some (read.1 == isoweekday read.0);
        })
            >>= λ _. give true)
        else if not force && leb (drift read.0 host_time) threshold && read.1 == isoweekday read.0
        then (publish_status (record {
          state = within;
          host_time = host_time;
          device_time = some read.0;
          corrected = false;
          weekday_ok = some true;
        })
            >>= λ _. give true)
        else correct
