-- ===== src/Tests/Maintenance.antt =====
-- optolink_maintenance_core.py with a splitter whose answers are given one by one.
use optolink.Base.{◌≡◌, refl, ◌⊎◌, inl, some, List, [], ◌∷◌, ◌++◌, true, false, arith}
use optolink.Base.Result.{ok, err}
use optolink.Text.{Text, codes, pos, split, int_auto, strip}
use optolink.Text.Hex.{from_hex, from_le}
use optolink.Maintenance.Commands.{
  splitter_timeout, read_command, write_command, is_answer, command_addr, payload,
}
use optolink.Maintenance.Device.{
  Broker, Session, request, await, pick, attempt, first_do, give, raise, lift, ◌>>=◌,
}
use optolink.Maintenance.Bytes.{
  MaintenanceError, busy, read_uint_le, read_raw, raw_response, write_byte, write_verify_byte,
}
use optolink.Maintenance.Reset.{reset_operation, enter_state, leave_state, conclude}
use optolink.Maintenance.Host.{
  Access, Host, with_session, in_session, connect, set_hours, reset_maintenance,
}
use optolink.Maintenance.Snapshot.{snapshot}
use optolink.Maintenance.Log.{Grows}
use optolink.Maintenance.Calls.{ask_reset, Allowed, serve, serve-Allowed, with_session-Released}
use optolink.Maintenance.Verify.{IsVerified, write_verify_byte-IsVerified}
use optolink.Maintenance.Restored.{IsRestored, reset_operation-IsRestored}
use optolink.Maintenance.Requests.{request-Answer, request_finds}
use optolink.Maintenance.Readings.{Carries, StandsFor, read_uint_le-Reading}

-- each look finds the next group of responses, and there are two looks before the deadline
abbrev next_group : List (List Text) → List Text × List (List Text)
next_group [] = ([], [])
next_group (r ∷ rs) = (r, rs)

abbrev pub scripted : Broker (List (List Text))
scripted = record { publish = λ c w. (true, w); looks = λ w. 2; look = next_group; pause = λ w. w }

abbrev pub start : List (List Text) → Session (List (List Text))
start w = record { world = w; responses = []; sent = [] }

abbrev pub one : Text → List Text
one t = t ∷ []

-- an answer to another helper comes first
abbrev shared : List (List Text)
shared = one (codes "1;0x5723;0c") ∷ one (codes "1;0x5721;64") ∷ []

read_runs : (read_uint_le scripted 0x5721 1 (start shared)).0 ≡ ok (100, codes "64")
unfolding read_uint_le read_raw request await pick raw_response payload ◌>>=◌ give read_command
    from_hex from_le split int_auto strip
read_runs = refl

timeout_runs :
    (request scripted (codes "r;0x5721;1;raw;False") (start [])).0
    ≡ err (splitter_timeout (codes "r;0x5721;1;raw;False"))
unfolding request await pick
timeout_runs = refl

-- Blanks between the bytes are counted as digits, and three bytes pass for the four asked for.
blanks_run : raw_response 0x7570 4 (codes "1;0x7570;01 02 03") ≡ ok (codes "01 02 03")
unfolding raw_response payload split int_auto strip from_hex
blanks_run = refl

read_uint_le-Reading_example :
    ((response : Text) × ((request scripted (read_command 0x5721 1) (start shared)).0 ≡ ok response)
      × Carries 0x5721 (codes "64") response)
    × StandsFor 1 100 (codes "64")
read_uint_le-Reading_example =
    read_uint_le-Reading scripted 0x5721 1 (start shared) 100 (codes "64") read_runs

request-Answer_example :
    ((r : Text)
      → (request scripted (codes "r;0x5721;1;raw;False") (start shared)).0 ≡ ok r
      → is_answer (command_addr (codes "r;0x5721;1;raw;False")) r ≡ true)
    × ((old : List Text)
        → request scripted
            (codes "r;0x5721;1;raw;False")
            (record (start shared) { responses = old })
          ≡ request scripted (codes "r;0x5721;1;raw;False") (start shared))
request-Answer_example = request-Answer scripted (codes "r;0x5721;1;raw;False") (start shared)

answer_runs : is_answer (command_addr (codes "r;0x5721;1;raw;False")) (codes "1;0x5721;64") ≡ true
unfolding split int_auto strip
answer_runs = refl

request_finds_example :
    (r : Text) × ((request scripted (codes "r;0x5721;1;raw;False") (start shared)).0 ≡ ok r)
request_finds_example =
    request_finds scripted (codes "r;0x5721;1;raw;False") (start shared) 1 refl (omega arith)
      (omega arith) (inl answer_runs)

-- the write is refused, the old value is put back
abbrev refusing : List (List Text)
refusing =
    one (codes "1;0x5721;5")
    ∷ one (codes "1;0x5721;03")
    ∷ one (codes "1;0x5721;3")
    ∷ one (codes "1;0x5721;03")
    ∷ []

write_verify_byte-IsVerified_example :
    IsVerified scripted 0x5721 5
      (some 3)
      (start refusing)
      (write_verify_byte scripted 0x5721 (pos 5) (some 3) (start refusing)).0
      (write_verify_byte scripted 0x5721 (pos 5) (some 3) (start refusing)).1
write_verify_byte-IsVerified_example =
    write_verify_byte-IsVerified scripted 0x5721 5 (some 3) (start refusing) (omega arith)
      (λ o e. ground arith)

abbrev pub status_answers : List (List Text)
status_answers =
    one (codes "1;0x5721;00")
    ∷ one (codes "1;0x5723;0c")
    ∷ one (codes "1;0x5724;01")
    ∷ one (codes "1;0x756C;01000000")
    ∷ one (codes "1;0x7570;02000000")
    ∷ one (codes "1;0x08A7;10000000")
    ∷ one (codes "1;0x088A;05000000")
    ∷ []

abbrev reset_answers : List (List Text)
reset_answers =
    status_answers
    ++ one (codes "1;0x5724;1")
      ∷ one (codes "1;0x5724;01")
      ∷ one (codes "1;0x5724;0")
      ∷ one (codes "1;0x5724;00")
      ∷ status_answers

reset_operation-IsRestored_example :
    IsRestored scripted
      (start reset_answers)
      (reset_operation scripted (start reset_answers)).0
      (reset_operation scripted (start reset_answers)).1
reset_operation-IsRestored_example = reset_operation-IsRestored scripted (start reset_answers)

abbrev scripted_access : Access (List (List Text))
scripted_access = record {
  broker = scripted;
  listen_set = true;
  respond_set = true;
  open_client = λ w. (true, w);
  close_client = λ w. w;
}

abbrev idle_host : List (List Text) → Host (List (List Text))
idle_host w = record { world = w; locked = false; connected = false; sent = [] }

serve-Allowed_example :
    Grows
      (Allowed (ask_reset true))
      []
      (serve scripted_access (ask_reset true) (idle_host reset_answers)).sent
serve-Allowed_example = serve-Allowed scripted_access (ask_reset true) (idle_host reset_answers)

with_session-Released_example :
    ((false ≡ true)
      × (with_session scripted_access (reset_operation scripted) (idle_host reset_answers)
          ≡ (err busy, idle_host reset_answers)))
    ⊎ (((with_session scripted_access (reset_operation scripted) (idle_host reset_answers)).1.locked
          ≡ false)
        × ((with_session scripted_access
              (reset_operation scripted)
              (idle_host reset_answers)).1.connected
            ≡ false)
        × (((e : MaintenanceError) × ((with_session scripted_access
                  (reset_operation scripted)
                  (idle_host reset_answers)).0
                ≡ err e)
              × ((connect scripted_access (record (idle_host reset_answers) { locked = true })).0
                  ≡ err e))
            ⊎ ((s : Session (List (List Text))) × ((connect scripted_access
                    (record (idle_host reset_answers) { locked = true })).0
                  ≡ ok s)
                × ((with_session scripted_access
                      (reset_operation scripted)
                      (idle_host reset_answers)).0
                    ≡ (reset_operation scripted s).0))))
with_session-Released_example =
    with_session-Released scripted_access (reset_operation scripted) (idle_host reset_answers) refl

reset_runs : (serve scripted_access (ask_reset true) (idle_host reset_answers)).world ≡ []
unfolding serve reset_maintenance with_session in_session connect reset_operation enter_state
    leave_state conclude snapshot write_byte read_uint_le read_raw request await pick raw_response
    payload ◌>>=◌ give raise lift attempt first_do read_command write_command from_hex from_le split
    int_auto strip
reset_runs = refl

locked_runs :
    (set_hours scripted_access (pos 1000) true true (record (idle_host []) { locked = true })).0
    ≡ err busy
unfolding set_hours with_session
locked_runs = refl
