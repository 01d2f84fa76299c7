-- ===== src/Tests/Clock.antt =====
-- optolink-clock-sync.py at a Thursday.
use optolink.Base.{ℕ, ◌≡◌, ◌≤◌, refl, true, false, List, [], ◌∷◌, length, All}
use optolink.Base.Effect.{give, ◌>>=◌, demand}
use optolink.Base.Result.{ok, err, OnOk}
use optolink.Text.{Text, codes, split, strip, lstrip, rstrip, int_auto}
use optolink.Text.Hex.{from_hex, from_hex_held}
use optolink.Schedule.Manager.{search_answer}
use optolink.Clock.Sync.{
  Host, Session, of_result, now, listen, request, read_clock, publish_status, synchronize,
}
use optolink.Clock.Sync.Requests.{writes}
use optolink.Clock.Sync.Confirmed.{IsReport, synchronize-IsReport}
use optolink.Text.Hex.{IsByte}
use optolink.Clock.{
  DateTime, bad_date, is_datetime, days_before, isoweekday, bcd_encode, bcd_decode, make_datetime,
  encode_system_time, decode_system_time,
}
use optolink.Clock.RoundTrip.{decode_system_time-encode_system_time}

abbrev leap_day : DateTime
leap_day = record { year = 2024; month = 2; day = 29; hour = 23; minute = 59; second = 7 }

valid_runs : is_datetime leap_day ≡ true
unfolding is_datetime
valid_runs = refl

encode_runs :
    encode_system_time leap_day ≡ ok (0x20 ∷ 0x24 ∷ 0x02 ∷ 0x29 ∷ 4 ∷ 0x23 ∷ 0x59 ∷ 0x07 ∷ [])
unfolding encode_system_time bcd_encode isoweekday days_before
encode_runs = refl

no_leap_day_runs :
    decode_system_time (0x20 ∷ 0x23 ∷ 0x02 ∷ 0x29 ∷ 4 ∷ 0x23 ∷ 0x59 ∷ 0x07 ∷ []) ≡ err bad_date
unfolding decode_system_time bcd_decode make_datetime is_datetime
no_leap_day_runs = refl

decode_system_time-encode_system_time_example :
    (raw : List ℕ) × (encode_system_time leap_day ≡ ok raw)
    × (length raw ≡ 8)
    × All IsByte raw
    × (decode_system_time raw ≡ ok (leap_day, isoweekday leap_day))
decode_system_time-encode_system_time_example =
    decode_system_time-encode_system_time leap_day valid_runs

-- a controller that answers each command with the same text, and a host whose clock stands
abbrev answering : Text → Host (Unit {0})
answering answer = record {
  publish = λ c w. (true, w);
  publish_status = λ st w. (true, w);
  waits = λ w. 1;
  hear = λ w. (answer ∷ [], w);
  pause = λ d w. w;
  now = λ w. (leap_day, w);
}

abbrev at_rest : Session (Unit {0})
at_rest = record { world = tt; responses = []; sent = []; statuses = [] }

abbrev on_time : Text
on_time = codes "1;2190;2024022904235907"

checks_only : (synchronize (answering on_time) 30 false true at_rest).0 ≡ ok true
unfolding synchronize read_clock request listen search_answer of_result now publish_status give
    ◌>>=◌ demand decode_system_time bcd_decode make_datetime is_datetime isoweekday days_before
    from_hex from_hex_held split strip lstrip rstrip int_auto
checks_only = refl

synchronize-IsReport_example :
    let r = synchronize (answering on_time) 30 true false at_rest in
    OnOk (λ _. IsReport (answering on_time) 30 true false at_rest r.1) r.0
    × (writes r.1.sent ≤ 1)
    × (false ≡ true → writes r.1.sent ≤ 0)
synchronize-IsReport_example = synchronize-IsReport (answering on_time) 30 true false at_rest
