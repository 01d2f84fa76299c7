-- ===== src/Clock.antt =====
-- tools/optolink-clock-sync.py: the controller's time as eight bytes, `bcd_encode`, `bcd_decode`,
-- `encode_system_time` and `decode_system_time`, with what they use of Python's `datetime`.
pub mod RoundTrip
pub mod Sync
use optolink.Base.{
  ℕ, zero, suc, ◌+◌, ◌-◌, ◌*◌, ◌/◌, ◌%◌, Bool, ◌&&◌, ◌||◌, not, List, [], ◌∷◌, ltb, leb, ◌==◌,
  if◌then◌else◌,
}
use optolink.Base.Result.{Result, ok, err, ◌>>=◌}

-- the `ValueError`s
pub data ClockError : Type 0 where
  bcd_range : ClockError
  bad_bcd : ClockError
  bad_size : ClockError
  bad_weekday : ClockError
  bad_date : ClockError

-- a `datetime` without fractions of a second
pub record DateTime : Type 0 where
  pub year : ℕ
  pub month : ℕ
  pub day : ℕ
  pub hour : ℕ
  pub minute : ℕ
  pub second : ℕ

abbrev pub is_leap : ℕ → Bool
is_leap y = y % 4 == 0 && (not (y % 100 == 0) || y % 400 == 0)

abbrev pub days_in_month : ℕ → ℕ → ℕ
days_in_month y m =
    if m == 2
    then (if is_leap y then 29 else 28)
    else if m == 4 || (m == 6 || (m == 9 || m == 11))
    then 30
    else 31

-- what the constructor of `datetime` accepts
unfoldable pub is_datetime : DateTime → Bool
is_datetime t =
    (leb 1 t.year && leb t.year 9999)
    && ((leb 1 t.month && leb t.month 12)
        && ((leb 1 t.day && leb t.day (days_in_month t.year t.month))
            && (leb t.hour 23 && (leb t.minute 59 && leb t.second 59))))

-- the days of the months before the `m`th
unfoldable pub days_before : ℕ → ℕ → ℕ
days_before y zero = 0
days_before y (suc zero) = 0
days_before y (suc (suc m)) = days_before y (suc m) + days_in_month y (suc m)

-- `value.isoweekday()`: 1 for Monday; the first day of the year 1 was one
unfoldable pub isoweekday : DateTime → ℕ
unfolding days_before
isoweekday t =
    let y = t.year - 1 in
    (y * 365 + y / 4 - y / 100 + y / 400 + days_before t.year t.month + t.day + 6) % 7 + 1

-- `bcd_encode` of a number that is not negative
unfoldable pub bcd_encode : ℕ → Result ClockError ℕ
bcd_encode v = if ltb 99 v then err bcd_range else ok (v / 10 * 16 + v % 10)

-- `bcd_decode`
unfoldable pub bcd_decode : ℕ → Result ClockError ℕ
bcd_decode v =
    let high = v / 16 % 16 in
    let low = v % 16 in if ltb 9 high || ltb 9 low then err bad_bcd else ok (high * 10 + low)

-- `encode_system_time`
unfoldable pub encode_system_time : DateTime → Result ClockError (List ℕ)
unfolding bcd_encode isoweekday
encode_system_time t = bcd_encode (t.year / 100) >>= λ century.
    bcd_encode (t.year % 100) >>= λ year. bcd_encode t.month >>= λ month.
    bcd_encode t.day >>= λ day. bcd_encode t.hour >>= λ hour. bcd_encode t.minute >>= λ minute.
    bcd_encode t.second >>= λ second.
    ok (century ∷ year ∷ month ∷ day ∷ isoweekday t ∷ hour ∷ minute ∷ second ∷ [])

-- the constructor of `datetime`
unfoldable pub make_datetime : DateTime → Result ClockError DateTime
unfolding is_datetime
make_datetime t = if is_datetime t then ok t else err bad_date

-- `decode_system_time`
unfoldable pub decode_system_time : List ℕ → Result ClockError (DateTime × ℕ)
unfolding bcd_decode make_datetime
decode_system_time (c ∷ y ∷ mo ∷ d ∷ weekday ∷ h ∷ mi ∷ s ∷ []) =
    if not (leb 1 weekday && leb weekday 7)
    then err bad_weekday
    else bcd_decode c >>= λ century. bcd_decode y >>= λ year. bcd_decode mo >>= λ month.
        bcd_decode d >>= λ day. bcd_decode h >>= λ hour. bcd_decode mi >>= λ minute.
        bcd_decode s >>= λ second.
        make_datetime (record {
          year = century * 100 + year;
          month = month;
          day = day;
          hour = hour;
          minute = minute;
          second = second;
        })
        >>= λ t. ok (t, weekday)
decode_system_time _ = err bad_size
