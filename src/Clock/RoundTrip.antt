-- ===== src/Clock/RoundTrip.antt =====
-- A time that is encoded for the controller is read back from the controller's bytes.
use optolink.Base.{
  ℕ, ◌+◌, ◌*◌, ◌/◌, ◌%◌, ◌≤◌, ◌<◌, ◌≡◌, ◌≢◌, refl, ap, true, false, ◌&&◌, ◌||◌, not, List, [], ◌∷◌,
  arith, ltb, leb, if_elim, All, length,
}
use optolink.Base.Result.{Result, ok, ◌>>=◌}
use optolink.Text.Hex.{IsByte}
use optolink.Clock.{
  ClockError, DateTime, is_datetime, days_in_month, isoweekday, bcd_encode, bcd_decode,
  encode_system_time, make_datetime, decode_system_time,
}

-- the byte of a number of two digits
abbrev packed : ℕ → ℕ
packed v = v / 10 * 16 + v % 10

bcd_encode_lem : (v : ℕ) → v ≤ 99 → bcd_encode v ≡ ok (packed v)
unfolding bcd_encode
bcd_encode_lem v h = ground arith

both : (m n : ℕ) → m ≤ 9 → n ≤ 9 → (ltb 9 m || ltb 9 n) ≢ true
both m n hm hn x = ground arith

bcd_decode_lem : (v : ℕ) → v ≤ 99 → bcd_decode (packed v) ≡ ok v
unfolding bcd_decode
bcd_decode_lem v h =
    let a : packed v / 16 % 16 ≡ v / 10 = omega (arith, h) in
    let b : packed v % 16 ≡ v % 10 = omega (arith, h) in
    if_elim {A = Result ClockError ℕ} (λ r. r ≡ ok v)
      (ltb 9 (packed v / 16 % 16) || ltb 9 (packed v % 16))
      (λ x.
        absurd
          (both (packed v / 16 % 16) (packed v % 16) (omega (arith, a, h)) (omega (arith, b)) x))
      (λ _. ap (λ n. ok n) (omega (arith, a, b)))

packed-IsByte : (v : ℕ) → v ≤ 99 → packed v < 256
packed-IsByte v h = omega (arith, h)

days_bound : (y m : ℕ) → days_in_month y m ≤ 31
days_bound y m = ground arith

-- the bounds of a date that the encoding needs
abbrev IsBounded : DateTime → Type 0
IsBounded t =
    (t.year ≤ 9999)
    × (t.month ≤ 12)
    × (t.day ≤ 31)
    × (t.hour ≤ 23)
    × (t.minute ≤ 59)
    × (t.second ≤ 59)

bounded :
    (y mo d h mi s n : ℕ)
    → n ≤ 31
    → ((leb 1 y && leb y 9999)
        && ((leb 1 mo && leb mo 12)
            && ((leb 1 d && leb d n) && (leb h 23 && (leb mi 59 && leb s 59)))))
      ≡ true
    → (y ≤ 9999) × (mo ≤ 12) × (d ≤ 31) × (h ≤ 23) × (mi ≤ 59) × (s ≤ 59)
bounded y mo d h mi s n b x =
    (ground arith, ground arith, ground arith, ground arith, ground arith, ground arith)

is_datetime-IsBounded : (t : DateTime) → is_datetime t ≡ true → IsBounded t
unfolding is_datetime
is_datetime-IsBounded t h =
    bounded t.year t.month t.day t.hour t.minute t.second (days_in_month t.year t.month)
      (days_bound t.year t.month) h

weekday_lem : (t : DateTime) → (1 ≤ isoweekday t) × (isoweekday t ≤ 7)
unfolding isoweekday
weekday_lem t = (omega arith, omega arith)

-- the eight bytes of a time
abbrev block : DateTime → List ℕ
block t =
    packed (t.year / 100)
    ∷ packed (t.year % 100)
    ∷ packed t.month
    ∷ packed t.day
    ∷ isoweekday t
    ∷ packed t.hour
    ∷ packed t.minute
    ∷ packed t.second
    ∷ []

encoded : (t : DateTime) → IsBounded t → encode_system_time t ≡ ok (block t)
unfolding encode_system_time
encoded t (y, mo, d, h, mi, s) =
    let century = bcd_encode_lem (t.year / 100) (omega (arith, y)) in
    let year = bcd_encode_lem (t.year % 100) (omega arith) in
    let month = bcd_encode_lem t.month (omega (arith, mo)) in
    let day = bcd_encode_lem t.day (omega (arith, d)) in
    let hour = bcd_encode_lem t.hour (omega (arith, h)) in
    let minute = bcd_encode_lem t.minute (omega (arith, mi)) in
    let second = bcd_encode_lem t.second (omega (arith, s)) in
    rw (century, year, month, day, hour, minute, second) refl

make_datetime_lem : (t : DateTime) → is_datetime t ≡ true → make_datetime t ≡ ok t
unfolding make_datetime
make_datetime_lem t h =
    if_elim {A = Result ClockError DateTime} (λ r. r ≡ ok t) (is_datetime t) (λ _. refl)
      (λ x. absurd cc)

weekday_test : (w : ℕ) → 1 ≤ w → w ≤ 7 → not (leb 1 w && leb w 7) ≡ false
weekday_test w a b = ground arith

decoded :
    (t : DateTime)
    → IsBounded t
    → is_datetime t ≡ true
    → decode_system_time (block t) ≡ ok (t, isoweekday t)
unfolding decode_system_time
decoded t (y, mo, d, h, mi, s) valid =
    let century = bcd_decode_lem (t.year / 100) (omega (arith, y)) in
    let year = bcd_decode_lem (t.year % 100) (omega arith) in
    let month = bcd_decode_lem t.month (omega (arith, mo)) in
    let day = bcd_decode_lem t.day (omega (arith, d)) in
    let hour = bcd_decode_lem t.hour (omega (arith, h)) in
    let minute = bcd_decode_lem t.minute (omega (arith, mi)) in
    let second = bcd_decode_lem t.second (omega (arith, s)) in
    let whole : t.year / 100 * 100 + t.year % 100 ≡ t.year = omega arith in
    let in_week = weekday_test (isoweekday t) (weekday_lem t).0 (weekday_lem t).1 in
    rw (in_week, century, year, month, day, hour, minute, second, whole)
      (ap (λ r. r >>= λ u. ok (u, isoweekday t)) (make_datetime_lem t valid))

-- Each valid time up to the year 9999 is encoded, in eight bytes, and `decode_system_time` reads these
-- back as the same time with its weekday: the two functions agree on the order and form of the fields.
pub decode_system_time-encode_system_time :
    (t : DateTime)
    → is_datetime t ≡ true
    → (raw : List ℕ) × (encode_system_time t ≡ ok raw)
      × (length raw ≡ 8)
      × All IsByte raw
      × (decode_system_time raw ≡ ok (t, isoweekday t))
decode_system_time-encode_system_time t valid =
    let b = is_datetime-IsBounded t valid in
    (block t, encoded t b, refl, bytes t b, decoded t b valid)
  where
    bytes : (t : DateTime) → IsBounded t → All IsByte (block t)
    bytes t (y, mo, d, h, mi, s) = (
      packed-IsByte (t.year / 100) (omega (arith, y)),
      (
        packed-IsByte (t.year % 100) (omega arith),
        (
          packed-IsByte t.month (omega (arith, mo)),
          (
            packed-IsByte t.day (omega (arith, d)),
            (
              omega (arith, (weekday_lem t).1),
              (
                packed-IsByte t.hour (omega (arith, h)),
                (
                  packed-IsByte t.minute (omega (arith, mi)),
                  (packed-IsByte t.second (omega (arith, s)), tt),
                ),
              ),
            ),
          ),
        ),
      ),
    )
