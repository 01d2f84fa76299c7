-- ===== src/Schedule/RoundTrip.antt =====
-- What `encode_schedule` makes of a payload, `decode_block` reads back.
use optolink.Base.{
  ℕ, zero, suc, ◌+◌, ◌-◌, ◌*◌, ◌/◌, ◌%◌, ◌≤◌, ◌<◌, ◌≡◌, ◌≢◌, refl, ap, ap₂, ◌∙◌, inl, inr, Bool,
  true, false, ◌&&◌, ◌||◌, not, Option, some, List, [], ◌∷◌, ◌++◌, arith, leb, ◌==◌, length,
  length-append, if_elim, All, All-append,
}
use optolink.Base.Result.{Result, ok, ◌>>=◌}
use optolink.Text.{Text, strip, is_blank}
use optolink.Text.Hex.{IsByte}
use optolink.Text.Strip.{IsPlain, strip-plain}
use optolink.Schedule.Times.{
  ScheduleError, Time, Window, time_groups, check_time, parsed, parse_time, to_minutes, show_time,
  encode_time, decode_time_byte, parse_schedule, is_digit, is_empty,
}
use optolink.Schedule.Blocks.{
  encode_windows, blanks, fill, encode_schedule, slot_window, decode_slot, decode_slots,
  decode_block,
}
use optolink.Schedule.Windows.{IsStart, IsEnd, IsSchedule, parse_schedule-IsSchedule}

-- a time of a day or its end, with any minute
abbrev pub IsClock : Time → Type 0
IsClock t = (t.hour ≤ 24) × (t.minute ≤ 59)

-- the byte of a time
abbrev byte_of : Time → ℕ
byte_of t = t.hour * 8 + t.minute / 10

pub IsStart-IsClock : (t : Time) → IsStart t → IsClock t
IsStart-IsClock t h = (omega (arith, h.0), omega (arith, h.2))

pub IsEnd-IsClock : (t : Time) → IsEnd t → IsClock t
IsEnd-IsClock t (inl h) = IsStart-IsClock t h
IsEnd-IsClock t (inr h) = (omega (arith, h.0), omega (arith, h.1))

digit_plain : (n : ℕ) → n < 10 → (is_digit (48 + n) ≡ true) × (is_blank (48 + n) ≡ false)
digit_plain n h = (ground arith, ground arith)

show_time-IsPlain : (t : Time) → IsClock t → IsPlain (show_time t)
show_time-IsPlain t h = (
  (digit_plain (t.hour / 10) (omega (arith, h.0))).1,
  (
    (digit_plain (t.hour % 10) (omega arith)).1,
    (
      refl,
      (
        (digit_plain (t.minute / 10) (omega (arith, h.1))).1,
        ((digit_plain (t.minute % 10) (omega arith)).1, tt),
      ),
    ),
  ),
)

all_four :
    (a b c d : Bool) → a ≡ true → b ≡ true → c ≡ true → d ≡ true → (a && (b && (c && d))) ≢ false
all_four a b c d ha hb hc hd h = ground arith

time_groups-show_time : (t : Time) → IsClock t → time_groups (show_time t) ≡ some (t.hour, t.minute)
time_groups-show_time t h =
    let a = (digit_plain (t.hour / 10) (omega (arith, h.0))).0 in
    let b = (digit_plain (t.hour % 10) (omega arith)).0 in
    let c = (digit_plain (t.minute / 10) (omega (arith, h.1))).0 in
    let d = (digit_plain (t.minute % 10) (omega arith)).0 in
    let e : (48 + t.hour / 10 - 48) * 10 + (48 + t.hour % 10 - 48) ≡ t.hour = omega arith in
    let f : (48 + t.minute / 10 - 48) * 10 + (48 + t.minute % 10 - 48) ≡ t.minute = omega arith in
    if_elim {A = Option (ℕ × ℕ)} (λ o. o ≡ some (t.hour, t.minute)) _
      (λ _. ap₂ (λ x y. some (x, y)) e f) (λ x. absurd (all_four _ _ _ _ a b c d x))

check_time-IsStart : (t : Time) → IsStart t → check_time false t.hour t.minute ≡ ok t
check_time-IsStart t h = ground arith

check_time-IsEnd : (t : Time) → IsEnd t → check_time true t.hour t.minute ≡ ok t
check_time-IsEnd t (inl h) = ground arith
check_time-IsEnd t (inr h) = ground arith

decode_time_byte_lem : (t : Time) → IsEnd t → decode_time_byte (byte_of t) ≡ ok (some t)
unfolding decode_time_byte
decode_time_byte_lem t (inl h) = ground arith
decode_time_byte_lem t (inr h) = ground arith

read_back : (t : Time) → IsClock t → time_groups (strip (show_time t)) ≡ some (t.hour, t.minute)
read_back t h = rw (strip-plain (show_time t) (show_time-IsPlain t h)) (time_groups-show_time t h)

pub parse_time-IsStart : (t : Time) → IsStart t → parse_time false (show_time t) ≡ ok t
unfolding parse_time
parse_time-IsStart t h =
    ap (parsed false) (read_back t (IsStart-IsClock t h)) ∙ check_time-IsStart t h

pub parse_time-IsEnd : (t : Time) → IsEnd t → parse_time true (show_time t) ≡ ok t
unfolding parse_time
parse_time-IsEnd t h = ap (parsed true) (read_back t (IsEnd-IsClock t h)) ∙ check_time-IsEnd t h

encode_time-IsStart : (t : Time) → IsStart t → encode_time false (show_time t) ≡ ok (byte_of t)
unfolding encode_time
encode_time-IsStart t h =
    ap (λ r. r >>= λ u. ok (u.hour * 8 + u.minute / 10)) (parse_time-IsStart t h)

encode_time-IsEnd : (t : Time) → IsEnd t → encode_time true (show_time t) ≡ ok (byte_of t)
unfolding encode_time
encode_time-IsEnd t h = ap (λ r. r >>= λ u. ok (u.hour * 8 + u.minute / 10)) (parse_time-IsEnd t h)

byte_of_bound : (t : Time) → IsClock t → byte_of t < 255
byte_of_bound t h = omega (arith, h.0, h.1)

-- a slot of two bytes that are not FF and decode to a window is that window
decode_slot_lem :
    (s e : Time)
    → IsStart s
    → IsEnd e
    → to_minutes s < to_minutes e
    → decode_slot (byte_of s) (byte_of e) ≡ ok (some (s, e))
unfolding decode_slot
decode_slot_lem s e hs he lt =
    let bs = byte_of_bound s (IsStart-IsClock s hs) in
    let be = byte_of_bound e (IsEnd-IsClock e he) in
    if_elim {A = Result ScheduleError (Option Window)} (λ r. r ≡ ok (some (s, e)))
      (byte_of s == 255 && byte_of e == 255) (λ x. absurd (ground arith))
      λ _.
        if_elim {A = Result ScheduleError (Option Window)} (λ r. r ≡ ok (some (s, e)))
          (byte_of s == 255 || byte_of e == 255) (λ x. absurd (ground arith))
          λ _. rw (decode_time_byte_lem s (inl hs), decode_time_byte_lem e he) (slot s e hs lt)
  where
    slot :
        (s e : Time)
        → IsStart s
        → to_minutes s < to_minutes e
        → (slot_window (some s) (some e) >>= λ w. ok (some w)) ≡ ok (some (s, e))
    slot s e hs lt =
        let P : Result ScheduleError Window → Type 0 =
          λ r. (r >>= λ w. ok (some w)) ≡ ok (some (s, e)) in
        if_elim P (s.hour == 24) (λ x. absurd (ground arith))
          λ _.
            if_elim P (leb (to_minutes e) (to_minutes s)) (λ x. absurd (ground arith)) (λ _. refl)

bytes_of : List Window → List ℕ
bytes_of [] = []
bytes_of ((s, e) ∷ ws) = byte_of s ∷ byte_of e ∷ bytes_of ws

encode_windows_lem :
    (p : ℕ) (ws : List Window) → IsSchedule p ws → encode_windows ws ≡ ok (bytes_of ws)
unfolding encode_windows bytes_of
encode_windows_lem p [] h = refl
encode_windows_lem p ((s, e) ∷ ws) h =
    rw
      (encode_time-IsStart s h.0, encode_time-IsEnd e h.1, encode_windows_lem (to_minutes e) ws h.4)
      refl

decode_blanks : (k : ℕ) → decode_slots (blanks k) ≡ ok []
unfolding decode_slots decode_slot
decode_blanks zero = refl
decode_blanks (suc zero) = refl
decode_blanks (suc (suc k)) = rw (decode_blanks k) refl

decode_slots_lem :
    (p k : ℕ) (ws : List Window) → IsSchedule p ws → decode_slots (bytes_of ws ++ blanks k) ≡ ok ws
unfolding decode_slots bytes_of
decode_slots_lem p k [] h = decode_blanks k
decode_slots_lem p k ((s, e) ∷ ws) h =
    rw (decode_slot_lem s e h.0 h.1 h.3, decode_slots_lem (to_minutes e) k ws h.4) refl

length-bytes_of : (ws : List Window) → length (bytes_of ws) ≡ 2 * length ws
unfolding bytes_of
length-bytes_of [] = refl
length-bytes_of (w ∷ ws) = omega (arith, length-bytes_of ws)

bytes_of-IsByte : (p : ℕ) (ws : List Window) → IsSchedule p ws → All IsByte (bytes_of ws)
unfolding bytes_of
bytes_of-IsByte p [] h = tt
bytes_of-IsByte p ((s, e) ∷ ws) h = (
  omega (arith, byte_of_bound s (IsStart-IsClock s h.0)),
  (omega (arith, byte_of_bound e (IsEnd-IsClock e h.1)), bytes_of-IsByte (to_minutes e) ws h.4),
)

blanks-IsByte : (k : ℕ) → All IsByte (blanks k) × (length (blanks k) ≡ k)
blanks-IsByte zero = (tt, refl)
blanks-IsByte (suc k) = ((omega arith, (blanks-IsByte k).0), ap suc (blanks-IsByte k).1)

-- A payload that is accepted, which is never an empty one, has at most four windows, in order, apart,
-- each from a start to a later end, at minutes of ten. It is encoded: `encode_schedule` raises only what
-- `parse_schedule` raises. The block has eight bytes, and `decode_block` reads it back as the windows of
-- the payload.
pub decode_block-encode_schedule :
    (payload : Text) (ws : List Window)
    → parse_schedule payload ≡ ok ws
    → IsSchedule 0 ws
      × (length ws ≤ 4)
      × (is_empty (strip payload) ≡ false)
      × (raw : List ℕ) × (encode_schedule payload ≡ ok (raw, ws))
      × (length raw ≡ 8)
      × All IsByte raw
      × (decode_block raw ≡ ok ws)
unfolding encode_schedule decode_block
decode_block-encode_schedule payload ws h =
    let (sched, short, full) = parse_schedule-IsSchedule payload ws h in
    let raw = fill (bytes_of ws) in
    let n = length-bytes_of ws in
    let b = blanks-IsByte (8 - length (bytes_of ws)) in
    let len : length raw ≡ 8 =
      length-append (bytes_of ws) (blanks (8 - length (bytes_of ws)))
      ∙ omega (arith, n, b.1, short) in
    (
      sched,
      short,
      full,
      raw,
      encoded payload ws h (encode_windows_lem 0 ws sched),
      len,
      All-append IsByte (bytes_of ws) (blanks (8 - length (bytes_of ws)))
          (bytes_of-IsByte 0 ws sched) b.0,
      if_elim {A = Result ScheduleError (List Window)} (λ r. r ≡ ok ws) (not (length raw == 8))
          (λ x. absurd (ground arith))
          (λ _. decode_slots_lem 0 (8 - length (bytes_of ws)) ws sched),
    )
  where
    encoded :
        (payload : Text) (ws : List Window)
        → parse_schedule payload ≡ ok ws
        → encode_windows ws ≡ ok (bytes_of ws)
        → encode_schedule payload ≡ ok (fill (bytes_of ws), ws)
    encoded payload ws h e =
        ap (λ r. r >>= λ vs. encode_windows vs >>= λ raw. ok (fill raw, vs)) h
        ∙ ap (λ r. r >>= λ raw. ok (fill raw, ws)) e
