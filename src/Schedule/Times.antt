-- ===== src/Schedule/Times.antt =====
-- `parse_time`, `to_minutes`, `encode_time`, `decode_time_byte` and `parse_schedule`. A canonical text
-- `HH:MM` is kept as its two numbers, and `show_time` prints it.
use optolink.Base.{
  ℕ, ◌+◌, ◌-◌, ◌*◌, ◌/◌, ◌%◌, Bool, true, false, ◌&&◌, ◌||◌, not, Option, none, some, List, [], ◌∷◌,
  ◌++◌, map, ltb, leb, ◌==◌, if◌then◌else◌, length,
}
use optolink.Base.Result.{Result, ok, err, ◌>>=◌}
use optolink.Text.{Text, codes, same_text, split, strip, lower}

-- the `ValueError`s, by what is wrong
pub data ScheduleError : Type 0 where
  not_a_time : ScheduleError
  hour_out_of_range : ScheduleError
  bad_minute : ScheduleError
  empty_payload : ScheduleError
  too_many_windows : ScheduleError
  not_a_window : ScheduleError
  start_not_before_end : ScheduleError
  overlapping : ScheduleError
  bad_byte : ScheduleError
  bad_length : ScheduleError
  half_empty_slot : ScheduleError
  start_at_24 : ScheduleError

pub record Time : Type 0 where
  pub hour : ℕ
  pub minute : ℕ

abbrev pub time : ℕ → ℕ → Time
time h m = record { hour = h; minute = m }

-- a time window
abbrev pub Window : Type 0
Window = Time × Time

abbrev pub is_digit : ℕ → Bool
is_digit c = leb 48 c && leb c 57

-- the two groups of `(\d{1,2}):(\d{2})`, as numbers
abbrev pub time_groups : Text → Option (ℕ × ℕ)
time_groups (a ∷ colon ∷ c ∷ d ∷ []) =
    if is_digit a && (colon == b':' && (is_digit c && is_digit d))
    then some (a - 48, (c - 48) * 10 + (d - 48))
    else none
time_groups (a ∷ b ∷ colon ∷ c ∷ d ∷ []) =
    if is_digit a && (is_digit b && (colon == b':' && (is_digit c && is_digit d)))
    then some ((a - 48) * 10 + (b - 48), (c - 48) * 10 + (d - 48))
    else none
time_groups _ = none

-- the tests of `parse_time` on the two numbers
abbrev pub check_time : Bool → ℕ → ℕ → Result ScheduleError Time
check_time allow_24 h m =
    if allow_24 && (h == 24 && m == 0)
    then ok (time 24 0)
    else if ltb 23 h
    then err hour_out_of_range
    else if not (m % 10 == 0 && leb m 50)
    then err bad_minute
    else ok (time h m)

abbrev pub parsed : Bool → Option (ℕ × ℕ) → Result ScheduleError Time
parsed allow_24 none = err not_a_time
parsed allow_24 (some (h, m)) = check_time allow_24 h m

-- `parse_time`
unfoldable pub parse_time : Bool → Text → Result ScheduleError Time
unfolding strip
parse_time allow_24 value = parsed allow_24 (time_groups (strip value))

-- the format `02d` of a number below a hundred
abbrev pub two_digits : ℕ → Text
two_digits n = (48 + n / 10) ∷ (48 + n % 10) ∷ []

abbrev pub show_time : Time → Text
show_time t = two_digits t.hour ++ b':' ∷ two_digits t.minute

abbrev pub to_minutes : Time → ℕ
to_minutes t = t.hour * 60 + t.minute

-- `encode_time`, on a text
unfoldable pub encode_time : Bool → Text → Result ScheduleError ℕ
unfolding parse_time
encode_time allow_24 value = parse_time allow_24 value >>= λ t. ok (t.hour * 8 + t.minute / 10)

-- `decode_time_byte`; the byte FF is no time
unfoldable pub decode_time_byte : ℕ → Result ScheduleError (Option Time)
decode_time_byte v =
    if v == 255
    then ok none
    else if v / 8 == 24 && v % 8 == 0
    then ok (some (time 24 0))
    else if ltb 23 (v / 8) || ltb 5 (v % 8)
    then err bad_byte
    else ok (some (time (v / 8) (v % 8 * 10)))

-- the en dash and the em dash are read as hyphens
abbrev pub hyphen : ℕ → ℕ
hyphen c = if c == 8211 || c == 8212 then b'-' else c

abbrev pub is_empty : Text → Bool
is_empty [] = true
is_empty (_ ∷ _) = false

-- `[part.strip() for part in … if part.strip()]`
unfoldable pub stripped_parts : List Text → List Text
unfolding strip
stripped_parts [] = []
stripped_parts (p ∷ ps) =
    let rest = stripped_parts ps in if is_empty (strip p) then rest else strip p ∷ rest

-- the last tests of the loop's body, given where the previous window ended
abbrev pub check_window : ℕ → Time → Time → Result ScheduleError Window
check_window previous start end =
    if leb (to_minutes end) (to_minutes start)
    then err start_not_before_end
    else if ltb (to_minutes start) previous
    then err overlapping
    else ok (start, end)

-- the loop's body on the pieces between hyphens, of which there must be two
abbrev pub window_of : ℕ → List Text → Result ScheduleError Window
window_of previous (s ∷ e ∷ []) = parse_time false (strip s) >>= λ start.
    parse_time true (strip e) >>= λ end. check_window previous start end
window_of previous _ = err not_a_window

-- The loop of `parse_schedule`. The source begins with -1 for the end of the previous window, which no
-- start is below, as none is below 0.
unfoldable pub windows : ℕ → List Text → Result ScheduleError (List Window)
unfolding parse_time split
windows previous [] = ok []
windows previous (part ∷ parts) = window_of previous (split b'-' part) >>= λ w.
    windows (to_minutes w.1) parts >>= λ ws. ok (w ∷ ws)

-- `parse_schedule` behind `strip`
abbrev pub schedule_of : Text → Result ScheduleError (List Window)
schedule_of value =
    if is_empty value
    then err empty_payload
    else if same_text (lower value) (codes "none")
    then ok []
    else let parts = stripped_parts (split b',' (map hyphen value)) in
      if ltb 4 (length parts) then err too_many_windows else windows 0 parts

-- `parse_schedule`
unfoldable pub parse_schedule : Text → Result ScheduleError (List Window)
unfolding windows stripped_parts
parse_schedule payload = schedule_of (strip payload)
