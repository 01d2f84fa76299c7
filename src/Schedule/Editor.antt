-- ===== src/Schedule/Editor.antt =====
-- The editor of a day in tools/optolink-schedule-manager.py: `editor_slots_from_intervals`,
-- `editor_schedule_from_slots`, `time_plus_minutes`, `normalize_editor_time`, `editor_time_state` and
-- `default_editor_interval`.
pub mod State
pub mod Actions
pub mod Gaps
pub mod Free
pub mod Slots
pub mod Steps
pub mod Walk
pub mod Kept
pub mod Drafts
pub mod Applied
pub mod Reloaded
use optolink.Base.{
  ℕ, zero, suc, ◌+◌, ◌-◌, ◌*◌, ◌/◌, ◌%◌, Bool, true, false, ◌&&◌, ◌||◌, Option, none, some, List,
  [], ◌∷◌, ◌++◌, ltb, leb, ◌==◌, if◌then◌else◌,
}
use optolink.Base.Result.{Result, ok, err, ◌>>=◌}
use optolink.Text.{Text, codes, same_text, strip}
use optolink.Schedule.Times.{
  ScheduleError, Time, time, Window, is_digit, show_time, to_minutes, parse_schedule,
}
use optolink.Schedule.Blocks.{show_window, join, canonical_schedule}
use optolink.Schedule.Manager.{LinkError}

-- What is raised in the editor.
pub data EditorError : Type 0 where
  no_target bad_target incomplete no_free_window : EditorError
  bad_time : ScheduleError → EditorError
  link : LinkError → EditorError

-- a slot `[start, end]`
abbrev pub Slot : Type 0
Slot = Option Time × Option Time

abbrev pub off : Slot
off = (none, none)

abbrev pub slots_of : ℕ → List Window → List Slot
slots_of zero ws = []
slots_of (suc n) [] = off ∷ slots_of n []
slots_of (suc n) (w ∷ ws) = (some w.0, some w.1) ∷ slots_of n ws

-- `editor_slots_from_intervals`
abbrev pub editor_slots_from_intervals : List Window → List Slot
editor_slots_from_intervals = slots_of 4

-- the loop of `editor_schedule_from_slots`
abbrev pub slot_parts : List Slot → Result EditorError (List Text)
slot_parts [] = ok []
slot_parts ((none, none) ∷ slots) = slot_parts slots
slot_parts ((some start, some end) ∷ slots) =
    slot_parts slots >>= λ parts. ok (show_window (start, end) ∷ parts)
slot_parts (_ ∷ slots) = err incomplete

-- `",".join(parts) if parts else "none"`
abbrev pub payload_of : List Text → Text
payload_of [] = codes "none"
payload_of (p ∷ ps) = join (p ∷ ps)

abbrev pub editor_windows : Result ScheduleError (List Window) → Result EditorError Text
editor_windows (err e) = err (bad_time e)
editor_windows (ok intervals) = ok (canonical_schedule intervals)

-- `editor_schedule_from_slots`
unfoldable pub editor_schedule_from_slots : List Slot → Result EditorError Text
unfolding parse_schedule canonical_schedule
editor_schedule_from_slots slots =
    slot_parts slots >>= λ parts. editor_windows (parse_schedule (payload_of parts))

abbrev pub min_of : ℕ → ℕ → ℕ
min_of a b = if leb a b then a else b

abbrev pub max_of : ℕ → ℕ → ℕ
max_of a b = if leb a b then b else a

-- `divmod(minutes, 60)`
abbrev pub at_minutes : ℕ → Time
at_minutes m = time (m / 60) (m % 60)

-- `time_plus_minutes`, with what is added and what is taken away
unfoldable pub time_plus_minutes : Bool → ℕ → ℕ → Time → Time
time_plus_minutes allow_24 plus minus t =
    let minutes = min_of 1440 (to_minutes t + plus - minus) in
    if minutes == 1440 then if allow_24 then time 24 0 else at_minutes 1430 else at_minutes minutes

-- seconds are cut off from a text `HH:MM:SS`
abbrev pub cut_seconds : Text → Text
cut_seconds (a ∷ b ∷ c ∷ d ∷ e ∷ f ∷ g ∷ h ∷ []) =
    if is_digit a
      && is_digit b
      && c == b':'
      && is_digit d
      && is_digit e
      && f == b':'
      && is_digit g
      && is_digit h
    then a ∷ b ∷ c ∷ d ∷ e ∷ []
    else a ∷ b ∷ c ∷ d ∷ e ∷ f ∷ g ∷ h ∷ []
cut_seconds value = value

-- the two groups of `(\d{2}):(\d{2})`, as numbers
abbrev pub clock_groups : Text → Option (ℕ × ℕ)
clock_groups (a ∷ b ∷ c ∷ d ∷ e ∷ []) =
    if is_digit a && is_digit b && c == b':' && is_digit d && is_digit e
    then some ((a - 48) * 10 + (b - 48), (d - 48) * 10 + (e - 48))
    else none
clock_groups _ = none

-- the time of minutes rounded to tens, kept within the day
abbrev pub rounded_time : Bool → ℕ → Time
rounded_time false rounded = at_minutes (min_of rounded 1430)
rounded_time true rounded =
    if leb 1440 rounded
    then time 24 0
    else if rounded == 0
    then at_minutes 10
    else at_minutes rounded

abbrev pub normalized : Bool → Text → Option (ℕ × ℕ) → Text
normalized end value none = value
normalized end value (some (hour, minute)) =
    if ltb 23 hour || ltb 59 minute
    then value
    else show_time (rounded_time end ((hour * 60 + minute + 5) / 10 * 10))

-- `normalize_editor_time`
unfoldable pub normalize_editor_time : Bool → Text → Text
unfolding strip
normalize_editor_time end text =
    let value = cut_seconds (strip text) in
    if end && same_text value (codes "00:00")
    then codes "24:00"
    else normalized end value (clock_groups value)

-- `editor_time_state`
abbrev pub editor_time_state : Bool → Option Time → Text
editor_time_state end none = if end then codes "01:00:00" else codes "00:00:00"
editor_time_state end (some t) =
    if end && same_text (show_time t) (codes "24:00")
    then codes "00:00:00"
    else show_time t ++ codes ":00"

-- the minutes of a complete slot
abbrev pub occupied_minutes : Slot → List (ℕ × ℕ)
occupied_minutes (some start, some end) = (to_minutes start, to_minutes end) ∷ []
occupied_minutes _ = []

abbrev pub occupied : List Slot → List (ℕ × ℕ)
occupied [] = []
occupied (s ∷ slots) = occupied_minutes s ++ occupied slots

-- the complete slots other than the one at the index
abbrev pub others : ℕ → List Slot → List (ℕ × ℕ)
others n [] = []
others zero (s ∷ slots) = occupied slots
others (suc n) (s ∷ slots) = occupied_minutes s ++ others n slots

-- the order of pairs
abbrev pub is_before : ℕ × ℕ → ℕ × ℕ → Bool
is_before (a, b) (c, d) = ltb a c || a == c && leb b d

abbrev pub insert : ℕ × ℕ → List (ℕ × ℕ) → List (ℕ × ℕ)
insert p [] = p ∷ []
insert p (q ∷ qs) = let rest = insert p qs in if is_before p q then p ∷ q ∷ qs else q ∷ rest

-- `occupied.sort()`
abbrev pub sort : List (ℕ × ℕ) → List (ℕ × ℕ)
sort [] = []
sort (p ∷ ps) = insert p (sort ps)

abbrev pub slot_at : ℕ → List Slot → Slot
slot_at n [] = off
slot_at zero (s ∷ slots) = s
slot_at (suc n) (s ∷ slots) = slot_at n slots

-- six o'clock, or the end of the slot before
abbrev pub minutes_or_six : Option Time → ℕ
minutes_or_six none = 360
minutes_or_six (some t) = to_minutes t

abbrev pub preferred : ℕ → List Slot → ℕ
preferred zero slots = 360
preferred (suc n) slots = minutes_or_six (slot_at n slots).1

-- the loop that finds the gaps from `cursor` on
abbrev pub gaps : ℕ → List (ℕ × ℕ) → List (ℕ × ℕ)
gaps cursor [] = if ltb cursor 1440 then (cursor, 1440) ∷ [] else []
gaps cursor ((start, end) ∷ os) =
    let rest = gaps (max_of cursor end) os in
    if ltb cursor start then (cursor, start) ∷ rest else rest

abbrev pub candidates : ℕ → List (ℕ × ℕ) → List (ℕ × ℕ)
candidates from [] = []
candidates from ((gap_start, gap_end) ∷ gs) =
    let rest = candidates from gs in
    if ltb (max_of gap_start from) gap_end then (max_of gap_start from, gap_end) ∷ rest else rest

-- `if not candidates: candidates = gaps`
abbrev pub or_gaps : List (ℕ × ℕ) → List (ℕ × ℕ) → List (ℕ × ℕ)
or_gaps [] gs = gs
or_gaps (c ∷ cs) gs = c ∷ cs

abbrev pub end_time : ℕ → Time
end_time m = if m == 1440 then time 24 0 else at_minutes m

-- the first of the candidates that has ten minutes
abbrev pub first_fit : List (ℕ × ℕ) → Result EditorError Window
first_fit [] = err no_free_window
first_fit ((start, gap_end) ∷ cs) =
    let rest = first_fit cs in
    if leb 10 (gap_end - start)
    then ok (at_minutes start, end_time (min_of (start + 60) gap_end))
    else rest

-- `default_editor_interval`
unfoldable pub default_editor_interval : List Slot → ℕ → Result EditorError Window
default_editor_interval slots slot =
    let gs = gaps 0 (sort (others slot slots)) in
    first_fit (or_gaps (candidates (preferred slot slots) gs) gs)
