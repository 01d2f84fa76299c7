-- ===== src/Schedule/Blocks.antt =====
-- `encode_schedule`, `decode_block` and `canonical_schedule`: the eight bytes of a
-- day and its texts.
use optolink.Base.{
  ℕ, zero, suc, ◌-◌, true, false, ◌&&◌, ◌||◌, not, Option, none, some, List, [], ◌∷◌, ◌++◌, map,
  leb, ◌==◌, if◌then◌else◌, length,
}
use optolink.Base.Result.{Result, ok, err, ◌>>=◌}
use optolink.Text.{Text, codes}
use optolink.Schedule.Times.{
  ScheduleError, bad_length, half_empty_slot, start_at_24, start_not_before_end, Time, Window,
  show_time, to_minutes, encode_time, decode_time_byte, parse_schedule, bad_byte,
}

-- the loop over the intervals of `encode_schedule`
unfoldable pub encode_windows : List Window → Result ScheduleError (List ℕ)
unfolding encode_time
encode_windows [] = ok []
encode_windows ((start, end) ∷ ws) = encode_time false (show_time start) >>= λ s.
    encode_time true (show_time end) >>= λ e. encode_windows ws >>= λ raw. ok (s ∷ e ∷ raw)

abbrev pub blanks : ℕ → List ℕ
blanks zero = []
blanks (suc n) = 255 ∷ blanks n

-- `while len(raw) < 8: raw.append(0xFF)`
abbrev pub fill : List ℕ → List ℕ
fill raw = raw ++ blanks (8 - length raw)

-- `encode_schedule`
unfoldable pub encode_schedule : Text → Result ScheduleError (List ℕ × List Window)
unfolding encode_windows parse_schedule
encode_schedule payload =
    parse_schedule payload >>= λ ws. encode_windows ws >>= λ raw. ok (fill raw, ws)

-- the tests of `decode_block` on the two times of a slot; neither is missing there
abbrev pub slot_window : Option Time → Option Time → Result ScheduleError Window
slot_window (some start) (some end) =
    if start.hour == 24
    then err start_at_24
    else if leb (to_minutes end) (to_minutes start)
    then err start_not_before_end
    else ok (start, end)
slot_window _ _ = err bad_byte

-- a slot of `decode_block`: empty, or a window
unfoldable pub decode_slot : ℕ → ℕ → Result ScheduleError (Option Window)
unfolding decode_time_byte
decode_slot s e =
    if s == 255 && e == 255
    then ok none
    else if s == 255 || e == 255
    then err half_empty_slot
    else decode_time_byte s >>= λ start.
        decode_time_byte e >>= λ end. slot_window start end >>= λ w. ok (some w)

abbrev pub onto : Option Window → List Window → List Window
onto none ws = ws
onto (some w) ws = w ∷ ws

-- the loop of `decode_block`, over the slots that the bytes make
unfoldable pub decode_slots : List ℕ → Result ScheduleError (List Window)
unfolding decode_slot
decode_slots (s ∷ e ∷ raw) = decode_slot s e >>= λ w. decode_slots raw >>= λ ws. ok (onto w ws)
decode_slots _ = ok []

-- `decode_block`
unfoldable pub decode_block : List ℕ → Result ScheduleError (List Window)
unfolding decode_slots
decode_block raw = if not (length raw == 8) then err bad_length else decode_slots raw

abbrev pub show_window : Window → Text
show_window (start, end) = show_time start ++ b'-' ∷ show_time end

-- `",".join(texts)`
abbrev pub join : List Text → Text
join [] = []
join (t ∷ []) = t
join (t ∷ u ∷ ts) = t ++ b',' ∷ join (u ∷ ts)

-- `canonical_schedule`
unfoldable pub canonical_schedule : List Window → Text
canonical_schedule [] = codes "none"
canonical_schedule (w ∷ ws) = join (map show_window (w ∷ ws))
