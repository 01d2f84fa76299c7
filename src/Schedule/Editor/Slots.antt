-- ===== src/Schedule/Editor/Slots.antt =====
-- What is put into the slots of the editor: blocks that were read, and times that were set.
use optolink.Base.{
  ℕ, zero, suc, ◌+◌, ◌-◌, ◌/◌, ◌%◌, ◌≤◌, ◌<◌, ◌≡◌, refl, ap, inl, inr, true, false, ◌&&◌, ◌||◌, not,
  Option, none, some, List, [], ◌∷◌, arith, ltb, leb, ◌==◌, length, if_elim, All,
}
use optolink.Base.Result.{Result, ok, err, OnOk, OnOk-bind}
use optolink.Schedule.Times.{ScheduleError, Time, Window, to_minutes, decode_time_byte}
use optolink.Schedule.Blocks.{slot_window, decode_slot, onto, decode_slots, decode_block}
use optolink.Schedule.Windows.{IsStart, IsEnd}
use optolink.Schedule.Editor.{Slot, slots_of, min_of, time_plus_minutes}
use optolink.Schedule.Editor.State.{ends_after, starts_before, with_start, with_end, update}
use optolink.Schedule.Editor.Actions.{loaded}
use optolink.Schedule.Editor.Gaps.{
  IsFit, at_minutes-IsStart, to_minutes-at_minutes, start_tens, end_tens,
}

-- four slots, each off or a window
abbrev pub AreFit : List Slot → Type 0
AreFit slots = (length slots ≡ 4) × All IsFit slots

-- a window as a slot
abbrev pub IsDay : Window → Type 0
IsDay w = IsFit (some w.0, some w.1)

abbrev OnTime : Option Time → Type 0
OnTime none = Unit
OnTime (some t) = IsEnd t

decode_time_byte-OnTime : (v : ℕ) → OnOk OnTime (decode_time_byte v)
unfolding decode_time_byte
decode_time_byte-OnTime v =
    if_elim (OnOk OnTime) (v == 255) (λ _. tt)
      λ _.
        if_elim (OnOk OnTime) (v / 8 == 24 && v % 8 == 0) (λ _. inr (refl, refl))
          λ _.
            if_elim (OnOk OnTime) (ltb 23 (v / 8) || ltb 5 (v % 8)) (λ _. tt)
              λ e. inl (ground (arith, e), omega arith, ground (arith, e))

slot_window-IsDay : (s e : Option Time) → OnTime s → OnTime e → OnOk IsDay (slot_window s e)
slot_window-IsDay none e hs he = tt
slot_window-IsDay (some s) none hs he = tt
slot_window-IsDay (some s) (some e) hs he =
    if_elim (OnOk IsDay) (s.hour == 24) (λ _. tt)
      λ f.
        if_elim (OnOk IsDay) (leb (to_minutes e) (to_minutes s)) (λ _. tt)
          λ g. (start s hs f, he, ground (arith, g))
  where
    start : (s : Time) → IsEnd s → (s.hour == 24) ≡ false → IsStart s
    start s (inl h) f = h
    start s (inr h) f = absurd (ground (arith, h.0, f))

abbrev OnDay : Option Window → Type 0
OnDay none = Unit
OnDay (some w) = IsDay w

decode_slot-OnDay : (s e : ℕ) → OnOk OnDay (decode_slot s e)
unfolding decode_slot
decode_slot-OnDay s e =
    if_elim (OnOk OnDay) (s == 255 && e == 255) (λ _. tt)
      λ _.
        if_elim (OnOk OnDay) (s == 255 || e == 255) (λ _. tt)
          λ _. OnOk-bind OnTime OnDay (decode_time_byte s) _ (decode_time_byte-OnTime s) λ a ha.
            OnOk-bind OnTime OnDay (decode_time_byte e) _ (decode_time_byte-OnTime e) λ b hb.
              OnOk-bind IsDay OnDay (slot_window a b) _ (slot_window-IsDay a b ha hb) λ w h. h

decode_slots-AreDays : (raw : List ℕ) → OnOk (All IsDay) (decode_slots raw)
unfolding decode_slots
decode_slots-AreDays [] = tt
decode_slots-AreDays (s ∷ []) = tt
decode_slots-AreDays (s ∷ e ∷ raw) =
    OnOk-bind OnDay (All IsDay) (decode_slot s e) _ (decode_slot-OnDay s e) λ w h.
      OnOk-bind (All IsDay) (All IsDay) (decode_slots raw) _ (decode_slots-AreDays raw)
        λ ws k. add w ws h k
  where
    add : (w : Option Window) (ws : List Window) → OnDay w → All IsDay ws → All IsDay (onto w ws)
    add none ws h k = k
    add (some w) ws h k = (h, k)

pub loaded-AreDays : (raw : List ℕ) → OnOk (All IsDay) (loaded (decode_block raw))
unfolding decode_block
loaded-AreDays raw = passed (decode_block raw) (
    if_elim (OnOk {Raised = ScheduleError} (All IsDay)) (not (length raw == 8)) (λ _. tt)
      (λ _. decode_slots-AreDays raw))
  where
    passed :
        (r : Result ScheduleError (List Window)) → OnOk (All IsDay) r → OnOk (All IsDay) (loaded r)
    passed (ok ws) h = h
    passed (err e) h = tt

pub slots_of-AreFit :
    (n : ℕ) (ws : List Window)
    → All IsDay ws
    → (length (slots_of n ws) ≡ n) × All IsFit (slots_of n ws)
slots_of-AreFit zero ws h = (refl, tt)
slots_of-AreFit (suc n) [] h = let r = slots_of-AreFit n [] tt in (ap suc r.0, (tt, r.1))
slots_of-AreFit (suc n) (w ∷ ws) h = let r = slots_of-AreFit n ws h.1 in (ap suc r.0, (h.0, r.1))

hour_later : (t : Time) → IsStart t → IsFit (some t, some (time_plus_minutes true 60 0 t))
unfolding time_plus_minutes
hour_later t h =
    let m = min_of 1440 (to_minutes t + 60 - 0) in
    let d = start_tens t h in
    let P : Time → Type 0 = λ u. IsFit (some t, some u) in
    let tens : m % 10 ≡ 0 =
      if_elim (λ k. k % 10 ≡ 0) (leb 1440 (to_minutes t + 60 - 0)) (λ _. refl)
        (λ _. omega (arith, d.0)) in
    if_elim P (m == 1440) (λ _. (h, inr (refl, refl), omega (arith, d.1)))
      λ e.
        let lt : m < 1440 = ground (arith, e) in
        let le : to_minutes t ≤ m = ground (arith, d.1) in
        (h, inl (at_minutes-IsStart m tens lt), omega (arith, to_minutes-at_minutes m, le))

hour_earlier : (t : Time) → IsEnd t → IsFit (some (time_plus_minutes false 0 60 t), some t)
unfolding time_plus_minutes
hour_earlier t h =
    let m = min_of 1440 (to_minutes t + 0 - 60) in
    let d = end_tens t h in
    let P : Time → Type 0 = λ u. IsFit (some u, some t) in
    let tens : m % 10 ≡ 0 =
      if_elim (λ k. k % 10 ≡ 0) (leb 1440 (to_minutes t + 0 - 60)) (λ _. refl)
        (λ _. omega (arith, d.0)) in
    let low : m ≤ to_minutes t = ground (arith, d.1) in
    if_elim P (m == 1440) (λ e. absurd (ground (arith, d.1, e)))
      λ e.
        let lt : m < 1440 = ground (arith, e) in
        (at_minutes-IsStart m tens lt, h, omega (arith, to_minutes-at_minutes m, low))

pub with_start-IsFit :
    (start : Time) (s : Slot) → IsStart start → IsFit s → IsFit (with_start start s)
with_start-IsFit start (none, none) hs h = hour_later start hs
with_start-IsFit start (some a, some b) hs h =
    if_elim (λ o. IsFit (some start, o)) (ends_after start (some b))
      (λ e. (hs, h.1, ground (arith, e))) (λ _. hour_later start hs)
with_start-IsFit start (none, some b) hs h = absurd h
with_start-IsFit start (some a, none) hs h = absurd h

pub with_end-IsFit : (end : Time) (s : Slot) → IsEnd end → IsFit s → IsFit (with_end end s)
with_end-IsFit end (none, none) he h = hour_earlier end he
with_end-IsFit end (some a, some b) he h =
    if_elim (λ o. IsFit (o, some end)) (starts_before end (some a))
      (λ e. (h.0, he, ground (arith, e))) (λ _. hour_earlier end he)
with_end-IsFit end (none, some b) he h = absurd h
with_end-IsFit end (some a, none) he h = absurd h

pub update-AreFit :
    (n k : ℕ) (f : Slot → Slot) (slots : List Slot)
    → ((s : Slot) → IsFit s → IsFit (f s))
    → (length slots ≡ k) × All IsFit slots
    → (length (update n f slots) ≡ k) × All IsFit (update n f slots)
update-AreFit n k f [] hf h = h
update-AreFit zero k f (s ∷ slots) hf h = (h.0, (hf s h.1.0, h.1.1))
update-AreFit (suc n) zero f (s ∷ slots) hf h = absurd (omega (arith, h.0))
update-AreFit (suc n) (suc k) f (s ∷ slots) hf h =
    let r = update-AreFit n k f slots hf (omega (arith, h.0), h.1.1) in (ap suc r.0, (h.1.0, r.1))
