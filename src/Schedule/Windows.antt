-- ===== src/Schedule/Windows.antt =====
-- `parse_schedule`: the windows that it accepts.
use optolink.Base.{
  ℕ, suc, ◌%◌, ◌≤◌, ◌<◌, ◌≡◌, refl, ap, ◌⊎◌, inl, inr, true, false, ◌&&◌, not, Option, none, some,
  List, [], ◌∷◌, map, arith, ltb, leb, ◌==◌, length, if_elim,
}
use optolink.Base.Result.{ok, OnOk, OnOk-eq-ok, OnOk-bind, OnOk-weaken}
use optolink.Text.{Text, codes, same_text, split, strip, lower}
use optolink.Schedule.Times.{
  Time, Window, time_groups, check_time, parsed, parse_time, to_minutes, window_of, windows,
  is_empty, stripped_parts, hyphen, schedule_of, parse_schedule,
}

abbrev pub IsStart : Time → Type 0
IsStart t = (t.hour ≤ 23) × (t.minute % 10 ≡ 0) × (t.minute ≤ 50)

abbrev pub IsEnd : Time → Type 0
IsEnd t = IsStart t ⊎ (t.hour ≡ 24) × (t.minute ≡ 0)

-- Windows on whole ten minutes of one day, each from before its end, in order and apart, from a minute on.
abbrev pub IsSchedule : ℕ → List Window → Type 0
IsSchedule previous [] = Unit
IsSchedule previous ((s, e) ∷ ws) =
    IsStart s
    × IsEnd e
    × (previous ≤ to_minutes s)
    × (to_minutes s < to_minutes e)
    × IsSchedule (to_minutes e) ws

check_time-IsEnd : (h m : ℕ) → OnOk IsEnd (check_time true h m)
check_time-IsEnd h m =
    if_elim (OnOk IsEnd) (h == 24 && m == 0) (λ _. inr (refl, refl))
      λ _.
        if_elim (OnOk IsEnd) (ltb 23 h) (λ _. tt)
          λ e.
            if_elim (OnOk IsEnd) (not (m % 10 == 0 && leb m 50)) (λ _. tt)
              λ f. inl (ground arith, ground arith, ground arith)

check_time-IsStart : (h m : ℕ) → OnOk IsStart (check_time false h m)
check_time-IsStart h m =
    if_elim (OnOk IsStart) (ltb 23 h) (λ _. tt)
      λ e.
        if_elim (OnOk IsStart) (not (m % 10 == 0 && leb m 50)) (λ _. tt)
          λ f. (ground arith, ground arith, ground arith)

parsed-IsStart : (o : Option (ℕ × ℕ)) → OnOk IsStart (parsed false o)
parsed-IsStart none = tt
parsed-IsStart (some (h, m)) = check_time-IsStart h m

parsed-IsEnd : (o : Option (ℕ × ℕ)) → OnOk IsEnd (parsed true o)
parsed-IsEnd none = tt
parsed-IsEnd (some (h, m)) = check_time-IsEnd h m

pub parse_time-IsStart : (value : Text) → OnOk IsStart (parse_time false value)
unfolding parse_time
parse_time-IsStart value = parsed-IsStart (time_groups (strip value))

pub parse_time-IsEnd : (value : Text) → OnOk IsEnd (parse_time true value)
unfolding parse_time
parse_time-IsEnd value = parsed-IsEnd (time_groups (strip value))

-- a window by itself, from a minute on
abbrev IsWindow : ℕ → Window → Type 0
IsWindow previous w =
    IsStart w.0 × IsEnd w.1 × (previous ≤ to_minutes w.0) × (to_minutes w.0 < to_minutes w.1)

window_of-IsWindow :
    (previous : ℕ) (pieces : List Text) → OnOk (IsWindow previous) (window_of previous pieces)
window_of-IsWindow previous [] = tt
window_of-IsWindow previous (s ∷ []) = tt
window_of-IsWindow previous (s ∷ e ∷ p ∷ ps) = tt
window_of-IsWindow previous (s ∷ e ∷ []) =
    OnOk-bind IsStart (IsWindow previous) (parse_time false (strip s)) _
      (parse_time-IsStart (strip s))
      λ start hs.
        OnOk-bind IsEnd (IsWindow previous) (parse_time true (strip e)) _
          (parse_time-IsEnd (strip e))
          λ end he.
            if_elim (OnOk (IsWindow previous)) (leb (to_minutes end) (to_minutes start)) (λ _. tt)
              λ f.
                if_elim (OnOk (IsWindow previous)) (ltb (to_minutes start) previous) (λ _. tt)
                  λ g. (hs, he, ground arith, ground arith)

windows-IsSchedule :
    (previous : ℕ) (parts : List Text)
    → OnOk (λ ws. IsSchedule previous ws × (length ws ≡ length parts)) (windows previous parts)
unfolding windows
windows-IsSchedule previous [] = (tt, refl)
windows-IsSchedule previous (part ∷ parts) =
    let Q : List Window → Type 0 =
      λ ws. IsSchedule previous ws × (length ws ≡ suc (length parts)) in
    OnOk-bind (IsWindow previous) Q (window_of previous (split b'-' part)) _
      (window_of-IsWindow previous (split b'-' part))
      λ w hw.
        OnOk-bind (λ ws. IsSchedule (to_minutes w.1) ws × (length ws ≡ length parts)) Q
          (windows (to_minutes w.1) parts) _ (windows-IsSchedule (to_minutes w.1) parts)
          λ ws h. ((hw.0, hw.1, hw.2, hw.3, h.0), ap suc h.1)

-- The accepted payloads: at most four windows of whole ten minutes within one day, each from before
-- its end, in order and without overlap. An empty payload is never accepted.
pub parse_schedule-IsSchedule :
    (payload : Text) (ws : List Window)
    → parse_schedule payload ≡ ok ws
    → IsSchedule 0 ws × (length ws ≤ 4) × (is_empty (strip payload) ≡ false)
unfolding parse_schedule
parse_schedule-IsSchedule payload ws h =
    OnOk-eq-ok Q (schedule_of (strip payload))
      (if_elim (OnOk Q) (is_empty (strip payload)) (λ _. tt)
        λ e.
          if_elim (OnOk Q) (same_text (lower (strip payload)) (codes "none"))
            (λ _. (tt, omega arith, e))
            λ _.
              if_elim (OnOk Q) (ltb 4 (length parts)) (λ _. tt)
                λ f.
                  OnOk-weaken _ Q (windows 0 parts) (windows-IsSchedule 0 parts)
                    (λ vs g. (g.0, ground (arith, g.1), e)))
      h
  where
    Q : List Window → Type 0
    Q ws = IsSchedule 0 ws × (length ws ≤ 4) × (is_empty (strip payload) ≡ false)

    parts : List Text
    parts = stripped_parts (split b',' (map hyphen (strip payload)))
