-- ===== src/Schedule/Canonical.antt =====
-- What `canonical_schedule` prints, `parse_schedule` reads back.
use optolink.Base.{
  ℕ, suc, ◌≤◌, ◌<◌, ◌≡◌, refl, ap, ap₂, ◌∙◌, true, false, ◌&&◌, List, [], ◌∷◌, map, arith, ltb, leb,
  ◌==◌, if◌then◌else◌, length, if_elim, All, All-append,
}
use optolink.Base.Result.{Result, ok, ◌>>=◌}
use optolink.Text.{Text, codes, same_text, split, strip, lower, lower_code, is_blank}
use optolink.Text.Strip.{IsPlain, strip-plain, Lacks, split-none, split-append}
use optolink.Schedule.Times.{
  ScheduleError, Time, Window, parse_time, to_minutes, show_time, parse_schedule, schedule_of,
  windows, window_of, check_window, stripped_parts, hyphen, is_empty,
}
use optolink.Schedule.Blocks.{show_window, join, canonical_schedule}
use optolink.Schedule.Windows.{IsStart, IsEnd, IsSchedule}
use optolink.Schedule.RoundTrip.{
  IsClock, IsStart-IsClock, IsEnd-IsClock, parse_time-IsStart, parse_time-IsEnd,
}

-- all code points from one to another
abbrev Within : ℕ → ℕ → Text → Type 0
Within a b = All (λ c. (a ≤ c) × (c ≤ b))

Within-weaken : (a a' b : ℕ) (s : Text) → a' ≤ a → Within a b s → Within a' b s
Within-weaken a a' b [] h w = tt
Within-weaken a a' b (c ∷ s) h w = ((omega (arith, h, w.0.0), w.0.1), Within-weaken a a' b s h w.1)

show_time-Within : (t : Time) → IsClock t → Within 48 58 (show_time t)
show_time-Within t h = (
  (omega arith, omega (arith, h.0)),
  (
    (omega arith, omega arith),
    (
      (omega arith, omega arith),
      ((omega arith, omega (arith, h.1)), ((omega arith, omega arith), tt)),
    ),
  ),
)

Within-IsPlain : (s : Text) → Within 44 58 s → IsPlain s
Within-IsPlain [] w = tt
Within-IsPlain (c ∷ s) w = (not_blank c w.0.0 w.0.1, Within-IsPlain s w.1)
  where
    not_blank : (c : ℕ) → 44 ≤ c → c ≤ 58 → is_blank c ≡ false
    not_blank c h k = ground arith

Within-Lacks : (sep : ℕ) (s : Text) → Within (suc sep) 58 s → Lacks sep s
Within-Lacks sep [] w = tt
Within-Lacks sep (c ∷ s) w = (other c w.0.0, Within-Lacks sep s w.1)
  where
    other : (c : ℕ) → suc sep ≤ c → (c == sep) ≡ false
    other c h = ground arith

map-hyphen : (s : Text) → Within 44 58 s → map hyphen s ≡ s
map-hyphen [] w = refl
map-hyphen (c ∷ s) w = ap₂ (λ x y. x ∷ y) (same c w.0.1) (map-hyphen s w.1)
  where
    same : (c : ℕ) → c ≤ 58 → hyphen c ≡ c
    same c h = ground arith

-- a window whose times can be printed
abbrev IsShown : Window → Type 0
IsShown w = IsClock w.0 × IsClock w.1

show_window-Within : (w : Window) → IsShown w → Within 45 58 (show_window w)
show_window-Within w h =
    All-append (λ c. (45 ≤ c) × (c ≤ 58)) (show_time w.0) (b'-' ∷ show_time w.1)
      (Within-weaken 48 45 58 (show_time w.0) (omega arith) (show_time-Within w.0 h.0))
      (
        (omega arith, omega arith),
        Within-weaken 48 45 58 (show_time w.1) (omega arith) (show_time-Within w.1 h.1),
      )

time-Lacks : (t : Time) → IsClock t → Lacks b'-' (show_time t)
time-Lacks t h =
    Within-Lacks b'-' (show_time t)
      (Within-weaken 48 46 58 (show_time t) (omega arith) (show_time-Within t h))

window-Lacks : (w : Window) → IsShown w → Lacks b',' (show_window w)
window-Lacks w h = Within-Lacks b',' (show_window w) (show_window-Within w h)

split-show_window :
    (w : Window) → IsShown w → split b'-' (show_window w) ≡ show_time w.0 ∷ show_time w.1 ∷ []
split-show_window w h =
    split-append b'-' (show_time w.0) (show_time w.1) (time-Lacks w.0 h.0)
    ∙ ap (λ ps. show_time w.0 ∷ ps) (split-none b'-' (show_time w.1) (time-Lacks w.1 h.1))

-- the texts of windows, joined and split again
split-join :
    (w : Window) (ws : List Window)
    → All IsShown (w ∷ ws)
    → split b',' (join (map show_window (w ∷ ws))) ≡ map show_window (w ∷ ws)
split-join w [] h = split-none b',' (show_window w) (window-Lacks w h.0)
split-join w (v ∷ ws) h =
    split-append b',' (show_window w) (join (map show_window (v ∷ ws))) (window-Lacks w h.0)
    ∙ ap (λ ps. show_window w ∷ ps) (split-join v ws h.1)

window-Within : (w : Window) → IsShown w → Within 44 58 (show_window w)
window-Within w h = Within-weaken 45 44 58 (show_window w) (omega arith) (show_window-Within w h)

join-Within :
    (w : Window) (ws : List Window)
    → All IsShown (w ∷ ws)
    → Within 44 58 (join (map show_window (w ∷ ws)))
join-Within w [] h = window-Within w h.0
join-Within w (v ∷ ws) h =
    All-append (λ c. (44 ≤ c) × (c ≤ 58)) (show_window w) (b',' ∷ join (map show_window (v ∷ ws)))
      (window-Within w h.0) ((omega arith, omega arith), join-Within v ws h.1)

stripped_parts-show :
    (ws : List Window) → All IsShown ws → stripped_parts (map show_window ws) ≡ map show_window ws
unfolding stripped_parts
stripped_parts-show [] h = refl
stripped_parts-show (w ∷ ws) h =
    let plain : strip (show_window w) ≡ show_window w =
      strip-plain (show_window w) (Within-IsPlain (show_window w) (window-Within w h.0)) in
    kept (show_window w) plain refl (stripped_parts (map show_window ws))
    ∙ ap (λ ps. show_window w ∷ ps) (stripped_parts-show ws h.1)
  where
    kept :
        (t : Text)
        → strip t ≡ t
        → is_empty t ≡ false
        → (rest : List Text) → (if is_empty (strip t) then rest else strip t ∷ rest) ≡ t ∷ rest
    kept t e f rest = rw (e, f) refl

time-strip : (t : Time) → IsClock t → strip (show_time t) ≡ show_time t
time-strip t h = strip-plain (show_time t) (
    Within-IsPlain (show_time t)
      (Within-weaken 48 44 58 (show_time t) (omega arith) (show_time-Within t h)))

check_window_lem :
    (p : ℕ) (s e : Time)
    → p ≤ to_minutes s
    → to_minutes s < to_minutes e
    → check_window p s e ≡ ok (s, e)
check_window_lem p s e hp lt =
    let P : Result ScheduleError Window → Type 0 = λ r. r ≡ ok (s, e) in
    if_elim P (leb (to_minutes e) (to_minutes s)) (λ x. absurd (ground arith))
      λ _. if_elim P (ltb (to_minutes s) p) (λ x. absurd (ground arith)) (λ _. refl)

window_of-show :
    (p : ℕ) (s e : Time)
    → IsStart s
    → IsEnd e
    → p ≤ to_minutes s
    → to_minutes s < to_minutes e
    → window_of p (show_time s ∷ show_time e ∷ []) ≡ ok (s, e)
window_of-show p s e hs he hp lt =
    ap (λ r. r >>= λ a. parse_time true (strip (show_time e)) >>= λ b. check_window p a b)
      (ap (parse_time false) (time-strip s (IsStart-IsClock s hs)) ∙ parse_time-IsStart s hs)
    ∙ ap (λ r. r >>= λ b. check_window p s b)
        (ap (parse_time true) (time-strip e (IsEnd-IsClock e he)) ∙ parse_time-IsEnd e he)
    ∙ check_window_lem p s e hp lt

IsSchedule-IsShown : (p : ℕ) (ws : List Window) → IsSchedule p ws → All IsShown ws
IsSchedule-IsShown p [] h = tt
IsSchedule-IsShown p (w ∷ ws) h =
    ((IsStart-IsClock w.0 h.0, IsEnd-IsClock w.1 h.1), IsSchedule-IsShown (to_minutes w.1) ws h.4)

windows-show : (p : ℕ) (ws : List Window) → IsSchedule p ws → windows p (map show_window ws) ≡ ok ws
unfolding windows
windows-show p [] h = refl
windows-show p (w ∷ ws) h =
    rw (split-show_window w (h_clock w.0 w.1 h.0 h.1))
      (body w ws h (windows-show (to_minutes w.1) ws h.4))
  where
    h_clock : (s e : Time) → IsStart s → IsEnd e → IsClock s × IsClock e
    h_clock s e hs he = (IsStart-IsClock s hs, IsEnd-IsClock e he)

    body :
        (w : Window) (ws : List Window)
        → IsSchedule p (w ∷ ws)
        → windows (to_minutes w.1) (map show_window ws) ≡ ok ws
        → (window_of p (show_time w.0 ∷ show_time w.1 ∷ []) >>= λ v.
            windows (to_minutes v.1) (map show_window ws) >>= λ vs. ok (v ∷ vs))
          ≡ ok (w ∷ ws)
    body w ws h e =
        ap (λ r. r >>= λ v. windows (to_minutes v.1) (map show_window ws) >>= λ vs. ok (v ∷ vs))
          (window_of-show p w.0 w.1 h.0 h.1 h.2 h.3)
        ∙ ap (λ r. r >>= λ vs. ok (w ∷ vs)) e

length-map : (ws : List Window) → length (map show_window ws) ≡ length ws
length-map [] = refl
length-map (w ∷ ws) = ap suc (length-map ws)

-- what begins with a digit is not empty, and not "none"
abbrev IsListed : Text → Type 0
IsListed t = (is_empty t ≡ false) × (same_text (lower t) (codes "none") ≡ false)

Within-IsListed : (t : Text) → is_empty t ≡ false → Within 44 58 t → IsListed t
Within-IsListed [] e h = absurd cc
Within-IsListed (c ∷ t) e h =
    (refl, ap (λ b. b && same_text (lower t) (codes "one")) (not_n c h.0.1))
  where
    not_n : (c : ℕ) → c ≤ 58 → (lower_code c == b'n') ≡ false
    not_n c h = ground arith

join-not_empty :
    (w : Window) (ws : List Window) → is_empty (join (map show_window (w ∷ ws))) ≡ false
join-not_empty w [] = refl
join-not_empty w (v ∷ ws) = refl

schedule_of_lem :
    (t : Text) (ws : List Window)
    → IsListed t
    → stripped_parts (split b',' (map hyphen t)) ≡ map show_window ws
    → length (map show_window ws) ≤ 4
    → windows 0 (map show_window ws) ≡ ok ws
    → schedule_of t ≡ ok ws
schedule_of_lem t ws h e short done =
    let P : Result ScheduleError (List Window) → Type 0 = λ r. r ≡ ok ws in
    if_elim P (is_empty t) (λ x. absurd cc)
      λ _.
        if_elim P (same_text (lower t) (codes "none")) (λ x. absurd cc)
          λ _. rw e (
            if_elim P (ltb 4 (length (map show_window ws))) (λ x. absurd (ground arith))
              (λ _. done))

-- The printed form of at most four windows as a controller may have them is read back as the same
-- windows: `parse_schedule` undoes `canonical_schedule`.
pub parse_schedule-canonical_schedule :
    (ws : List Window)
    → IsSchedule 0 ws
    → length ws ≤ 4
    → parse_schedule (canonical_schedule ws) ≡ ok ws
unfolding parse_schedule canonical_schedule
parse_schedule-canonical_schedule [] h short = refl
parse_schedule-canonical_schedule (w ∷ ws) h short =
    let shown = IsSchedule-IsShown 0 (w ∷ ws) h in
    let t = join (map show_window (w ∷ ws)) in
    let within = join-Within w ws shown in
    ap schedule_of (strip-plain t (Within-IsPlain t within))
    ∙ schedule_of_lem t (w ∷ ws) (Within-IsListed t (join-not_empty w ws) within)
        (ap (λ u. stripped_parts (split b',' u)) (map-hyphen t within)
          ∙ ap stripped_parts (split-join w ws shown)
          ∙ stripped_parts-show (w ∷ ws) shown)
        (omega (arith, length-map (w ∷ ws), short)) (windows-show 0 (w ∷ ws) h)
