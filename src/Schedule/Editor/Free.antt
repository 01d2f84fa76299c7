-- ===== src/Schedule/Editor/Free.antt =====
-- `default_editor_interval` of tools/optolink-schedule-manager.py: the window it offers.
use optolink.Base.{
  ℕ, zero, suc, ◌+◌, ◌-◌, ◌≤◌, refl, inl, inr, none, some, List, [], ◌∷◌, arith, leb, if_elim, All,
  All-append, leb→le,
}
use optolink.Base.Result.{OnOk, OnOk-weaken}
use optolink.Schedule.Times.{Window, to_minutes}
use optolink.Schedule.Windows.{IsStart, IsEnd}
use optolink.Schedule.Editor.{
  Slot, min_of, at_minutes, occupied_minutes, occupied, others, sort, slot_at, preferred,
  minutes_or_six, gaps, candidates, or_gaps, end_time, first_fit, default_editor_interval,
}
use optolink.Schedule.Editor.Gaps.{
  IsFit, IsTens, AreTens, at_minutes-IsStart, to_minutes-at_minutes, start_tens, end_tens,
  end_time-IsEnd, Apart, All-weaken, All-sort, sort-All, sort-IsSorted, IsGap, gaps-IsGap,
  candidates-IsGap,
}

-- A window of the day of ten minutes or more that overlaps none of the intervals.
abbrev pub IsFree : List (ℕ × ℕ) → Window → Type 0
IsFree os w =
    IsStart w.0
    × IsEnd w.1
    × (to_minutes w.0 + 10 ≤ to_minutes w.1)
    × All (Apart (to_minutes w.0, to_minutes w.1)) os

fits_in :
    (os : List (ℕ × ℕ)) (g : ℕ × ℕ)
    → IsGap 0 os g
    → g.0 + 10 ≤ g.1
    → IsFree os (at_minutes g.0, end_time (min_of (g.0 + 60) g.1))
fits_in os g h long =
    let m = min_of (g.0 + 60) g.1 in
    let tens : IsTens m =
      if_elim IsTens (leb (g.0 + 60) g.1)
        (λ e. (omega (arith, h.0.0.0), omega (arith, leb→le (g.0 + 60) g.1 e, h.0.1.1)))
        (λ _. h.0.1) in
    let upper : m ≤ g.1 = ground arith in
    let lower : g.0 + 10 ≤ m = ground (arith, long) in
    let e = end_time-IsEnd m tens in
    let s = to_minutes-at_minutes g.0 in
    (
      at_minutes-IsStart g.0 h.0.0.0 (omega (arith, long, h.0.1.1)),
      e.0,
      omega (arith, e.1, s, lower),
      All-weaken (Apart g) (Apart (to_minutes (at_minutes g.0), to_minutes (end_time m))) os h.2 (
          inside (to_minutes (at_minutes g.0)) (to_minutes (end_time m)) (omega (arith, s))
            (omega (arith, e.1, upper))),
    )
  where
    inside : (a b : ℕ) → g.0 ≤ a → b ≤ g.1 → (q : ℕ × ℕ) → Apart g q → Apart (a, b) q
    inside a b ha hb q (inl k) = inl (omega (arith, hb, k))
    inside a b ha hb q (inr k) = inr (omega (arith, ha, k))

first_fit-IsFree : (os gs : List (ℕ × ℕ)) → All (IsGap 0 os) gs → OnOk (IsFree os) (first_fit gs)
first_fit-IsFree os [] h = tt
first_fit-IsFree os (g ∷ gs) h =
    if_elim (OnOk (IsFree os)) (leb 10 (g.1 - g.0)) (λ e. fits_in os g h.0 (ground (arith, e)))
      (λ _. first_fit-IsFree os gs h.1)

of_slot-AreTens : (s : Slot) → IsFit s → All AreTens (occupied_minutes s)
of_slot-AreTens (none, none) h = tt
of_slot-AreTens (some start, some end) h =
    ((((start_tens start h.0).0, omega (arith, (start_tens start h.0).1)), end_tens end h.1), tt)
of_slot-AreTens (none, some end) h = absurd h
of_slot-AreTens (some start, none) h = absurd h

occupied-AreTens : (slots : List Slot) → All IsFit slots → All AreTens (occupied slots)
occupied-AreTens [] h = tt
occupied-AreTens (s ∷ slots) h =
    All-append AreTens (occupied_minutes s) (occupied slots) (of_slot-AreTens s h.0)
      (occupied-AreTens slots h.1)

others-AreTens : (n : ℕ) (slots : List Slot) → All IsFit slots → All AreTens (others n slots)
others-AreTens n [] h = tt
others-AreTens zero (s ∷ slots) h = occupied-AreTens slots h.1
others-AreTens (suc n) (s ∷ slots) h =
    All-append AreTens (occupied_minutes s) (others n slots) (of_slot-AreTens s h.0)
      (others-AreTens n slots h.1)

end-IsTens : (s : Slot) → IsFit s → IsTens (minutes_or_six s.1)
end-IsTens (none, none) h = (refl, omega arith)
end-IsTens (some start, some end) h = end_tens end h.1
end-IsTens (none, some end) h = absurd h
end-IsTens (some start, none) h = absurd h

slot_at-IsTens :
    (n : ℕ) (slots : List Slot) → All IsFit slots → IsTens (minutes_or_six (slot_at n slots).1)
slot_at-IsTens n [] h = (refl, omega arith)
slot_at-IsTens zero (s ∷ slots) h = end-IsTens s h.0
slot_at-IsTens (suc n) (s ∷ slots) h = slot_at-IsTens n slots h.1

preferred-IsTens : (n : ℕ) (slots : List Slot) → All IsFit slots → IsTens (preferred n slots)
preferred-IsTens zero slots h = (refl, omega arith)
preferred-IsTens (suc n) slots h = slot_at-IsTens n slots h

or_gaps-All :
    (P : ℕ × ℕ → Type 0) (cs gs : List (ℕ × ℕ)) → All P cs → All P gs → All P (or_gaps cs gs)
or_gaps-All P [] gs h k = k
or_gaps-All P (c ∷ cs) gs h k = h

-- The window that the editor offers for a slot, where the slots are fit: of whole ten minutes within
-- the day, ten minutes long or longer, and apart from every other slot that has a window.
pub default_editor_interval-IsFree :
    (slots : List Slot) (slot : ℕ)
    → All IsFit slots
    → OnOk (IsFree (others slot slots)) (default_editor_interval slots slot)
unfolding default_editor_interval
default_editor_interval-IsFree slots slot h =
    let os = others slot slots in
    let gs = gaps 0 (sort os) in
    let tens = All-sort AreTens os (others-AreTens slot slots h) in
    let free = gaps-IsGap 0 (sort os) (refl, omega arith) tens (sort-IsSorted os) in
    let from = preferred slot slots in
    let cs = candidates-IsGap (sort os) from gs (preferred-IsTens slot slots h) free in
    OnOk-weaken (IsFree (sort os)) (IsFree os) (first_fit (or_gaps (candidates from gs) gs))
      (first_fit-IsFree (sort os) (or_gaps (candidates from gs) gs)
        (or_gaps-All (IsGap 0 (sort os)) (candidates from gs) gs cs free))
      λ w k. (k.0, k.1, k.2, sort-All (Apart (to_minutes w.0, to_minutes w.1)) os k.3)
