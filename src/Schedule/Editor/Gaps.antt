-- ===== src/Schedule/Editor/Gaps.antt =====
-- The gaps between the windows of a draft, which `default_editor_interval` of
-- tools/optolink-schedule-manager.py looks for.
use optolink.Base.{
  ℕ, ◌%◌, ◌≤◌, ◌<◌, ◌≡◌, refl, ◌⊎◌, inl, inr, none, some, List, [], ◌∷◌, arith, ltb, leb, ◌==◌,
  if_elim, All,
}
use optolink.Schedule.Times.{Time, to_minutes}
use optolink.Schedule.Windows.{IsStart, IsEnd}
use optolink.Schedule.Editor.{
  Slot, max_of, at_minutes, is_before, insert, sort, gaps, candidates, end_time,
}

-- off, or a window of the day that does not end before its start
abbrev pub IsFit : Slot → Type 0
IsFit (none, none) = Unit
IsFit (some start, some end) = IsStart start × IsEnd end × (to_minutes start ≤ to_minutes end)
IsFit (none, some end) = ⊥
IsFit (some start, none) = ⊥

-- whole ten minutes of a day
abbrev pub IsTens : ℕ → Type 0
IsTens m = (m % 10 ≡ 0) × (m ≤ 1440)

abbrev pub AreTens : ℕ × ℕ → Type 0
AreTens p = IsTens p.0 × IsTens p.1

pub at_minutes-IsStart : (m : ℕ) → m % 10 ≡ 0 → m < 1440 → IsStart (at_minutes m)
at_minutes-IsStart m h lt = (omega (arith, lt), omega (arith, h), omega (arith, h))

pub to_minutes-at_minutes : (m : ℕ) → to_minutes (at_minutes m) ≡ m
to_minutes-at_minutes m = omega arith

pub start_tens : (t : Time) → IsStart t → (to_minutes t % 10 ≡ 0) × (to_minutes t < 1440)
start_tens t h = (omega (arith, h.1), omega (arith, h.0, h.2))

pub end_tens : (t : Time) → IsEnd t → (to_minutes t % 10 ≡ 0) × (to_minutes t ≤ 1440)
end_tens t (inl h) = ((start_tens t h).0, omega (arith, (start_tens t h).1))
end_tens t (inr h) = (omega (arith, h.0, h.1), omega (arith, h.0, h.1))

pub end_time-IsEnd : (m : ℕ) → IsTens m → IsEnd (end_time m) × (to_minutes (end_time m) ≡ m)
end_time-IsEnd m h =
    if_elim (λ t. IsEnd t × (to_minutes t ≡ m)) (m == 1440) (λ e. (inr (refl, refl), ground arith))
      λ e. (inl (at_minutes-IsStart m h.0 (ground (arith, h.1))), to_minutes-at_minutes m)

-- one of two intervals is over when the other begins
abbrev pub Apart : ℕ × ℕ → ℕ × ℕ → Type 0
Apart p q = (p.1 ≤ q.0) ⊎ (q.1 ≤ p.0)

abbrev IsSorted : List (ℕ × ℕ) → Type 0
IsSorted [] = Unit
IsSorted (p ∷ ps) = All (λ q. p.0 ≤ q.0) ps × IsSorted ps

pub All-weaken :
    (P Q : ℕ × ℕ → Type 0) (ps : List (ℕ × ℕ)) → All P ps → ((p : ℕ × ℕ) → P p → Q p) → All Q ps
All-weaken P Q [] h f = tt
All-weaken P Q (p ∷ ps) h f = (f p h.0, All-weaken P Q ps h.1 f)

All-insert :
    (P : ℕ × ℕ → Type 0) (p : ℕ × ℕ) (qs : List (ℕ × ℕ)) → P p → All P qs → All P (insert p qs)
All-insert P p [] h hs = (h, tt)
All-insert P p (q ∷ qs) h hs =
    if_elim (All P) (is_before p q) (λ _. (h, hs)) (λ _. (hs.0, All-insert P p qs h hs.1))

insert-All :
    (P : ℕ × ℕ → Type 0) (p : ℕ × ℕ) (qs : List (ℕ × ℕ)) → All P (insert p qs) → P p × All P qs
insert-All P p [] h = h
insert-All P p (q ∷ qs) h =
    if_elim (λ rs. All P rs → P p × (P q × All P qs)) (is_before p q) (λ _ k. k)
      (λ _ k. let r = insert-All P p qs k.1 in (r.0, (k.0, r.1))) h

pub All-sort : (P : ℕ × ℕ → Type 0) (ps : List (ℕ × ℕ)) → All P ps → All P (sort ps)
All-sort P [] h = tt
All-sort P (p ∷ ps) h = All-insert P p (sort ps) h.0 (All-sort P ps h.1)

pub sort-All : (P : ℕ × ℕ → Type 0) (ps : List (ℕ × ℕ)) → All P (sort ps) → All P ps
sort-All P [] h = tt
sort-All P (p ∷ ps) h = let r = insert-All P p (sort ps) h in (r.0, sort-All P ps r.1)

insert-IsSorted : (p : ℕ × ℕ) (qs : List (ℕ × ℕ)) → IsSorted qs → IsSorted (insert p qs)
insert-IsSorted p [] h = (tt, tt)
insert-IsSorted p (q ∷ qs) h =
    if_elim IsSorted (is_before p q)
      (λ e.
        let le : p.0 ≤ q.0 = ground (arith, e) in
        (
          (le, All-weaken (λ r. q.0 ≤ r.0) (λ r. p.0 ≤ r.0) qs h.0 (λ r k. omega (arith, le, k))),
          h,
        ))
      λ e.
        let le : q.0 ≤ p.0 = ground (arith, e) in
        (All-insert (λ r. q.0 ≤ r.0) p qs le h.0, insert-IsSorted p qs h.1)

pub sort-IsSorted : (ps : List (ℕ × ℕ)) → IsSorted (sort ps)
sort-IsSorted [] = tt
sort-IsSorted (p ∷ ps) = insert-IsSorted p (sort ps) (sort-IsSorted ps)

-- a gap on whole ten minutes, not before the cursor, that touches none of the intervals
abbrev pub IsGap : ℕ → List (ℕ × ℕ) → ℕ × ℕ → Type 0
IsGap cursor os g = AreTens g × (cursor ≤ g.0) × All (Apart g) os

pub gaps-IsGap :
    (cursor : ℕ) (os : List (ℕ × ℕ))
    → IsTens cursor
    → All AreTens os
    → IsSorted os
    → All (IsGap cursor os) (gaps cursor os)
gaps-IsGap cursor [] hc h s =
    if_elim (All (IsGap cursor [])) (ltb cursor 1440)
      (λ _. (((hc, (refl, omega arith)), omega arith, tt), tt)) (λ _. tt)
gaps-IsGap cursor ((start, end) ∷ os) hc h s =
    let m = max_of cursor end in
    let ih = gaps-IsGap m os (max_of-IsTens hc h.0.1) h.1 s.1 in
    let rest = All-weaken (IsGap m os) (IsGap cursor ((start, end) ∷ os)) (gaps m os) ih later in
    if_elim (All (IsGap cursor ((start, end) ∷ os))) (ltb cursor start)
      (λ e. (
        (
          (hc, h.0.0),
          omega arith,
          (
            inl (omega arith),
            All-weaken (λ q. start ≤ q.0) (Apart (cursor, start)) os s.0 (λ q k. inl k),
          ),
        ),
        rest,
      ))
      λ _. rest
  where
    max_of-IsTens : IsTens cursor → IsTens end → IsTens (max_of cursor end)
    max_of-IsTens a b = if_elim IsTens (leb cursor end) (λ _. b) (λ _. a)

    later : (g : ℕ × ℕ) → IsGap (max_of cursor end) os g → IsGap cursor ((start, end) ∷ os) g
    later g k = (k.0, ground (arith, k.1), (inr (ground (arith, k.1)), k.2))

-- what begins later in a gap is one
narrow :
    (os : List (ℕ × ℕ)) (g : ℕ × ℕ) (from : ℕ)
    → IsTens from
    → IsGap 0 os g
    → IsGap 0 os (max_of g.0 from, g.1)
narrow os g from hf h =
    let le : g.0 ≤ max_of g.0 from = ground arith in
    (
      (if_elim IsTens (leb g.0 from) (λ _. hf) (λ _. h.0.0), h.0.1),
      omega arith,
      All-weaken (Apart g) (Apart (max_of g.0 from, g.1)) os h.2 (later g (max_of g.0 from) le),
    )
  where
    later : (g : ℕ × ℕ) (a : ℕ) → g.0 ≤ a → (q : ℕ × ℕ) → Apart g q → Apart (a, g.1) q
    later g a le q (inl k) = inl k
    later g a le q (inr k) = inr (omega (arith, le, k))

pub candidates-IsGap :
    (os : List (ℕ × ℕ)) (from : ℕ) (gs : List (ℕ × ℕ))
    → IsTens from
    → All (IsGap 0 os) gs
    → All (IsGap 0 os) (candidates from gs)
candidates-IsGap os from [] hf h = tt
candidates-IsGap os from (g ∷ gs) hf h =
    let ih = candidates-IsGap os from gs hf h.1 in
    if_elim (All (IsGap 0 os)) (ltb (max_of g.0 from) g.1) (λ _. (narrow os g from hf h.0, ih))
      (λ _. ih)
