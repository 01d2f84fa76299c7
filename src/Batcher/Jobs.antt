-- ===== src/Batcher/Jobs.antt =====
-- The jobs that `select` of `BoundedDemandBatcher` (tools/handover_acceleration/scheduler.py) makes of
-- the tickets it has collected.
use optolink.Base.{
  ℕ, ◌≤◌, ◌≡◌, ◌⊎◌, refl, Bool, true, false, not, ◌&&◌, ◌||◌, Option, none, some, List, [], ◌∷◌,
  ◌++◌, map, arith, inl, inr, Bool-cases, leb, ◌==◌, length, some_of, All, min, if_elim,
  if◌then◌else◌,
}
use mathlib.Core.Path.{subst, sym}
use optolink.Reads.{ReadKind, same_kind}
use optolink.Planner.{ReadJob}
use optolink.Batcher.{DemandTicket}
use optolink.Batcher.Offer.{collect, knows, job_of, least, or_zero}

abbrev pub asks : ReadKind → DemandTicket → Bool
asks k t = same_kind t.kind k

-- The number is the least that `f` gives for the tickets of the kind, of which there is one.
pub record IsLeast (f : DemandTicket → ℕ) (k : ReadKind) (ts : List DemandTicket) (n : ℕ)
    : Type 0 where
  pub at_most : All (λ t. asks k t ≡ true → n ≤ f t) ts
  pub attained : some_of (λ t. asks k t && n == f t) ts ≡ true

-- The job is for the tickets of its kind: its deadline is the first of theirs, and it is queued since
-- the first of them.
pub record IsJobOf (ts : List DemandTicket) (j : ReadJob) : Type 0 where
  pub first_deadline : IsLeast (λ t. t.expires_at) j.kind ts j.deadline
  pub first_queued : IsLeast (λ t. t.enqueued_at) j.kind ts j.queued

Least : (DemandTicket → ℕ) → ReadKind → List DemandTicket → Option ℕ → Type 0
Least f k ts none = some_of (asks k) ts ≡ false
Least f k ts (some n) = IsLeast f k ts n

nobody_asks :
    (f : DemandTicket → ℕ) (k : ReadKind) (n : ℕ) (ts : List DemandTicket)
    → some_of (asks k) ts ≡ false
    → All (λ t. asks k t ≡ true → n ≤ f t) ts
nobody_asks f k n [] h = tt
nobody_asks f k n (t ∷ ts) h = (λ a. absurd (ground arith), nobody_asks f k n ts (ground arith))

lower :
    (f : DemandTicket → ℕ) (k : ReadKind) (m n : ℕ) (ts : List DemandTicket)
    → n ≤ m
    → All (λ t. asks k t ≡ true → m ≤ f t) ts
    → All (λ t. asks k t ≡ true → n ≤ f t) ts
lower f k m n [] le h = tt
lower f k m n (t ∷ ts) le h = (λ a. omega (arith, h.0 a), lower f k m n ts le h.1)

not_less : (a m : ℕ) → leb a m ≡ true → min a m ≡ a
not_less a m h = ground arith

less : (a m : ℕ) → leb a m ≡ false → min a m ≡ m
less a m h = ground arith

least-Least :
    (f : DemandTicket → ℕ) (k : ReadKind) (ts : List DemandTicket) → Least f k ts (least f k ts)
unfolding Least
least-Least f k [] = refl
least-Least f k (t ∷ ts) = cases (least f k ts) (least-Least f k ts)
  where
    cases :
        (o : Option ℕ)
        → Least f k ts o
        → Least f k
            (t ∷ ts)
            (if asks k t then some (elim o [ none ↦ f t | some m ↦ min (f t) m ]) else o)
    cases none h =
        if_elim (λ o. Least f k (t ∷ ts) o) (asks k t)
          (λ a. record {
            at_most = (λ _. omega arith, nobody_asks f k (f t) ts h);
            attained = ground arith;
          })
          (λ a. ground arith)
    cases (some m) h =
        if_elim (λ o. Least f k (t ∷ ts) o) (asks k t)
          (λ a. record {
            at_most = (λ _. omega arith, lower f k m (min (f t) m) ts (omega arith) h.at_most);
            attained = elim (Bool-cases (leb (f t) m)) [
              | inl le ↦
                  subst (λ n. some_of (λ x. asks k x && n == f x) (t ∷ ts) ≡ true)
                    (sym (not_less (f t) m le)) (ground arith)
              | inr gt ↦
                  subst (λ n. some_of (λ x. asks k x && n == f x) (t ∷ ts) ≡ true)
                    (sym (less (f t) m gt)) (ground (arith, h.attained))
            ];
          })
          (λ a. record { at_most = (λ b. absurd (cc), h.at_most); attained = ground arith })

-- a job made of the tickets collected, one of which is of its kind
job_of-IsJobOf :
    (ts : List DemandTicket) (k : ReadKind) → some_of (asks k) ts ≡ true → IsJobOf ts (job_of ts k)
unfolding Least
job_of-IsJobOf ts k h = record {
  first_deadline = found (λ t. t.expires_at) (least _ k ts) (least-Least _ k ts);
  first_queued = found (λ t. t.enqueued_at) (least _ k ts) (least-Least _ k ts);
}
  where
    found : (f : DemandTicket → ℕ) (o : Option ℕ) → Least f k ts o → IsLeast f k ts (or_zero o)
    found f none l = absurd (cc (l, h))
    found f (some n) l = l

-- the kinds met after one more ticket
abbrev added : List ReadKind → ReadKind → List ReadKind
added ks k = if knows ks k then ks else ks ++ k ∷ []

knows-append :
    (ks : List ReadKind) (j k : ReadKind) → knows (ks ++ j ∷ []) k ≡ knows ks k || same_kind k j
knows-append [] j k = ground arith
knows-append (i ∷ ks) j k = ground (arith, knows-append ks j k)

knows-added :
    (ks : List ReadKind) (j k : ReadKind) → knows ks k ≡ true → knows (added ks j) k ≡ true
knows-added ks j k h =
    if_elim (λ l. knows l k ≡ true) (knows ks j) (λ _. h) (λ _. ground (arith, knows-append ks j k))

knows-added_new : (ks : List ReadKind) (k : ReadKind) → knows (added ks k) k ≡ true
knows-added_new ks k =
    if_elim (λ l. knows l k ≡ true) (knows ks k) (λ h. h) (λ _. ground (arith, knows-append ks k k))

knows-of_added :
    (ks : List ReadKind) (j k : ReadKind)
    → knows (added ks j) k ≡ true
    → (knows ks k ≡ true) ⊎ (same_kind k j ≡ true)
knows-of_added ks j k =
    if_elim (λ l. knows l k ≡ true → (knows ks k ≡ true) ⊎ (same_kind k j ≡ true)) (knows ks j)
      (λ _ h. inl h) (λ _ h. ground (arith, knows-append ks j k))

-- A kind that is met is one of those given or one of a collected ticket.
collect-met :
    (limit : ℕ) (ks : List ReadKind) (ts : List DemandTicket) (k : ReadKind)
    → knows (collect limit ks ts).1 k ≡ true
    → (knows ks k ≡ true) ⊎ (some_of (asks k) (collect limit ks ts).0 ≡ true)
unfolding collect
collect-met limit ks [] k h = inl h
collect-met limit ks (t ∷ ts) k h =
    let ks' = added ks t.kind in
    let rest = collect limit ks' ts in
    if_elim {A = List DemandTicket × List ReadKind}
      (λ r. knows r.1 k ≡ true → (knows ks k ≡ true) ⊎ (some_of (asks k) r.0 ≡ true))
      (not (knows ks t.kind) && leb limit (length ks)) (λ _ h. inl h)
      (λ _ h. elim (collect-met limit ks' ts k h) [
        | inl old ↦ elim (knows-of_added ks t.kind k old) [
          | inl given ↦ inl given
          | inr same ↦ inr (ground arith)
        ]
        | inr new ↦ inr (ground arith)
      ])
      h

-- and the kinds given stay met
collect-kept :
    (limit : ℕ) (ks : List ReadKind) (ts : List DemandTicket) (k : ReadKind)
    → knows ks k ≡ true
    → knows (collect limit ks ts).1 k ≡ true
unfolding collect
collect-kept limit ks [] k h = h
collect-kept limit ks (t ∷ ts) k h =
    let ks' = added ks t.kind in
    if_elim {A = List DemandTicket × List ReadKind} (λ r. knows r.1 k ≡ true)
      (not (knows ks t.kind) && leb limit (length ks)) (λ _. h)
      (λ _. collect-kept limit ks' ts k (knows-added ks t.kind k h))

-- The kinds of the collected tickets are met.
collect-covers :
    (limit : ℕ) (ks : List ReadKind) (ts : List DemandTicket)
    → All (λ t. knows (collect limit ks ts).1 t.kind ≡ true) (collect limit ks ts).0
unfolding collect
collect-covers limit ks [] = tt
collect-covers limit ks (t ∷ ts) =
    let ks' = added ks t.kind in
    if_elim {A = List DemandTicket × List ReadKind} (λ r. All (λ t. knows r.1 t.kind ≡ true) r.0)
      (not (knows ks t.kind) && leb limit (length ks)) (λ _. tt)
      (λ _.
        (collect-kept limit ks' ts t.kind (knows-added_new ks t.kind), collect-covers limit ks' ts))

-- the jobs of a list of kinds
jobs-AreJobs :
    (ts : List DemandTicket) (ks : List ReadKind)
    → ((k : ReadKind) → knows ks k ≡ true → some_of (asks k) ts ≡ true)
    → All (IsJobOf ts) (map (job_of ts) ks)
jobs-AreJobs ts [] h = tt
jobs-AreJobs ts (k ∷ ks) h =
    (job_of-IsJobOf ts k (h k (ground arith)), jobs-AreJobs ts ks (λ j e. h j (ground arith)))

knows-jobs :
    (ts : List DemandTicket) (ks : List ReadKind) (k : ReadKind)
    → knows ks k ≡ true
    → some_of (λ j. same_kind k j.kind) (map (job_of ts) ks) ≡ true
knows-jobs ts [] k h = h
knows-jobs ts (i ∷ ks) k h = ground (arith, knows-jobs ts ks k)

-- each ticket has a job of its kind
abbrev pub Covered : List ReadJob → List DemandTicket → Type 0
Covered js ts = All (λ t. some_of (λ j. same_kind t.kind j.kind) js ≡ true) ts

covers :
    (selected : List DemandTicket) (ks : List ReadKind) (ts : List DemandTicket)
    → All (λ t. knows ks t.kind ≡ true) ts
    → Covered (map (job_of selected) ks) ts
covers selected ks [] h = tt
covers selected ks (t ∷ ts) h = (knows-jobs selected ks t.kind h.0, covers selected ks ts h.1)

pub jobs_lem :
    (limit : ℕ) (ts : List DemandTicket)
    → let found = collect limit [] ts in
      let jobs = map (job_of found.0) found.1 in All (IsJobOf found.0) jobs × Covered jobs found.0
jobs_lem limit ts =
    let found = collect limit [] ts in
    (
      jobs-AreJobs found.0 found.1
          (λ k h. elim (collect-met limit [] ts k h) [ inl known ↦ absurd cc | inr asked ↦ asked ]),
      covers found.0 found.1 found.0 (collect-covers limit [] ts),
    )
