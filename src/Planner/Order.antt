-- ===== src/Planner/Order.antt =====
-- The planned order: nothing is lost, each protocol keeps its order, and no barrier is crossed.
use mathlib.Core.List.{append-nil, append_assoc}
use optolink.Base.{
  ◌≡◌, Bool, true, false, not, List, [], ◌∷◌, ◌++◌, arith, refl, ap, ap₂, ◌∙◌, sym, inl, inr,
  Bool-cases, keep, if◌then◌else◌,
}
use optolink.Reads.{Protocol, same_mode}
use optolink.Planner.{ReadJob, job_mode, runs_in, arrange, order_from, dependency_safe_order}

pub keep-append {ℓ} :
    {A : Type ℓ} (p : A → Bool) (xs ys : List A) → keep p (xs ++ ys) ≡ keep p xs ++ keep p ys
keep-append p [] ys = refl
keep-append p (x ∷ xs) ys = elim (Bool-cases (p x)) [
  | inl e ↦ rw (e, keep-append p xs ys)
  | inr e ↦ rw (e, keep-append p xs ys)
]

keep-keep_of_imp {ℓ} :
    {A : Type ℓ} (p q : A → Bool) (xs : List A)
    → ((x : A) → p x ≡ true → q x ≡ true)
    → keep p (keep q xs) ≡ keep p xs
keep-keep_of_imp p q [] h = refl
keep-keep_of_imp p q (x ∷ xs) h = elim (Bool-cases (q x)) [
  | inl e ↦ rw e (ap (λ r. if p x then x ∷ r else r) (keep-keep_of_imp p q xs h))
  | inr e ↦ elim (Bool-cases (p x)) [
    | inl e' ↦ absurd (cc (e, h x e'))
    | inr e' ↦ rw (e, e') (keep-keep_of_imp p q xs h)
  ]
]

keep-keep_of_not {ℓ} :
    {A : Type ℓ} (p q : A → Bool) (xs : List A)
    → ((x : A) → q x ≡ true → p x ≡ false)
    → keep p (keep q xs) ≡ []
keep-keep_of_not p q [] h = refl
keep-keep_of_not p q (x ∷ xs) h = elim (Bool-cases (q x)) [
  | inl e ↦ rw (e, h x e) (keep-keep_of_not p q xs h)
  | inr e ↦ rw e (keep-keep_of_not p q xs h)
]

-- Of an arranged epoch each protocol's jobs are those of the epoch, in its order.
keep-arrange :
    (m k : Protocol) (epoch : List ReadJob)
    → keep (runs_in k) (arrange m epoch) ≡ keep (runs_in k) epoch
keep-arrange m k epoch =
    keep-append (runs_in k) (keep (runs_in m) epoch) _ ∙ elim (Bool-cases (same_mode m k)) [
      | inl same ↦
          let own = keep-keep_of_imp (runs_in k) (runs_in m) epoch (λ j h. ground arith) in
          let none_else =
            keep-keep_of_not (runs_in k) (λ j. not (runs_in m j)) epoch (λ j h. ground arith) in
          rw (own, none_else) (append-nil (keep (runs_in k) epoch))
      | inr other ↦
          let none_own = keep-keep_of_not (runs_in k) (runs_in m) epoch (λ j h. ground arith) in
          let rest =
            keep-keep_of_imp (runs_in k) (λ j. not (runs_in m j)) epoch (λ j h. ground arith) in
          rw (none_own, rest)
    ]

order_from-free :
    (m : Protocol) (epoch : List ReadJob) (j : ReadJob) (js : List ReadJob)
    → j.independent ≡ true
    → order_from m epoch (j ∷ js) ≡ order_from m (epoch ++ j ∷ []) js
unfolding order_from
order_from-free m epoch j js e = simp e

order_from-barrier :
    (m : Protocol) (epoch : List ReadJob) (j : ReadJob) (js : List ReadJob)
    → j.independent ≡ false
    → order_from m epoch (j ∷ js) ≡ arrange m epoch ++ (j ∷ order_from (job_mode j) [] js)
unfolding order_from
order_from-barrier m epoch j js e = simp e

keep-order_from :
    (m k : Protocol) (epoch js : List ReadJob)
    → keep (runs_in k) (order_from m epoch js) ≡ keep (runs_in k) (epoch ++ js)
keep-order_from m k epoch [] = unfold order_from in rw (append-nil epoch) (keep-arrange m k epoch)
keep-order_from m k epoch (j ∷ js) = elim (Bool-cases j.independent) [
  | inl free ↦
      ap (keep (runs_in k)) (order_from-free m epoch j js free)
      ∙ keep-order_from m k (epoch ++ j ∷ []) js
      ∙ ap (keep (runs_in k)) (append_assoc epoch (j ∷ []) js)
  | inr barrier ↦
      ap (keep (runs_in k)) (order_from-barrier m epoch j js barrier)
      ∙ keep-append (runs_in k) (arrange m epoch) (j ∷ order_from (job_mode j) [] js)
      ∙ ap₂ (λ a b. a ++ b) (keep-arrange m k epoch)
          (ap (λ r. if runs_in k j then j ∷ r else r) (keep-order_from (job_mode j) k [] js))
      ∙ sym (keep-append (runs_in k) epoch (j ∷ js))
]

-- For each protocol, the planned order has the same jobs as were asked for, in the order asked for:
-- no job is lost, doubled or invented, and only jobs of different protocols change places.
pub keep-dependency_safe_order :
    (jobs : List ReadJob) (initial k : Protocol)
    → keep (runs_in k) (dependency_safe_order jobs initial) ≡ keep (runs_in k) jobs
unfolding dependency_safe_order
keep-dependency_safe_order jobs initial k = keep-order_from initial k [] jobs

order_from-append_barrier :
    (m : Protocol) (epoch before : List ReadJob) (b : ReadJob) (after : List ReadJob)
    → b.independent ≡ false
    → order_from m epoch (before ++ b ∷ after)
      ≡ order_from m epoch before ++ (b ∷ order_from (job_mode b) [] after)
order_from-append_barrier m epoch [] b after h =
    unfold order_from in order_from-barrier m epoch b after h
order_from-append_barrier m epoch (j ∷ js) b after h = elim (Bool-cases j.independent) [
  | inl free ↦
      order_from-free m epoch j (js ++ b ∷ after) free
      ∙ order_from-append_barrier m (epoch ++ j ∷ []) js b after h
      ∙ ap (λ r. r ++ (b ∷ order_from (job_mode b) [] after))
          (sym (order_from-free m epoch j js free))
  | inr barrier ↦
      order_from-barrier m epoch j (js ++ b ∷ after) barrier
      ∙ ap (λ r. arrange m epoch ++ (j ∷ r))
          (order_from-append_barrier (job_mode j) [] js b after h)
      ∙ sym (append_assoc (arrange m epoch) (j ∷ order_from (job_mode j) [] js) _)
      ∙ ap (λ r. r ++ (b ∷ order_from (job_mode b) [] after))
          (sym (order_from-barrier m epoch j js barrier))
]

-- A job that is not independent is a barrier: the jobs before it are planned as if it and what
-- follows were not there, then comes the job, then what follows, planned from the job's protocol.
pub order-append_barrier :
    (before : List ReadJob) (b : ReadJob) (after : List ReadJob) (initial : Protocol)
    → b.independent ≡ false
    → dependency_safe_order (before ++ b ∷ after) initial
      ≡ dependency_safe_order before initial ++ (b ∷ dependency_safe_order after (job_mode b))
unfolding dependency_safe_order
order-append_barrier before b after initial h =
    order_from-append_barrier initial [] before b after h
