-- ===== src/Clock/Sync/Confirmed.antt =====
-- `synchronize` of tools/optolink-clock-sync.py: what it has written, and what it reports.
use optolink.Base.{
  ℕ, ◌+◌, ◌≤◌, ◌≡◌, refl, ◌⊎◌, inl, inr, Bool, true, false, not, ◌&&◌, some, List, ◌∷◌, arith, leb,
  ◌==◌, &&-eq-true, not-eq-true, leb→le,
}
use optolink.Base.Effect.{Outcome}
use optolink.Base.Effect.Triples.{Does-bind, Does-if, Does-from, Does-weaken, Does}
use optolink.Base.Result.{Result, ok, err, OnOk}
use optolink.Clock.{DateTime, isoweekday}
use optolink.Clock.Sync.{
  SyncError, checked, within, synced, Status, Host, Session, SyncOp, drift, correct, synchronize,
}
use optolink.Clock.Sync.Requests.{writes, Has, AtMost, Heard}
use optolink.Clock.Sync.Reports.{
  Reported, ShowsHost, AtHost, IsNear, same_day, After, reads, now-After, reports, Confirms,
  correct-Confirms,
}

-- What `synchronize` reports where it returns, with the reading that the last response gives: a check
-- that has written nothing, where only a check was asked for; a clock within the threshold, with the
-- right weekday and nothing written; or a clock within five seconds, with the right weekday.
pub record IsReport {W : Type 0} (host : Host W) (threshold : ℕ) (force check_only : Bool)
    (s t : Session W) : Type 0 where
  pub reading : DateTime × ℕ
  pub heard : Heard reading t
  pub status : Status
  pub last : t.statuses ≡ status ∷ s.statuses
  pub device : status.device_time ≡ some reading.0
  pub shows : ShowsHost host status t
  pub cause :
      ((status.state ≡ checked) × (check_only ≡ true) × (writes t.sent ≤ writes s.sent))
      ⊎ (((status.state ≡ within)
            × IsNear threshold reading status
            × (force ≡ false)
            × (writes t.sent ≤ writes s.sent))
          ⊎ ((status.state ≡ synced) × IsNear 5 reading status × (check_only ≡ false)))

module _ {W : Type 0} (host : Host W) (threshold : ℕ) (force check_only : Bool)
    (s : Session W) where
  abbrev Ends : Session W → Type 0
  Ends t = AtMost (writes s.sent + 1) t × (check_only ≡ true → AtMost (writes s.sent) t)

  abbrev Told : Session W → Type 0
  Told t = IsReport host threshold force check_only s t × Ends t

  calm : (t : Session W) → AtMost (writes s.sent) t → Ends t
  calm t a = (omega (arith, a), λ _. a)

  told :
      (x : DateTime × ℕ) (P : Status → Type 0) (h : DateTime) (m : SyncOp W Bool)
      → Does
          (λ t. After host s.statuses (writes s.sent) x t × AtHost host h t)
          m
          (λ _. Reported host (writes s.sent) s.statuses x P)
          (λ _. AtMost (writes s.sent))
      → ((t : Session W)
          → Reported host (writes s.sent) s.statuses x P t
          → IsReport host threshold force check_only s t)
      → Does
          (λ t. After host s.statuses (writes s.sent) x t × AtHost host h t)
          m
          (λ _. Told)
          (λ _. Ends)
  told x P h m does f =
      Does-weaken (λ _. Reported host (writes s.sent) s.statuses x P) (λ _. AtMost (writes s.sent))
        m does (λ _ t i. (f t i, calm t i.at_most)) (λ _ t i. calm t i)

  corrected :
      check_only ≡ false
      → Does (Has (writes s.sent) s.statuses) (correct host) (λ _. Told) (λ _. Ends)
  corrected h =
      Does-weaken (λ _. Confirms host s.statuses (writes s.sent + 1))
        (λ _. AtMost (writes s.sent + 1)) _ (correct-Confirms host s.statuses (writes s.sent))
        (λ _ t i.
          let r = i.reported in
          (
            record {
              reading = i.reading;
              heard = r.heard;
              status = r.status;
              last = r.last;
              device = r.device;
              shows = r.shows;
              cause = inr (inr (r.says.0, r.says.1, h));
            },
            (r.at_most, λ c. absurd (cc)),
          ))
        (λ e t i. (i, λ c. absurd (cc)))

  synchronizes :
      Does
        (Has (writes s.sent) s.statuses)
        (synchronize host threshold force check_only)
        (λ _. Told)
        (λ _. Ends)
  unfolding synchronize
  synchronizes =
      Does-bind (After host ss k) _ _
        (Does-weaken (After host ss k) (λ _. AtMost k) _ (reads host ss k) (λ _ t i. i)
          (λ _ t i. calm t i))
        λ read.
          Does-bind (λ h t. After host ss k read t × AtHost host h t) _ _
            (Does-weaken (λ h t. After host ss k read t × AtHost host h t) (λ _. AtMost k) _
              (now-After host ss k read) (λ _ t i. i) (λ _ t i. calm t i))
            λ host_time.
              Does-if check_only _ _
                (λ h.
                  told read (λ st. st.state ≡ checked) host_time _
                    (reports host ss k read _ _ refl refl)
                    λ t r. record {
                      reading = read;
                      heard = r.heard;
                      status = r.status;
                      last = r.last;
                      device = r.device;
                      shows = r.shows;
                      cause = inl (r.says, h, r.at_most);
                    })
                (λ h.
                  Does-if
                    (not force
                      && leb (drift read.0 host_time) threshold
                      && read.1 == isoweekday read.0)
                    _ _
                    (λ g.
                      let near = &&-eq-true _ _ g in
                      let calm = &&-eq-true (not force) _ near.0 in
                      told read (λ st. (st.state ≡ within) × IsNear threshold read st) host_time _
                        (reports host ss k read _ _ refl
                          (refl, (leb→le _ threshold calm.1, same_day _ _ near.1)))
                        λ t r. record {
                          reading = read;
                          heard = r.heard;
                          status = r.status;
                          last = r.last;
                          device = r.device;
                          shows = r.shows;
                          cause =
                              inr (inl (r.says.0, r.says.1, not-eq-true force calm.0, r.at_most));
                        })
                    (λ _. Does-from (Has k ss) _ (λ t i. i.0.0) (corrected h)))
    where
      k : ℕ
      k = writes s.sent

      ss : List Status
      ss = s.statuses

  -- `synchronize` writes at most once, and not at all for a check only, in whatever outcome. Where it
  -- returns, the status published last has the time that the splitter's response to the last request
  -- reads as, and the host's time that the host's clock showed just before it was published, and one of
  -- three holds: only a check was asked for, and nothing written; or
  -- that time is within the threshold of the host's, its weekday right, nothing was forced and nothing
  -- written; or it is within five seconds of the host's, its weekday right, and more than a check was
  -- asked for.
  pub synchronize-IsReport :
      let r = synchronize host threshold force check_only s in
      OnOk (λ _. IsReport host threshold force check_only s r.1) r.0
      × (writes r.1.sent ≤ writes s.sent + 1)
      × (check_only ≡ true → writes r.1.sent ≤ writes s.sent)
  synchronize-IsReport = outcome _ _ (synchronizes.at s (omega arith, refl))
    where
      outcome :
          (r : Result SyncError Bool) (t : Session W)
          → Outcome (λ _. Told) (λ _. Ends) r t
          → OnOk (λ _. IsReport host threshold force check_only s t) r
            × (AtMost (writes s.sent + 1) t)
            × (check_only ≡ true → AtMost (writes s.sent) t)
      outcome (ok a) t o = (o.0, o.1.0, o.1.1)
      outcome (err e) t o = (tt, o.0, o.1)
