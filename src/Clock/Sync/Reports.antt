-- ===== src/Clock/Sync/Reports.antt =====
-- The parts of `synchronize` of tools/optolink-clock-sync.py: what has been written and published
-- after each.
use optolink.Base.{
  ℕ, ◌+◌, ◌≤◌, ◌≡◌, refl, ap, Bool, true, ◌&&◌, Option, none, some, List, [], ◌∷◌, arith, leb, ◌==◌,
  if_elim, &&-eq-true, leb→le,
}
use optolink.Base.Effect.{give, ◌>>=◌, demand, Outcome}
use optolink.Base.Effect.Triples.{
  Does-give, Does-raise, Does-bind, Does-if, Does-from, Does-weaken, Does, Does-change,
}
use optolink.Base.Result.{Result, ok}
use optolink.Clock.{DateTime, isoweekday, encode_system_time}
use optolink.Clock.Sync.{
  SyncError, not_verified, synced, Status, Host, Session, drift, now, read_clock, publish_status,
  pause, verify, encoded, correct,
}
use optolink.Clock.Sync.Requests.{
  Has, AtMost, Heard, of_result-Known, read_clock-Heard, write_clock-Keeps,
}

-- The host's clock was read as the time, and nothing has happened since.
abbrev pub AtHost : {W : Type 0} → Host W → DateTime → Session W → Type 0
AtHost {W = W} host h s = (w : W) × (h ≡ (host.now w).0) × (s.world ≡ (host.now w).1)

-- The status was published right after the host's clock was read, and has the time that it showed; and
-- nothing has happened since.
abbrev pub ShowsHost : {W : Type 0} → Host W → Status → Session W → Type 0
ShowsHost {W = W} host st s =
    (w : W) × (st.host_time ≡ (host.now w).0)
    × (s.world ≡ (host.publish_status st (host.now w).1).1)

-- the status published last, after a reading
pub record Reported {W : Type 0} (host : Host W) (k : ℕ) (ss : List Status) (x : DateTime × ℕ)
    (P : Status → Type 0) (s : Session W) : Type 0 where
  pub at_most : AtMost k s
  pub heard : Heard x s
  pub status : Status
  pub last : s.statuses ≡ status ∷ ss
  pub device : status.device_time ≡ some x.0
  pub shows : ShowsHost host status s
  pub says : P status

-- within seconds of the host's clock, with the right weekday
abbrev pub IsNear : ℕ → DateTime × ℕ → Status → Type 0
IsNear seconds x st = (drift x.0 st.host_time ≤ seconds) × (x.1 ≡ isoweekday x.0)

pub same_day : (a b : ℕ) → (a == b) ≡ true → a ≡ b
same_day a b h = ground arith

module _ {W : Type 0} (host : Host W) (ss : List Status) where
  -- after a reading, with at most so many writes
  abbrev pub After : ℕ → DateTime × ℕ → Session W → Type 0
  After k x s = Has k ss s × Heard x s

  pub reads : (k : ℕ) → Does (Has k ss) (read_clock host) (After k) (λ _. AtMost k)
  reads k =
      Does-weaken (After k) (λ _. Has k ss) _ (read_clock-Heard host ss k) (λ _ s i. i)
        (λ _ s i. i.0)

  pub now-After :
      (k : ℕ) (x : DateTime × ℕ)
      → Does (After k x) (now host) (λ h s. After k x s × AtHost host h s) (λ _. AtMost k)
  unfolding now
  now-After k x = record { at = λ s i. (i, (s.world, refl, refl)) }

  now-Has : (k : ℕ) → Does (Has k ss) (now host) (λ _. Has k ss) (λ _. AtMost k)
  unfolding now
  now-Has k = record { at = λ s i. i }

  -- a status is the latest one, and nothing else of the session changes
  pub published :
      (k : ℕ) (st : Status)
      → Does (Has k ss) (publish_status host st) (λ _. Has k (st ∷ ss)) (λ _. AtMost k)
  unfolding publish_status demand
  published k st = record {
    at = λ s i.
        if_elim
          (λ (r : Result SyncError (Unit {0}) × Session W).
            Outcome (λ _. Has k (st ∷ ss)) (λ _. AtMost k) r.0 r.1)
          (host.publish_status st s.world).0 (λ _. (i.0, ap (λ x. st ∷ x) i.1)) (λ _. i.0);
  }

  published_after :
      (k : ℕ) (x : DateTime × ℕ) (st : Status)
      → Does
          (λ s. After k x s × AtHost host st.host_time s)
          (publish_status host st)
          (λ _ s. Has k (st ∷ ss) s × Heard x s × ShowsHost host st s)
          (λ _. AtMost k)
  unfolding publish_status demand
  published_after k x st = record {
    at = λ s i.
        if_elim
          (λ (r : Result SyncError (Unit {0}) × Session W).
            Outcome (λ _ t. Has k (st ∷ ss) t × Heard x t × ShowsHost host st t) (λ _. AtMost k) r.0
              r.1)
          (host.publish_status st s.world).0
          (λ _.
            let (w, shown, after) = i.1 in
            (
              (i.0.0.0, ap (λ x. st ∷ x) i.0.0.1),
              i.0.1,
              (w, shown, ap (λ v. (host.publish_status st v).1) after),
            ))
          (λ _. i.0.0.0);
  }

  pub reports :
      (k : ℕ) (x : DateTime × ℕ) (P : Status → Type 0) (st : Status)
      → st.device_time ≡ some x.0
      → P st
      → Does
          (λ s. After k x s × AtHost host st.host_time s)
          (publish_status host st >>= λ _. give true)
          (λ _. Reported host k ss x P)
          (λ _. AtMost k)
  reports k x P st d p =
      Does-bind (λ _ s. Has k (st ∷ ss) s × Heard x s × ShowsHost host st s) _ _
        (published_after k x st)
        λ _. Does-give true λ s i. record {
          at_most = i.0.0;
          heard = i.1;
          status = st;
          last = i.0.1;
          device = d;
          shows = i.2;
          says = p;
        }

  abbrev IsSynced : DateTime × ℕ → Status → Type 0
  IsSynced x st = (st.state ≡ synced) × IsNear 5 x st

  -- a reading that is reported as the one the clock was set by
  pub record Confirms (k : ℕ) (s : Session W) : Type 0 where
    pub reading : DateTime × ℕ
    pub reported : Reported host k ss reading (IsSynced reading) s

  verify-Confirms :
      (k : ℕ) (ds : List ℕ) (t : Option DateTime) (w : Option Bool)
      → Does (Has k ss) (verify host ds t w) (λ _. Confirms k) (λ _. AtMost k)
  unfolding verify pause
  verify-Confirms k [] t w =
      Does-bind (λ _. Has k ss) _ _ (now-Has k)
        λ host_time.
          Does-bind (λ _. AtMost k) _ _
            (Does-weaken (λ _. Has k (_ ∷ ss)) (λ _. AtMost k) _ (published k _) (λ _ s i. i.0)
              (λ e s i. i))
            (λ _. Does-raise not_verified (λ s i. i))
  verify-Confirms k (d ∷ ds) t w =
      Does-bind (λ _. Has k ss) _ _ (Does-change _ (λ s i. i))
        λ _. Does-bind (After k) _ _ (reads k) λ read.
          Does-bind (λ h s. After k read s × AtHost host h s) _ _ (now-After k read)
            λ host_time.
              Does-if (leb (drift read.0 host_time) 5 && read.1 == isoweekday read.0) _ _
                (λ h.
                  let near = &&-eq-true _ _ h in
                  Does-weaken (λ _. Reported host k ss read (IsSynced read)) (λ _. AtMost k) _
                    (reports k read (IsSynced read) _ refl
                      (refl, (leb→le _ 5 near.0, same_day _ _ near.1)))
                    (λ _ s i. record { reading = read; reported = i }) (λ _ s i. i))
                (λ _. Does-from (Has k ss) _ (λ s i. i.0.0) (verify-Confirms k ds _ _))

  pub correct-Confirms :
      (k : ℕ) → Does (Has k ss) (correct host) (λ _. Confirms (k + 1)) (λ _. AtMost (k + 1))
  unfolding correct
  correct-Confirms k =
      Does-bind (λ _. Has k ss) _ _
        (Does-weaken (λ _. Has k ss) (λ _. AtMost k) _ (now-Has k) (λ _ s i. i) more)
        λ target.
          Does-bind (λ _. Has k ss) _ _
            (Does-weaken (λ raw s. Has k ss s × (encoded host (encode_system_time target) ≡ ok raw))
              (λ _. Has k ss) _
              (of_result-Known (Has k ss) (encoded host (encode_system_time target))) (λ _ s i. i.0)
              (λ e s i. more e s i.0))
            λ raw.
              Does-bind (λ _. Has (k + 1) ss) _ _
                (Does-weaken (λ _. Has (k + 1) ss) (λ _. Has (k + 1) ss) _
                  (write_clock-Keeps host ss k raw) (λ _ s i. i) (λ _ s i. i.0))
                (λ _. verify-Confirms (k + 1) _ none none)
    where
      more : (e : SyncError) (s : Session W) → AtMost k s → AtMost (k + 1) s
      more e s i = omega (arith, i)
