-- ===== src/Store/LoginThrottle/Bump.antt =====
-- One failure at one counter, against a step on the keys.
use dorian_back_end.Prelude.{
  ℕ, ◌+◌, ◌≤◌, ◌≡◌, ap, some, arith, ◌==◌, if◌then◌else◌, ℤ, pos, pos_part, ltb_ℤ, Bool-cases, inl,
  inr,
}
use dorian_back_end.Text.{Text, is_refl}
use dorian_back_end.Action.{Result, ok, >>=-eq-ok}
use dorian_back_end.Store.Redis.{
  Redis, IsDocumented, Keyspace, Cell, absent, cell, put, bumped, value, expiring, live,
}
use dorian_back_end.Store.LoginThrottle.{LoginThrottleConfig, start_window, lock_at_limit, bump}

-- The times of the commands of one failure: the count, the start of the window and the lock.
pub record Times (before after : ℕ) : Type 0 where
  pub count_at : ℕ
  pub window_at : ℕ
  pub lock_at : ℕ
  pub not_before : before ≤ count_at
  pub in_order : count_at ≤ window_at
  pub in_order_too : window_at ≤ lock_at
  pub not_after : lock_at ≤ after

-- The count after one more failure at a time; the window starts with the first.
abbrev pub counted : ℕ → ℕ → Cell → Cell
counted at window c =
    if value c + 1 == 1 then expiring (at + window) (live at (bumped c)) else bumped c

-- What one failure does to the keys: it is counted, or the lock is set and the counter removed.
abbrev pub fail_step : LoginThrottleConfig → ℕ → ℕ → ℕ → Text → Text → ℤ → Keyspace → Keyspace
fail_step cfg count_at window_at lock_at counter lock limit m j =
    if ltb_ℤ (pos (value (live count_at (m counter)) + 1)) limit
    then put m counter (counted window_at (pos_part cfg.window) (live count_at (m counter))) j
    else put (put m lock (cell 1 (some (lock_at + pos_part cfg.lockout)))) counter absent j

module _ (r : Redis) (doc : IsDocumented r) (cfg : LoginThrottleConfig) where
  open r use {State, view, clock, incr, set_and_del}

  start_window_ok :
      (m : Keyspace) (c : Cell) (counter : Text) (n : ℕ) (s t : State)
      → view s ≡ put m counter (bumped c)
      → n ≡ value c + 1
      → start_window r cfg n counter s ≡ (ok tt, t)
      → (at : ℕ) × (clock s ≤ at)
        × (at ≤ clock t)
        × ((j : Text) → view t j ≡ put m counter (counted at (pos_part cfg.window) c) j)
  unfolding start_window
  start_window_ok m c counter n s t before count h = elim (Bool-cases (n == 1)) [
    | inl first ↦
        let (forward, set) = doc.expire_ok counter (pos_part cfg.window) s t (rw first at h) in
        (
          clock t,
          forward,
          omega arith,
          λ j. ground (
            arith,
            ap (λ (f : Keyspace). f j) set,
            ap (λ (f : Keyspace). f j) before,
            ap (λ (f : Keyspace). f counter) before,
            is_refl counter,
            ap (live (clock t)) (ap (λ (f : Keyspace). f counter) before),
          ),
        )
    | inr later ↦
        let same = ap (λ (p : Result (Unit {0}) × State). p.1) (rw later at h) in
        (
          clock s,
          omega arith,
          omega (arith, ap clock same),
          λ j. ground (arith, ap (λ (f : Keyspace). f j) before, ap (λ (p : State). view p j) same),
        )
  ]

  lock_at_limit_ok :
      (m : Keyspace) (c : Cell) (counter lock : Text) (limit : ℤ) (n at : ℕ) (s t : State)
      → ((j : Text) → view s j ≡ put m counter (counted at (pos_part cfg.window) c) j)
      → n ≡ value c + 1
      → lock_at_limit r cfg n counter lock limit s ≡ (ok tt, t)
      → (lock_at : ℕ) × (clock s ≤ lock_at)
        × (lock_at ≤ clock t)
        × ((j : Text)
            → view t j ≡ (
                if ltb_ℤ (pos (value c + 1)) limit
                then put m counter (counted at (pos_part cfg.window) c) j
                else put
                    (put m lock (cell 1 (some (lock_at + pos_part cfg.lockout))))
                    counter
                    absent
                    j))
  unfolding lock_at_limit
  lock_at_limit_ok m c counter lock limit n at s t before count h =
      elim (Bool-cases (ltb_ℤ (pos n) limit)) [
        | inl below ↦
            let same = ap (λ (p : Result (Unit {0}) × State). p.1) (rw below at h) in
            (
              clock s,
              omega arith,
              omega (arith, ap clock same),
              λ j. ground (arith, before j, ap (λ (p : State). view p j) same),
            )
        | inr reached ↦
            let (forward, set) =
              doc.set_and_del_ok lock (pos_part cfg.lockout) counter s t (rw reached at h) in
            (
              clock t,
              forward,
              omega arith,
              λ j. ground (arith, before j, ap (λ (f : Keyspace). f j) set),
            )
      ]

  -- A failure that the server answers throughout changes the keys as `fail_step` says.
  pub bump_ok :
      (counter lock : Text) (limit : ℤ) (s t : State)
      → bump r cfg counter lock limit s ≡ (ok tt, t)
      → (times : Times (clock s) (clock t)) × ((j : Text)
          → view t j
            ≡ fail_step cfg
                (times.count_at)
                (times.window_at)
                (times.lock_at)
                counter
                lock
                limit
                (view s)
                j)
  unfolding bump
  bump_ok counter lock limit s t h =
      let (n, u, asked, rest) = >>=-eq-ok (incr counter) _ s h in
      let (forward, n_eq, bumped_eq) = doc.incr_ok counter s n u asked in
      let (a, v, started, last) = >>=-eq-ok (start_window r cfg n counter) _ u rest in
      let c = live (clock u) (view s counter) in
      let (at, from, until, starts) =
        start_window_ok (view s) c counter n u v bumped_eq n_eq started in
      let (lock_at, from', until', ends) =
        lock_at_limit_ok (view s) c counter lock limit n at v t starts n_eq last in
      (
        record {
          count_at = clock u;
          window_at = at;
          lock_at = lock_at;
          not_before = forward;
          in_order = from;
          in_order_too = omega (arith, until, from');
          not_after = until';
        },
        ends,
      )
