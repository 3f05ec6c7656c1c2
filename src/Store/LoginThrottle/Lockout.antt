-- ===== src/Store/LoginThrottle/Lockout.antt =====
-- Runs of failures of one account.
use dorian_back_end.Prelude.{
  ℕ, zero, suc, ◌+◌, ◌≤◌, ◌<◌, ◌≡◌, refl, sym, ◌∙◌, ap, false, none, some, ◌++◌, arith, pos,
  pos_part, Bool-cases, inl, inr,
}
use dorian_back_end.Text.{Text, ◌is◌, is_refl}
use dorian_back_end.Action.{Result, ok, >>=-eq-ok}
use dorian_back_end.Store.Redis.{Redis, IsDocumented, Keyspace, Cell, absent, cell, value, live}
use dorian_back_end.Store.LoginThrottle.{
  LoginThrottleConfig, fail_account_key, fail_ip_key, lock_account_key, lock_ip_key, blank,
  account_key, bump_account, bump_ip, record_failure,
}
use dorian_back_end.Store.LoginThrottle.Bump.{Times, counted, fail_step, bump_ok}

-- Keys of different kinds are different.
kinds_differ :
    (x y : Text)
    → ((fail_ip_key ++ x is fail_account_key ++ y) ≡ false)
      × ((lock_ip_key ++ x is fail_account_key ++ y) ≡ false)
      × ((fail_ip_key ++ x is lock_account_key ++ y) ≡ false)
      × ((lock_ip_key ++ x is lock_account_key ++ y) ≡ false)
      × ((fail_account_key ++ x is lock_account_key ++ y) ≡ false)
      × ((lock_account_key ++ x is fail_account_key ++ y) ≡ false)
unfolding ◌is◌
kinds_differ x y = (refl, refl, refl, refl, refl, refl)

kinds_differ_account : (x y : Text) → (fail_account_key ++ x is lock_account_key ++ y) ≡ false
kinds_differ_account x y = (kinds_differ x y).4

-- The counter of an account after `k` failures since `from`: before the first no key is live; later the
-- key lives at least for the window after `from`.
abbrev Counted : ℕ → ℕ → ℕ → Cell → Type 0
Counted from window zero x = (at : ℕ) → from ≤ at → live at x ≡ absent
Counted from window (suc k) x = (e : ℕ) × (from + window ≤ e) × (x ≡ cell (suc k) (some e))

live_until : (at v e : ℕ) → at < e → live at (cell v (some e)) ≡ cell v (some e)
live_until at v e h = ground arith

Counted-value :
    (from window k at : ℕ) (x : Cell)
    → Counted from window k x
    → from ≤ at
    → at < from + window
    → value (live at x) ≡ k
Counted-value from window zero at x gone late early = ap value (gone at late)
Counted-value from window (suc k) at x (e, long, same) late early =
    ap value (ap (live at) same ∙ live_until at (suc k) e (omega (arith, long)))

-- One more failure is counted.
Counted-suc :
    (from window k at starts : ℕ) (x : Cell)
    → Counted from window k x
    → from ≤ at
    → at < from + window
    → at ≤ starts
    → Counted from window (suc k) (counted starts window (live at x))
Counted-suc from window zero at starts x gone late early order =
    (starts + window, omega (arith, late), rw (gone at late) refl)
Counted-suc from window (suc k) at starts x (e, long, same) late early order =
    let alive = ap (live at) same ∙ live_until at (suc k) e (omega (arith, long)) in
    (e, long, rw alive (ground arith))

-- A key that has expired stays away.
absent_later : (x : Cell) (a b : ℕ) → a ≤ b → live a x ≡ absent → live b x ≡ absent
absent_later absent a b h gone = refl
absent_later (cell v none) a b h gone = gone
absent_later (cell v (some e)) a b h gone = ground arith

module _ (cfg : LoginThrottleConfig) (count_at window_at lock_at : ℕ) (counter lock : Text) (L : ℕ)
    (m : Keyspace) (apart : (counter is lock) ≡ false) where
  -- Below the limit a failure is counted.
  fail_step_below :
      value (live count_at (m counter)) + 1 < L
      → fail_step cfg count_at window_at lock_at counter lock (pos L) m counter
        ≡ counted window_at (pos_part cfg.window) (live count_at (m counter))
  fail_step_below h = ground (arith, is_refl counter)

  -- At the limit the lock is set and the counter removed.
  fail_step_at :
      L ≤ value (live count_at (m counter)) + 1
      → (fail_step cfg count_at window_at lock_at counter lock (pos L) m lock
          ≡ cell 1 (some (lock_at + pos_part cfg.lockout)))
        × (fail_step cfg count_at window_at lock_at counter lock (pos L) m counter ≡ absent)
  fail_step_at h = (ground (arith, apart, is_refl lock), ground (arith, is_refl counter))

module _ (r : Redis) (doc : IsDocumented r) (digest : Text → Text) (cfg : LoginThrottleConfig)
    (account : Text) where
  open r use {State, view, clock}

  abbrev pub counter_key : Text
  counter_key = fail_account_key ++ account_key digest account

  abbrev pub lock_key : Text
  lock_key = lock_account_key ++ account_key digest account

  account_kinds_differ : (counter_key is lock_key) ≡ false
  account_kinds_differ = (kinds_differ_account _ _)

  -- Counting the IP changes no key of an account.
  bump_ip_ok :
      (ip : Text) (s t : State)
      → bump_ip r digest cfg ip s ≡ (ok tt, t)
      → (clock s ≤ clock t)
        × (view t counter_key ≡ view s counter_key)
        × (view t lock_key ≡ view s lock_key)
  unfolding bump_ip
  bump_ip_ok ip s t h = elim (Bool-cases (blank ip)) [
    | inl e ↦
        let same = ap (λ (p : Result (Unit {0}) × State). p.1) (rw e at h) in
        (
          omega (arith, ap clock same),
          ap (λ (u : State). view u counter_key) (sym same),
          ap (λ (u : State). view u lock_key) (sym same),
        )
    | inr e ↦
        let (times, keys) =
          bump_ok r doc cfg (fail_ip_key ++ ip) (lock_ip_key ++ ip) _ s t (rw e at h) in
        let apart = kinds_differ ip (account_key digest account) in
        (
          omega (arith, times.not_before, times.in_order, times.in_order_too, times.not_after),
          ground (arith, keys counter_key, apart),
          ground (arith, keys lock_key, apart),
        )
  ]

  -- An answered failure of a named account, seen at the two keys of the account.
  record_failure_ok :
      (ip : Text) (s t : State)
      → blank account ≡ false
      → record_failure r digest cfg ip account s ≡ (ok tt, t)
      → (times : Times (clock s) (clock t)) × (view t counter_key
          ≡ fail_step cfg
              (times.count_at)
              (times.window_at)
              (times.lock_at)
              counter_key
              lock_key
              cfg.max_account_failures
              (view s)
              counter_key)
        × (view t lock_key
            ≡ fail_step cfg
                (times.count_at)
                (times.window_at)
                (times.lock_at)
                counter_key
                lock_key
                cfg.max_account_failures
                (view s)
                lock_key)
  unfolding record_failure bump_account
  record_failure_ok ip s t named h =
      let (a, u, first, second) = >>=-eq-ok (bump_account r digest cfg account) _ s h in
      let (forward, c, l) = bump_ip_ok ip u t second in
      let (times, keys) = bump_ok r doc cfg counter_key lock_key _ s u (rw named at first) in
      (
        record {
          count_at = times.count_at;
          window_at = times.window_at;
          lock_at = times.lock_at;
          not_before = times.not_before;
          in_order = times.in_order;
          in_order_too = times.in_order_too;
          not_after = omega (arith, times.not_after, forward);
        },
        c ∙ keys counter_key,
        l ∙ keys lock_key,
      )

  -- Answered failures of the account, each from some IP. In between time passes, and anything else may
  -- happen that leaves the counter of the account alone.
  pub data Failures (s : State) : ℕ → State → Type 0 where
    start : Failures s zero s
    again :
        {n : ℕ} {t u : State} (ip : Text)
        → Failures s n t
        → record_failure r digest cfg ip account t ≡ (ok tt, u)
        → Failures s (suc n) u
    meanwhile :
        {n : ℕ} {t u : State}
        → Failures s n t
        → clock t ≤ clock u
        → view u counter_key ≡ view t counter_key
        → Failures s n u

  module _ (L : ℕ) (limit : cfg.max_account_failures ≡ pos L) (named : blank account ≡ false)
      (s : State) (no_count : live (clock s) (view s counter_key) ≡ absent) where
    forward_only : {n : ℕ} {t : State} → Failures s n t → clock s ≤ clock t
    forward_only start = omega arith
    forward_only (again {t = t} {u = u} ip f failed) =
        let (times, _, _) = record_failure_ok ip t u named failed in
        omega (
          arith,
          forward_only f,
          times.not_before,
          times.in_order,
          times.in_order_too,
          times.not_after,
        )
    forward_only (meanwhile f later kept) = omega (arith, forward_only f, later)

    -- Below the limit, and within the window, the failures are counted.
    below_limit :
        (k : ℕ) {t : State}
        → Failures s k t
        → k < L
        → clock t < clock s + pos_part cfg.window
        → Counted (clock s) (pos_part cfg.window) k (view t counter_key)
    below_limit zero start below early =
        λ at late. absent_later (view s counter_key) (clock s) at late no_count
    below_limit k (meanwhile {t = t} f later kept) below early =
        rw kept (below_limit k f below (omega (arith, later)))
    below_limit (suc k) (again {t = t} {u = u} ip f failed) below early =
        let (times, c, l) = record_failure_ok ip t u named failed in
        let from = forward_only f in
        let before =
          below_limit k f (omega arith) (
            omega (arith, times.not_before, times.in_order, times.in_order_too, times.not_after)) in
        let late : clock s ≤ times.count_at = omega (arith, from, times.not_before) in
        let in_time : times.count_at < clock s + pos_part cfg.window =
          omega (arith, times.in_order, times.in_order_too, times.not_after) in
        let counts =
          fail_step_below cfg (times.count_at) (times.window_at) (times.lock_at) counter_key
            lock_key L (view t) account_kinds_differ
            (omega (
              arith,
              Counted-value (clock s) (pos_part cfg.window) k (times.count_at) (view t counter_key)
                  before late in_time,
            )) in
        let now_counted : view u counter_key
            ≡ counted (times.window_at) (pos_part cfg.window)
                (live (times.count_at) (view t counter_key)) =
          c ∙ rw limit counts in
        rw now_counted (
          Counted-suc (clock s) (pos_part cfg.window) k (times.count_at) (times.window_at)
            (view t counter_key) before late in_time (times.in_order))

    -- From a state without a count of the account, as many answered failures as its limit, within the window
    -- of the first, lock the account for the lockout and clear its counter.
    pub locked_at_limit :
        (n : ℕ) (ip : Text) {t u : State}
        → L ≡ suc n
        → Failures s n t
        → record_failure r digest cfg ip account t ≡ (ok tt, u)
        → clock u < clock s + pos_part cfg.window
        → ((e : ℕ) × (clock t + pos_part cfg.lockout ≤ e) × (view u lock_key ≡ cell 1 (some e)))
          × (view u counter_key ≡ absent)
    locked_at_limit n ip {t = t} {u = u} last f failed early =
        let (times, c, l) = record_failure_ok ip t u named failed in
        let from = forward_only f in
        let before =
          below_limit n f (omega (arith, last)) (
            omega (arith, times.not_before, times.in_order, times.in_order_too, times.not_after)) in
        let (locks, clears) =
          fail_step_at cfg (times.count_at) (times.window_at) (times.lock_at) counter_key lock_key L
            (view t) account_kinds_differ
            (omega (
              arith,
              last,
              Counted-value (clock s) (pos_part cfg.window) n (times.count_at) (view t counter_key)
                  before (omega (arith, from, times.not_before))
                  (omega (arith, times.in_order, times.in_order_too, times.not_after)),
            )) in
        (
          (
            times.lock_at + pos_part cfg.lockout,
            omega (arith, times.not_before, times.in_order, times.in_order_too),
            l ∙ rw limit locks,
          ),
          c ∙ rw limit clears,
        )
