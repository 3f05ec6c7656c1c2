-- ===== src/Store/LoginThrottle.antt =====
-- internal/store/login_throttle.go: failed sign-ins are counted per account and per client IP, and
-- either is locked out at its limit. Durations are milliseconds.
pub mod Bump
pub mod Lockout
pub mod Waiting
use dorian_back_end.Prelude.{
  ℕ, ◌≡◌, Bool, not, Option, none, some, List, [], ◌∷◌, ◌++◌, ◌==◌, if◌then◌else◌, ℤ, pos, pos_part,
  positive, ltb_ℤ,
}
use dorian_back_end.Text.{Text, codes, ◌is◌, trim_space, to_lower}
use dorian_back_end.Action.{Action, pure, ◌>>=◌, ◌>>◌}
use dorian_back_end.Store.Redis.{Redis}

pub record LoginThrottleConfig : Type 0 where
  pub max_account_failures : ℤ
  pub max_ip_failures : ℤ
  pub window : ℤ
  pub lockout : ℤ

abbrev default_to : ℕ → ℤ → ℤ
default_to d x = if positive x then x else pos d

-- `NewLoginThrottleStore`: the configuration that the store keeps.
unfoldable pub effective : LoginThrottleConfig → LoginThrottleConfig
effective cfg = record {
  max_account_failures = default_to 10 cfg.max_account_failures;
  max_ip_failures = default_to 30 cfg.max_ip_failures;
  window = default_to 900000 cfg.window;
  lockout = default_to 900000 cfg.lockout;
}

abbrev pub fail_account_key : Text
fail_account_key = codes "auth:login_fail:acct:"

abbrev pub fail_ip_key : Text
fail_ip_key = codes "auth:login_fail:ip:"

abbrev pub lock_account_key : Text
lock_account_key = codes "auth:login_lock:acct:"

abbrev pub lock_ip_key : Text
lock_ip_key = codes "auth:login_lock:ip:"

module _ (r : Redis) (cfg : LoginThrottleConfig) where
  open r use {State, incr, expire, set_and_del}

  unfoldable pub start_window : ℕ → Text → Action State (Unit {0})
  start_window count counter_key =
      if count == 1 then expire counter_key (pos_part cfg.window) else pure tt

  unfoldable pub lock_at_limit : ℕ → Text → Text → ℤ → Action State (Unit {0})
  lock_at_limit count counter_key lock_key limit =
      if ltb_ℤ (pos count) limit
      then pure tt
      else set_and_del lock_key (pos_part cfg.lockout) counter_key

  unfoldable pub bump : Text → Text → ℤ → Action State (Unit {0})
  bump counter_key lock_key limit = do
    count ← incr counter_key
    start_window count counter_key
    lock_at_limit count counter_key lock_key limit

abbrev pub blank : Text → Bool
blank s = trim_space s is []

-- The first 16 bytes of the SHA-256 sum, in hexadecimal, are the parameter `digest`.
unfoldable pub account_key : (Text → Text) → Text → Text
account_key digest account = digest (to_lower (trim_space account))

-- The keys that `RetryAfter` asks for.
unfoldable pub lock_keys : (Text → Text) → Text → Text → List Text
lock_keys digest ip account =
    (if blank account then [] else (lock_account_key ++ account_key digest account) ∷ [])
    ++ (if blank ip then [] else (lock_ip_key ++ ip) ∷ [])

module _ (r : Redis) (digest : Text → Text) (cfg : LoginThrottleConfig) where
  open r use {State, pttl, del}

  -- The loop of `RetryAfter`; `wait` starts at 0, so a reply below 0 does not change it.
  unfoldable pub longest_wait : List Text → ℤ → Action State ℤ
  longest_wait [] wait = pure wait
  longest_wait (key ∷ keys) wait = do
    ttl ← pttl key
    longest_wait keys (if ltb_ℤ wait ttl then ttl else wait)

  unfoldable pub retry_after : Text → Text → Action State ℤ
  retry_after ip account = longest_wait (lock_keys digest ip account) (pos 0)

  unfoldable pub bump_account : Text → Action State (Unit {0})
  bump_account account =
      if blank account
      then pure tt
      else bump r cfg (fail_account_key ++ account_key digest account)
          (lock_account_key ++ account_key digest account) cfg.max_account_failures

  unfoldable pub bump_ip : Text → Action State (Unit {0})
  bump_ip ip =
      if blank ip
      then pure tt
      else bump r cfg (fail_ip_key ++ ip) (lock_ip_key ++ ip) cfg.max_ip_failures

  unfoldable pub record_failure : Text → Text → Action State (Unit {0})
  record_failure ip account = do bump_account account; bump_ip ip

  unfoldable pub record_success : Text → Action State (Unit {0})
  record_success account =
      if blank account then pure tt else del (fail_account_key ++ account_key digest account)
