-- ===== src/Examples/Throttle.antt =====
-- Two failed sign-ins of one account, whose limit is two.
use dorian_back_end.Prelude.{refl, pos, ℕ}
use dorian_back_end.Text.{Text, codes, ◌is◌}
use dorian_back_end.Store.Redis.{Keyspace, absent}
use dorian_back_end.Store.LoginThrottle.{
  LoginThrottleConfig, record_failure, bump_account, bump_ip, bump, start_window, lock_at_limit,
  account_key,
}
use dorian_back_end.Store.LoginThrottle.Lockout
use dorian_back_end.Store.LoginThrottle.Lockout.{start, again}
use dorian_back_end.Examples.Servers.{memory_redis, memory_redis-IsDocumented}

abbrev pub limits : LoginThrottleConfig
limits = record {
  max_account_failures = pos 2;
  max_ip_failures = pos 30;
  window = pos 900000;
  lockout = pos 600000;
}

abbrev pub plain : Text → Text
plain s = s

abbrev pub ann : Text
ann = codes "ann"

abbrev pub home : Text
home = codes "10.0.0.1"

abbrev pub empty : Keyspace × ℕ
empty = (λ k. absent, 1000)

abbrev attempt : Keyspace × ℕ → Keyspace × ℕ
attempt m = (record_failure memory_redis plain limits home ann m).1

abbrev pub failed_once : Keyspace × ℕ
failed_once = attempt empty

abbrev pub locked : Keyspace × ℕ
locked = attempt failed_once

pub one-Failures :
    Lockout.Failures memory_redis memory_redis-IsDocumented plain limits ann empty 1 failed_once
unfolding record_failure bump_account bump_ip bump start_window lock_at_limit ◌is◌
    dorian_back_end.Text.trim_space account_key dorian_back_end.Text.to_lower
one-Failures = again home start refl
