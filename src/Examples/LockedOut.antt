-- ===== src/Examples/LockedOut.antt =====
-- A sign-in after two failures, of an account whose limit is two.
use dorian_back_end.Prelude.{none, some, false, ℕ, suc}
use dorian_back_end.Text.{codes}
use dorian_back_end.Store.Redis.{Keyspace}
use dorian_back_end.Store.LoginThrottle.{LoginThrottleConfig}
use dorian_back_end.Api.SignIn.Session.{Caller}
use dorian_back_end.Api.SignIn.Login.{Services, LoginRequest}
use dorian_back_end.Api.SignIn.Wired.{throttle_access}
use dorian_back_end.Examples.Servers.{memory_redis}
use dorian_back_end.Examples.Throttle.{limits, plain, home, locked}
use dorian_back_end.Examples.SignIn.{services}

abbrev guarded : Services (Keyspace × ℕ)
guarded = services none (some (throttle_access memory_redis plain limits))

abbrev caller : Caller
caller = record { client_ip = home; user_agent = codes "browser" }

-- The right password.
abbrev payload : LoginRequest
payload = record { email = codes "Ann"; password = codes "secret"; remember = false }

-- The check of a caller asks for two keys.
abbrev checked : Keyspace × ℕ
checked = (locked.0, suc (suc locked.1))
