-- ===== src/Api/SignIn.antt =====
-- internal/api/mfa_handlers.go, internal/api/account.go and `loginHandler` of internal/api/handlers.go:
-- signing in. The stores are interfaces over one state. Durations are milliseconds.
pub mod SecondFactor
pub mod Session
pub mod Login
pub mod Wired
pub mod Unsigned
pub mod RetryAfter
pub mod Once
pub mod Granted
pub mod Enrolled
pub mod LockedOut
use dorian_back_end.Prelude.{
  ℕ, ◌+◌, ◌/◌, ◌≡◌, Bool, Option, none, some, List, [], ltb, if◌then◌else◌, ℤ, pos, pos_part,
  positive,
}
use dorian_back_end.Text.{Text, codes}
use dorian_back_end.Action.{Action, Result, ok, err}
use dorian_back_end.Store.UserMfa.{MfaStatus}
use dorian_back_end.Store.AuthSessions.{AuthSession, AuthSessionCreateInput}

-- The columns of a user that sign-in reads.
pub record User : Type 0 where
  pub id : ℤ
  pub name : Text
  pub email : Text
  pub role : Text
  pub status : Text

pub record ThrottleAccess (S : Type 0) : Type 0 where
  pub retry_after : Text → Text → Action S ℤ
  pub record_failure : Text → Text → Action S (Unit {0})
  pub record_success : Text → Action S (Unit {0})

pub record MfaAccess (S : Type 0) : Type 0 where
  pub status : ℤ → Action S MfaStatus
  pub secret : ℤ → Action S (Text × ℤ)
  pub set_pending_secret : ℤ → Text → Action S (Unit {0})
  pub pending_secret : ℤ → Action S Text
  pub enable : ℤ → Text → ℤ → Action S (List Text)
  pub disable : ℤ → Action S (Unit {0})
  pub advance_step : ℤ → ℤ → Action S Bool
  pub consume_recovery_code : ℤ → Text → Action S Bool
  pub regenerate_recovery_codes : ℤ → Action S (List Text)

pub record UserAccess (S : Type 0) : Type 0 where
  pub find_by_id : ℤ → Action S User
  pub find_by_credentials : Text → Text → Action S User

pub record SessionStore (S : Type 0) : Type 0 where
  pub create : AuthSessionCreateInput → Action S AuthSession
  pub revoke : ℤ → Text → Action S Bool

-- What `logLoginAttempt` writes, less what it takes from the request.
pub record LoginEntry : Type 0 where
  pub actor_user_id : Option ℤ
  pub name : Text
  pub email : Text
  pub role : Text
  pub action : Text
  pub status : ℕ
  pub details : Text

-- The answer of a handler: a refusal is its status and the `error` field of the JSON that is written;
-- `too_many_attempts` has the seconds of `Retry-After` and the minutes of the message.
pub data Answer (A : Type 0) : Type 0 where
  reply : ℕ → Text → Answer A
  too_many_attempts : ℕ → ℕ → Answer A
  done : A → Answer A

-- `int(math.Ceil(wait.Seconds()))`, and at least 1.
unfoldable pub retry_seconds : ℤ → ℕ
retry_seconds wait =
    let seconds = (pos_part wait + 999) / 1000 in if ltb seconds 1 then 1 else seconds

unfoldable pub retry_minutes : ℕ → ℕ
retry_minutes seconds = (seconds + 59) / 60

unfoldable pub write_too_many_attempts : {A : Type 0} → ℤ → Answer A
write_too_many_attempts wait =
    too_many_attempts (retry_seconds wait) (retry_minutes (retry_seconds wait))

module _ {S : Type 0} (throttle : Option (ThrottleAccess S)) where
  -- An error counts as no wait.
  abbrev pub waited : Result ℤ × S → ℤ × S
  waited (ok wait, s) = (wait, s)
  waited (err e, s) = (pos 0, s)

  unfoldable pub login_retry_after : Text → Text → S → ℤ × S
  login_retry_after ip account s = elim throttle [
    | none ↦ (pos 0, s)
    | some store ↦ waited (store.retry_after ip account s)
  ]

  unfoldable pub record_login_failure : Text → Text → S → S
  record_login_failure ip account s = elim throttle [
    | none ↦ s
    | some store ↦ (store.record_failure ip account s).1
  ]

  unfoldable pub record_login_success : Text → S → S
  record_login_success account s = elim throttle [
    | none ↦ s
    | some store ↦ (store.record_success account s).1
  ]

abbrev pub actor_id : User → Option ℤ
actor_id user = if positive user.id then some user.id else none

unfoldable pub login_entry : User → Bool → ℕ → Text → LoginEntry
login_entry user success status details = record {
  actor_user_id = actor_id user;
  name = user.name;
  email = user.email;
  role = user.role;
  action = if success then codes "login" else codes "login_failed";
  status = status;
  details = details;
}

-- `store.User{Email: email}`.
abbrev pub only_email : Text → User
only_email email = record { id = pos 0; name = []; email = email; role = []; status = [] }

unfoldable pub log_login_attempt :
    {S : Type 0} → Option (LoginEntry → Action S (Unit {0})) → User → Bool → ℕ → Text → S → S
log_login_attempt audit user success status details s = elim audit [
  | none ↦ s
  | some create ↦ (create (login_entry user success status details) s).1
]
