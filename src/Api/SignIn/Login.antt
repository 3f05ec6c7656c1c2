-- ===== src/Api/SignIn/Login.antt =====
-- internal/api/handlers.go `loginHandler`, and internal/api/mfa_handlers.go `loginMFAHandler`.
use dorian_back_end.Prelude.{
  ℕ, Bool, true, false, not, ◌||◌, Option, none, some, [], ◌++◌, if◌then◌else◌, ℤ, pos, positive,
}
use dorian_back_end.Text.{Text, codes, ◌is◌, trim_space, to_lower, equal_fold}
use dorian_back_end.Action.{Action, Result, ok, err, not_found}
use dorian_back_end.Auth.Jwt.{UserIdentity, MfaChallenge}
use dorian_back_end.Api.SignIn.{
  User, ThrottleAccess, MfaAccess, UserAccess, SessionStore, LoginEntry, Answer, reply,
  too_many_attempts, done, write_too_many_attempts, login_retry_after, record_login_failure,
  record_login_success, log_login_attempt, only_email,
}
use dorian_back_end.Api.SignIn.SecondFactor.{mfa_required_for_user, verify_second_factor}
use dorian_back_end.Api.SignIn.Session.{
  SignInConfig, LoginOutcome, mfa_required, Caller, write_session_response,
}

-- What the handlers are given; `none` is a nil store. `sign`, `challenge`, `parse_challenge` and
-- `validate` are functions of package auth, with the clock at the time of the call.
pub record Services (S : Type 0) : Type 0 where
  pub cfg : SignInConfig
  pub users : UserAccess S
  pub mfa : Option (MfaAccess S)
  pub sessions : SessionStore S
  pub settings : Option (Text → Action S Text)
  pub throttle : Option (ThrottleAccess S)
  pub audit : Option (LoginEntry → Action S (Unit {0}))
  pub sign : UserIdentity → Text → ℤ → Result Text
  pub challenge : MfaChallenge → Text → ℤ → Result Text
  pub parse_challenge : Text → Text → Result MfaChallenge
  pub validate : Text → Text → ℤ → Option ℤ

-- `none` is a body that is not JSON.
pub record LoginRequest : Type 0 where
  pub email : Text
  pub password : Text
  pub remember : Bool

pub record LoginMfaRequest : Type 0 where
  pub mfa_token : Text
  pub code : Text

abbrev pub mfa_challenge_ttl : ℤ
mfa_challenge_ttl = pos 300000

module _ {S : Type 0} (v : Services S) (caller : Caller) where
  abbrev pub log_attempt : User → Bool → ℕ → Text → S → S
  log_attempt = log_login_attempt v.audit

  -- The end of both handlers: a session that was issued resets the count of the account.
  abbrev pub logged_in : User → Text → Text → Answer LoginOutcome × S → Answer LoginOutcome × S
  logged_in user account details (done outcome, s) =
      (done outcome, log_attempt user true 200 details (record_login_success v.throttle account s))
  logged_in user account details (reply status text, s) = (reply status text, s)
  logged_in user account details (too_many_attempts seconds minutes, s) =
      (too_many_attempts seconds minutes, s)

  abbrev pub sign_in : User → Text → Bool → Text → Text → S → Answer LoginOutcome × S
  sign_in user method remember account details s = logged_in user account details (
      write_session_response v.settings v.mfa v.sessions v.sign v.cfg caller user method remember s)

  abbrev failed_to_authenticate : Answer LoginOutcome
  failed_to_authenticate = reply 500 (codes "failed to authenticate")

  abbrev pub challenged : Result Text → Answer LoginOutcome
  challenged (ok token) = done (mfa_required token)
  challenged (err e) = failed_to_authenticate

  abbrev pub password_challenge : User → Bool → MfaChallenge
  password_challenge user remember = record {
    user_id = user.id;
    remember = remember;
    method = codes "password";
  }

  abbrev pub after_status : User → Text → Bool → Result Bool × S → Answer LoginOutcome × S
  after_status user email remember (err e, s) = (failed_to_authenticate, s)
  after_status user email remember (ok needs_mfa, s) =
      if needs_mfa
      then (
        challenged
            (v.challenge (password_challenge user remember) v.cfg.jwt_secret mfa_challenge_ttl),
        s,
      )
      else sign_in user (codes "password") remember email (codes "Successful login") s

  abbrev pub after_credentials : Text → Bool → Result User × S → Answer LoginOutcome × S
  after_credentials email remember (err not_found, s) = (
    reply 401 (codes "unauthorized"),
    log_attempt (only_email email) false 401 (codes "Invalid email or password")
        (record_login_failure v.throttle caller.client_ip email s),
  )
  after_credentials email remember (err e, s) = (failed_to_authenticate, s)
  after_credentials email remember (ok user, s) =
      if equal_fold user.status (codes "Block")
      then (
        reply 403 (codes "forbidden"),
        log_attempt user false 403 (codes "Blocked account login attempt") s,
      )
      else if equal_fold user.status (codes "Waiting")
      then (
        reply 403 (codes "forbidden"),
        log_attempt user false 403 (codes "Waiting account login attempt") s,
      )
      else after_status user email remember (mfa_required_for_user v.mfa user.id s)

  abbrev pub after_wait : Text → Text → Bool → ℤ × S → Answer LoginOutcome × S
  after_wait email password remember (wait, s) =
      if positive wait
      then (
        write_too_many_attempts wait,
        log_attempt (only_email email) false 429 (codes "Login attempt while locked out") s,
      )
      else after_credentials email remember (v.users.find_by_credentials email password s)

  unfoldable pub login_with : Text → Text → Bool → S → Answer LoginOutcome × S
  login_with email password remember s =
      if (email is []) || (password is [])
      then (reply 400 (codes "email and password are required"), s)
      else after_wait email password remember
          (login_retry_after v.throttle caller.client_ip email s)

  unfoldable pub login_handler : Text → Option LoginRequest → S → Answer LoginOutcome × S
  login_handler method body s =
      if not (method is codes "POST")
      then (reply 405 (codes "method not allowed"), s)
      else elim body [
        | none ↦ (reply 400 (codes "invalid JSON body"), s)
        | some payload ↦
            login_with (to_lower (trim_space payload.email)) (trim_space payload.password)
              payload.remember s
      ]

  abbrev challenge_expired : Answer LoginOutcome
  challenge_expired = reply 401 (codes "mfa_challenge_expired")

  abbrev pub sign_in_method : MfaChallenge → Text
  sign_in_method c = (if c.method is [] then codes "password" else c.method) ++ codes "+2fa"

  abbrev pub after_factor : MfaChallenge → User → (Result Bool × Text) × S → Answer LoginOutcome × S
  after_factor c user ((err e, how), s) = (reply 500 (codes "failed to verify two-factor code"), s)
  after_factor c user ((ok false, how), s) = (
    reply 401 (codes "invalid_mfa_code"),
    log_attempt user false 401 (codes "Invalid two-factor code")
        (record_login_failure v.throttle caller.client_ip user.email s),
  )
  after_factor c user ((ok true, how), s) =
      sign_in user (sign_in_method c) c.remember user.email
        (codes "Successful login (2FA via " ++ how ++ codes ")") s

  abbrev pub after_mfa_wait :
      MfaAccess S → MfaChallenge → User → Text → ℤ × S → Answer LoginOutcome × S
  after_mfa_wait mfa c user code (wait, s) =
      if positive wait
      then (
        write_too_many_attempts wait,
        log_attempt user false 429 (codes "Two-factor attempt while locked out") s,
      )
      else after_factor c user (verify_second_factor mfa v.validate user.id code s)

  abbrev pub after_user :
      MfaAccess S → MfaChallenge → Text → Result User × S → Answer LoginOutcome × S
  after_user mfa c code (err e, s) = (challenge_expired, s)
  after_user mfa c code (ok user, s) =
      if not (equal_fold user.status (codes "Active"))
      then (reply 403 (codes "forbidden"), s)
      else after_mfa_wait mfa c user code
          (login_retry_after v.throttle caller.client_ip user.email s)

  abbrev pub after_challenge :
      MfaAccess S → Text → Result MfaChallenge → S → Answer LoginOutcome × S
  after_challenge mfa code (err e) s = (challenge_expired, s)
  after_challenge mfa code (ok c) s = after_user mfa c code (v.users.find_by_id c.user_id s)

  -- `mfa` is the second-factor store, which this handler has.
  unfoldable pub login_mfa_handler :
      MfaAccess S → Text → Option LoginMfaRequest → S → Answer LoginOutcome × S
  login_mfa_handler mfa method body s =
      if not (method is codes "POST")
      then (reply 405 (codes "method not allowed"), s)
      else elim body [
        | none ↦ (reply 400 (codes "invalid JSON body"), s)
        | some payload ↦
            after_challenge mfa payload.code (v.parse_challenge payload.mfa_token v.cfg.jwt_secret)
              s
      ]
