-- ===== src/Api/SignIn/Session.antt =====
-- internal/api/account.go: a session and its signed token. Durations are milliseconds, and `sign` is
-- `auth.IssueUserToken` at the time of the call.
use dorian_back_end.Prelude.{
  ℕ, ◌*◌, Bool, false, not, ◌&&◌, Option, none, some, if◌then◌else◌, ℤ, pos, pos_part, positive,
}
use dorian_back_end.Text.{Text, codes}
use dorian_back_end.Action.{Action, Result, ok, err}
use dorian_back_end.Auth.Jwt.{UserIdentity}
use dorian_back_end.Store.AuthSessions.{AuthSession, AuthSessionCreateInput}
use dorian_back_end.Store.PanelSettings.{
  require_mfa_applies, normalize_require_mfa, setting_require_mfa, off,
}
use dorian_back_end.Api.SignIn.{User, MfaAccess, SessionStore, Answer, reply, done}
use dorian_back_end.Api.SignIn.SecondFactor.{mfa_required_for_user}

-- The settings of config.Config that sign-in reads.
pub record SignInConfig : Type 0 where
  pub jwt_secret : Text
  pub jwt_ttl_hours : ℤ
  pub remember_me_ttl_days : ℤ

abbrev hour : ℕ
hour = 3600000

unfoldable pub session_ttl : SignInConfig → Bool → ℤ
session_ttl cfg remember =
    if remember && positive cfg.remember_me_ttl_days
    then pos (pos_part cfg.remember_me_ttl_days * 24 * hour)
    else if positive cfg.jwt_ttl_hours
    then pos (pos_part cfg.jwt_ttl_hours * hour)
    else pos (24 * hour)

pub record LoginResponse : Type 0 where
  pub token : Text
  pub id : ℤ
  pub email : Text
  pub role : Text
  pub name : Text
  pub remember : Bool
  pub expires_at : ℕ
  pub mfa_setup_required : Bool

-- What a successful sign-in answers.
pub data LoginOutcome : Type 0 where
  session_issued : LoginResponse → LoginOutcome
  mfa_required : Text → LoginOutcome

-- The caller, as `clientIPFromRequest` and `r.UserAgent` report it.
pub record Caller : Type 0 where
  pub client_ip : Text
  pub user_agent : Text

abbrev pub identity : User → AuthSession → UserIdentity
identity user session = record {
  id = user.id;
  email = user.email;
  name = user.name;
  role = user.role;
  session_id = session.id;
}

abbrev pub session_input : SignInConfig → Caller → User → Text → Bool → AuthSessionCreateInput
session_input cfg caller user method remember = record {
  user_id = user.id;
  method = method;
  remember = remember;
  ip_address = caller.client_ip;
  user_agent = caller.user_agent;
  ttl = session_ttl cfg remember;
}

module _ {S : Type 0} (settings : Option (Text → Action S Text)) (mfa : Option (MfaAccess S))
    (sessions : SessionStore S) (sign : UserIdentity → Text → ℤ → Result Text)
    (cfg : SignInConfig) where
  abbrev pub policy_read : Result Text × S → Text × S
  policy_read (ok value, s) = (normalize_require_mfa value, s)
  policy_read (err e, s) = (off, s)

  unfoldable pub require_mfa_policy : S → Text × S
  require_mfa_policy s = elim settings [
    | none ↦ (off, s)
    | some settings_get ↦ policy_read (settings_get setting_require_mfa s)
  ]

  abbrev pub lacks_mfa : Result Bool × S → Bool × S
  lacks_mfa (ok enabled, s) = (not enabled, s)
  lacks_mfa (err e, s) = (false, s)

  abbrev pub setup_needed : User → Text × S → Bool × S
  setup_needed user (policy, s) =
      if require_mfa_applies policy user.role
      then lacks_mfa (mfa_required_for_user mfa user.id s)
      else (false, s)

  unfoldable pub mfa_setup_required : User → S → Bool × S
  mfa_setup_required user s = setup_needed user (require_mfa_policy s)

  abbrev pub token_signed : User → AuthSession → Result Text → S → Result (Text × AuthSession) × S
  token_signed user session (ok token) s = (ok (token, session), s)
  token_signed user session (err e) s = (err e, (sessions.revoke user.id session.id s).1)

  abbrev pub created : User → ℤ → Result AuthSession × S → Result (Text × AuthSession) × S
  created user ttl (err e, s) = (err e, s)
  created user ttl (ok session, s) =
      token_signed user session (sign (identity user session) cfg.jwt_secret ttl) s

  unfoldable pub issue_session : Caller → User → Text → Bool → Action S (Text × AuthSession)
  issue_session caller user method remember s =
      created user (session_ttl cfg remember)
        (sessions.create (session_input cfg caller user method remember) s)

  abbrev pub login_response : User → Text → AuthSession → Bool → LoginResponse
  login_response user token session setup = record {
    token = token;
    id = user.id;
    email = user.email;
    role = user.role;
    name = user.name;
    remember = session.remember;
    expires_at = session.expires_at;
    mfa_setup_required = setup;
  }

  abbrev pub respond : User → Result (Text × AuthSession) × S → Answer LoginOutcome × S
  respond user (err e, s) = (reply 500 (codes "failed to issue session token"), s)
  respond user (ok (token, session), s) =
      let (setup, t) = mfa_setup_required user s in
      (done (session_issued (login_response user token session setup)), t)

  unfoldable pub write_session_response : Caller → User → Text → Bool → S → Answer LoginOutcome × S
  write_session_response caller user method remember s =
      respond user (issue_session caller user method remember s)
