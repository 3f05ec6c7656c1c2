-- ===== src/Api/SignIn/Granted.antt =====
-- What stands behind a session that the sign-in handlers issue.
pub mod ByFactor
pub mod ByPassword
use dorian_back_end.Prelude.{
  ◌≡◌, refl, ap, Bool, true, false, not, ◌||◌, Option, none, some, [], arith, ℤ, positive,
  Bool-cases, inl, inr,
}
use dorian_back_end.Text.{Text, codes, ◌is◌, is_iff, trim_space, to_lower, equal_fold}
use dorian_back_end.Action.{
  Result, ok, err, failed, not_found, invalid, expired, too_long, unavailable,
}
use dorian_back_end.Auth.Jwt.{MfaChallenge}
use dorian_back_end.Store.AuthSessions.{AuthSession}
use dorian_back_end.Api.SignIn.{
  User, MfaAccess, Answer, reply, too_many_attempts, done, login_retry_after,
  write_too_many_attempts,
}
use dorian_back_end.Api.SignIn.SecondFactor.{mfa_required_for_user, verify_second_factor}
use dorian_back_end.Api.SignIn.Session.{
  LoginOutcome, session_issued, mfa_required, Caller, login_response, mfa_setup_required,
  issue_session, write_session_response, respond,
}
use dorian_back_end.Api.SignIn.Login.{
  Services, LoginRequest, LoginMfaRequest, sign_in, logged_in, challenged, password_challenge,
  mfa_challenge_ttl, after_status, after_credentials, after_wait, login_with, login_handler,
  sign_in_method, after_factor, after_mfa_wait, after_user, after_challenge, login_mfa_handler,
}

module _ {S : Type 0} (v : Services S) (caller : Caller) where
  -- A session that was made and signed, from `s`.
  pub record Issued (user : User) (method : Text) (remember : Bool) (s : S) (o : LoginOutcome)
      : Type 0 where
    pub token : Text
    pub session : AuthSession
    pub after : S
    pub issued :
        issue_session v.settings v.mfa v.sessions v.sign v.cfg caller user method remember s
        ≡ (ok (token, session), after)
    pub is_of :
        o
        ≡ session_issued (
            login_response v.settings v.mfa v.sessions v.sign v.cfg user token session
              (mfa_setup_required v.settings v.mfa v.sessions v.sign v.cfg user after).0)

  logged_in_done :
      (user : User) (account details : Text) (p : Answer LoginOutcome × S) (o : LoginOutcome)
      (t : S)
      → logged_in v caller user account details p ≡ (done o, t)
      → p.0 ≡ done o
  logged_in_done user account details (done a, u) o t h = ground arith
  logged_in_done user account details (reply status text, u) o t h = absurd (ground arith)
  logged_in_done user account details (too_many_attempts seconds minutes, u) o t h =
      absurd (ground arith)

  respond_done :
      (user : User) (method : Text) (remember : Bool) (s : S) (p : Result (Text × AuthSession) × S)
      (o : LoginOutcome)
      → issue_session v.settings v.mfa v.sessions v.sign v.cfg caller user method remember s ≡ p
      → (respond v.settings v.mfa v.sessions v.sign v.cfg user p).0 ≡ done o
      → Issued user method remember s o
  respond_done user method remember s (err e, u) o asked h = absurd (ground arith)
  respond_done user method remember s (ok (token, session), u) o asked h = record {
    token = token;
    session = session;
    after = u;
    issued = asked;
    is_of = ground arith;
  }

  sign_in_done :
      (user : User) (method : Text) (remember : Bool) (account details : Text) (s t : S)
      (o : LoginOutcome)
      → sign_in v caller user method remember account details s ≡ (done o, t)
      → Issued user method remember s o
  unfolding write_session_response
  sign_in_done user method remember account details s t o h =
      respond_done user method remember s
        (issue_session v.settings v.mfa v.sessions v.sign v.cfg caller user method remember s) o
        refl (logged_in_done user account details _ o t h)
