-- ===== src/Examples/SignIn.antt =====
-- Signing in, with and without a second factor, and changes of the second factor.
use dorian_back_end.Prelude.{
  ◌≡◌, refl, ◌≤◌, ◌<◌, ◌+◌, ◌*◌, Bool, true, false, Option, none, some, List, [], ◌∷◌, ℤ, pos, ◌≤ℤ◌,
}
use dorian_back_end.Text.{Text, codes, ◌is◌, trim_space, to_lower}
use dorian_back_end.Action.{Result, ok, err, not_found}
use dorian_back_end.Store.Database.{Database, find}
use dorian_back_end.Store.UserMfa.{
  MfaUser, RecoveryCode, MfaTables, is_user, string_of, normalize_recovery_code,
}
use dorian_back_end.Store.UserMfa.Replay.{start}
use dorian_back_end.Store.AuthSessions.{AuthSession, AuthSessionCreateInput}
use dorian_back_end.Store.PanelSettings.{off, require_mfa_applies}
use dorian_back_end.Api.AuthMiddleware.{AuthPrincipal, jwt}
use dorian_back_end.Api.SignIn.{
  User, ThrottleAccess, MfaAccess, LoginEntry, done, retry_seconds, retry_minutes,
}
use dorian_back_end.Api.SignIn.SecondFactor.{verify_second_factor}
use dorian_back_end.Api.SignIn.Session.{
  SignInConfig, LoginResponse, LoginOutcome, session_issued, Caller,
}
use dorian_back_end.Api.SignIn.Login.{
  Services, LoginRequest, LoginMfaRequest, login_handler, login_mfa_handler,
}
use dorian_back_end.Auth.Jwt.{UserClaims, Parsed, valid, parse_mfa_challenge}
use dorian_back_end.Api.SignIn.Wired.{mfa_access}
use dorian_back_end.Api.SignIn.Granted.ByFactor.{ByFactor, IsSigned, login_mfa_handler_sound}
use dorian_back_end.Api.SignIn.Granted.ByPassword.{ByPassword, login_handler_sound}
use dorian_back_end.Api.SignIn.Enrolled.{NeedsNone, password_alone_unenrolled}
use dorian_back_end.Api.SignIn.Once.{AtStep, accepted_steps_rise}
use dorian_back_end.Api.SignIn.RetryAfter.{retry_after_bounds}
use dorian_back_end.Api.MfaSettings.{mfa_enable_handler, mfa_disable_handler}
use dorian_back_end.Examples.Servers.{memory_database, memory_database-IsDocumented}

abbrev db : Database MfaTables
db = memory_database

abbrev plain : Text → Text
plain s = s

abbrev ann : MfaUser
ann = record {
  id = pos 7;
  totp_secret = some (codes "K");
  totp_pending_secret = none;
  totp_enabled_at = some 1000;
  totp_last_step = pos 10;
}

abbrev bob : MfaUser
bob = record {
  id = pos 8;
  totp_secret = none;
  totp_pending_secret = some (codes "N");
  totp_enabled_at = none;
  totp_last_step = pos 0;
}

abbrev tables : MfaTables
tables = record {
  users = ann ∷ bob ∷ [];
  recovery_codes = record { user_id = pos 7; code_hash = codes "abcde12345"; used_at = none } ∷ [];
}

abbrev no_codes : Result (List Text)
no_codes = ok (codes "aaaaabbbbb" ∷ [])

abbrev mfa : MfaAccess MfaTables
mfa = mfa_access db plain 2000 no_codes

-- Every code is that of the step after the last one.
abbrev next : Text → Text → ℤ → Option ℤ
next secret code (pos n) = some (pos (n + 1))
next secret code last_step = none

abbrev session_of : AuthSessionCreateInput → AuthSession
session_of input = record {
  id = codes "s1";
  user_id = input.user_id;
  method = input.method;
  remember = input.remember;
  ip_address = input.ip_address;
  user_agent = input.user_agent;
  created_at = 0;
  last_seen_at = 0;
  expires_at = 5000;
  revoked_at = none;
}

abbrev user_with : ℤ → User
user_with id = record {
  id = id;
  name = codes "U";
  email = codes "u@x.org";
  role = codes "User";
  status = codes "Active";
}

-- The claims of every token: a challenge of user 7.
abbrev challenge_claims : UserClaims
challenge_claims = record {
  user_id = pos 7;
  email = [];
  name = [];
  role = [];
  typ = codes "mfa_challenge";
  remember = true;
  method = codes "google";
  id = [];
  subject = codes "7";
  issued_at = 1000;
  not_before = 1000;
  expires_at = pos 1300;
}

abbrev signs : Text → UserClaims → Result Text
signs key claims = ok (codes "C")

abbrev reads : Text → Text → Parsed
reads key token = valid challenge_claims

-- Services over any state: everybody's password is "secret", and the token is "T".
abbrev pub services : {S : Type 0} → Option (MfaAccess S) → Option (ThrottleAccess S) → Services S
services mfa throttle = record {
  cfg = record { jwt_secret = codes "key"; jwt_ttl_hours = pos 1; remember_me_ttl_days = pos 0 };
  users = record {
    find_by_id = λ id s. (ok (user_with id), s);
    find_by_credentials = λ email password s. elim (password is codes "secret") [
      | true ↦ (ok (user_with (pos 8)), s)
      | false ↦ (err not_found, s)
    ];
  };
  mfa = mfa;
  sessions = record {
    create = λ input s. (ok (session_of input), s);
    revoke = λ user_id id s. (ok true, s);
  };
  settings = none;
  throttle = throttle;
  audit = none;
  sign = λ user secret ttl. ok (codes "T");
  challenge = λ challenge secret ttl. ok (codes "C");
  parse_challenge = parse_mfa_challenge signs reads;
  validate = next;
}

abbrev home : Caller
home = record { client_ip = codes "10.0.0.1"; user_agent = codes "browser" }

abbrev pub issued_to : ℤ → Bool → LoginResponse
issued_to id remember = record {
  token = codes "T";
  id = id;
  email = codes "u@x.org";
  role = codes "User";
  name = codes "U";
  remember = remember;
  expires_at = 5000;
  mfa_setup_required = false;
}

abbrev with_code : LoginMfaRequest
with_code = record { mfa_token = codes "C"; code = codes "ABCDE-12345" }

abbrev spent : MfaTables
spent =
    (login_mfa_handler (services (some mfa) none) home mfa (codes "POST") (some with_code) tables).1

login_mfa_handler_sound_example :
    (codes "POST" ≡ codes "POST")
    × (by : ByFactor
        (services (some mfa) none)
        home
        mfa
        with_code
        tables
        (session_issued (issued_to (pos 7) true)))
    × IsSigned reads (codes "C") (codes "key") by.challenge
unfolding login_mfa_handler ◌is◌ dorian_back_end.Text.equal_fold
    dorian_back_end.Api.SignIn.login_retry_after verify_second_factor trim_space
    dorian_back_end.Text.byte_length dorian_back_end.Text.remove_all
    dorian_back_end.Store.UserMfa.consume_recovery_code normalize_recovery_code to_lower
    dorian_back_end.Store.UserMfa.redeem dorian_back_end.Store.UserMfa.redeem_rows
    dorian_back_end.Store.Database.count dorian_back_end.Api.SignIn.Session.write_session_response
    dorian_back_end.Api.SignIn.Session.issue_session
    dorian_back_end.Api.SignIn.Session.mfa_setup_required
    dorian_back_end.Api.SignIn.SecondFactor.mfa_required_for_user
    dorian_back_end.Api.SignIn.SecondFactor.trim_digits
    dorian_back_end.Api.SignIn.SecondFactor.trim_left_digits
    dorian_back_end.Api.SignIn.Session.require_mfa_policy
    dorian_back_end.Api.SignIn.Session.session_ttl dorian_back_end.Api.SignIn.log_login_attempt
    dorian_back_end.Api.SignIn.login_entry dorian_back_end.Api.SignIn.record_login_failure
    dorian_back_end.Api.SignIn.record_login_success retry_minutes retry_seconds
    dorian_back_end.Api.SignIn.write_too_many_attempts dorian_back_end.Store.Database.update
    dorian_back_end.Store.PanelSettings.normalize_require_mfa require_mfa_applies
    dorian_back_end.Text.Equal.char_width dorian_back_end.Text.Equal.fold_char
    dorian_back_end.Text.Equal.lower_char dorian_back_end.Text.is_space
    dorian_back_end.Text.trim_left parse_mfa_challenge dorian_back_end.Store.UserMfa.ask
    dorian_back_end.Store.UserMfa.status find
login_mfa_handler_sound_example =
    login_mfa_handler_sound signs reads (services (some mfa) none) home mfa (codes "POST") with_code
      tables spent (session_issued (issued_to (pos 7) true)) refl refl

abbrev with_password : LoginRequest
with_password = record { email = codes " U@X.org"; password = codes "secret"; remember = false }

login_handler_sound_example :
    (codes "POST" ≡ codes "POST")
    × ByPassword
        (services (some mfa) none)
        home
        (to_lower (trim_space (codes " U@X.org")))
        (trim_space (codes "secret"))
        false
        tables
        (session_issued (issued_to (pos 8) false))
unfolding login_handler ◌is◌ dorian_back_end.Api.SignIn.Login.login_with to_lower trim_space
    dorian_back_end.Api.SignIn.login_retry_after dorian_back_end.Text.equal_fold
    dorian_back_end.Api.SignIn.SecondFactor.mfa_required_for_user
    dorian_back_end.Store.UserMfa.status find
    dorian_back_end.Api.SignIn.Session.write_session_response
    dorian_back_end.Api.SignIn.Session.issue_session
    dorian_back_end.Api.SignIn.Session.mfa_setup_required
    dorian_back_end.Api.SignIn.log_login_attempt require_mfa_applies
    dorian_back_end.Store.PanelSettings.normalize_require_mfa
    dorian_back_end.Api.SignIn.Session.require_mfa_policy
    dorian_back_end.Api.SignIn.record_login_success dorian_back_end.Api.SignIn.Session.session_ttl
    dorian_back_end.Api.SignIn.login_entry dorian_back_end.Api.SignIn.record_login_failure
    retry_minutes retry_seconds dorian_back_end.Api.SignIn.write_too_many_attempts
    dorian_back_end.Store.Database.count dorian_back_end.Text.Equal.fold_char
    dorian_back_end.Text.Equal.lower_char dorian_back_end.Text.is_space
    dorian_back_end.Text.trim_left dorian_back_end.Store.UserMfa.ask
login_handler_sound_example =
    login_handler_sound (services (some mfa) none) home (codes "POST") with_password tables tables
      (session_issued (issued_to (pos 8) false)) refl

password_alone_unenrolled_example : NeedsNone db plain (pos 8) tables
unfolding login_handler ◌is◌ dorian_back_end.Api.SignIn.Login.login_with to_lower trim_space
    dorian_back_end.Api.SignIn.login_retry_after dorian_back_end.Text.equal_fold
    dorian_back_end.Api.SignIn.SecondFactor.mfa_required_for_user
    dorian_back_end.Store.UserMfa.status find
    dorian_back_end.Api.SignIn.Session.write_session_response
    dorian_back_end.Api.SignIn.Session.issue_session
    dorian_back_end.Api.SignIn.Session.mfa_setup_required
    dorian_back_end.Api.SignIn.log_login_attempt require_mfa_applies
    dorian_back_end.Store.PanelSettings.normalize_require_mfa
    dorian_back_end.Api.SignIn.Session.require_mfa_policy
    dorian_back_end.Api.SignIn.record_login_success dorian_back_end.Api.SignIn.Session.session_ttl
    dorian_back_end.Api.SignIn.login_entry dorian_back_end.Api.SignIn.record_login_failure
    retry_minutes retry_seconds dorian_back_end.Api.SignIn.write_too_many_attempts
    dorian_back_end.Store.Database.count dorian_back_end.Text.Equal.fold_char
    dorian_back_end.Text.Equal.lower_char dorian_back_end.Text.is_space
    dorian_back_end.Text.trim_left dorian_back_end.Store.UserMfa.ask
password_alone_unenrolled_example =
    password_alone_unenrolled db memory_database-IsDocumented plain 2000 no_codes
      (services none none) home (codes "POST") with_password tt tables (tt, tables)
      (issued_to (pos 8) false) refl

abbrev six : Text
six = codes "123 456"

abbrev once : MfaTables
once = (verify_second_factor mfa next (pos 7) six tables).1

abbrev twice : MfaTables
twice = (verify_second_factor mfa next (pos 7) six once).1

accepted_steps_rise_example :
    (first : AtStep db memory_database-IsDocumented plain next 2000 no_codes
      (pos 7)
      six
      tables
      once)
    × (second : AtStep db memory_database-IsDocumented plain next 2000 no_codes
        (pos 7)
        six
        once
        twice)
    × ¬ (second.step ≤ℤ first.step)
unfolding dorian_back_end.Text.byte_length dorian_back_end.Text.remove_all trim_space ◌is◌
    dorian_back_end.Api.SignIn.SecondFactor.trim_digits
    dorian_back_end.Api.SignIn.SecondFactor.trim_left_digits verify_second_factor
    dorian_back_end.Store.UserMfa.secret find dorian_back_end.Store.UserMfa.advance_step
    dorian_back_end.Store.UserMfa.advance_rows dorian_back_end.Store.Database.count
    dorian_back_end.Store.Database.update dorian_back_end.Store.UserMfa.ask
accepted_steps_rise_example =
    accepted_steps_rise db memory_database-IsDocumented plain next 2000 2000 no_codes no_codes
      (pos 7) six six (codes "authenticator code") (codes "authenticator code") tables once once
      twice refl refl refl start refl

retry_after_bounds_example :
    (1500 ≤ retry_seconds (pos 1500) * 1000)
    × (retry_seconds (pos 1500) * 1000 < 1500 + 1000)
    × (retry_seconds (pos 1500) ≤ retry_minutes (retry_seconds (pos 1500)) * 60)
    × (retry_minutes (retry_seconds (pos 1500)) * 60 < retry_seconds (pos 1500) + 60)
retry_after_bounds_example = retry_after_bounds (pos 1500) refl

abbrev principal : ℤ → AuthPrincipal
principal id = record {
  user_id = id;
  email = codes "u@x.org";
  name = codes "U";
  role = codes "User";
  auth_kind = jwt;
  token_id = pos 0;
  session_id = codes "s1";
  mfa_enabled = true;
}

abbrev policy : MfaTables → Text × MfaTables
policy s = (off, s)

abbrev disabled_tables : MfaTables
disabled_tables =
    (mfa_disable_handler mfa next none (codes "10.0.0.1") policy (codes "POST")
      (some (principal (pos 7))) (some six) tables).1

abbrev enrolled : MfaTables
enrolled =
    (mfa_enable_handler mfa next (codes "POST") (some (principal (pos 8))) (some six) tables).1

abbrev signed_in : MfaTables
signed_in = (verify_second_factor mfa next (pos 8) six enrolled).1
