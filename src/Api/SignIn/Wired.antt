-- ===== src/Api/SignIn/Wired.antt =====
-- The stores as the sign-in handlers take them, and services whose second-factor store has a state of
-- its own.
use dorian_back_end.Prelude.{ℕ, Option, none, some, List}
use dorian_back_end.Text.{Text}
use dorian_back_end.Action.{Action, Result}
use dorian_back_end.Store.Redis.{Redis}
use dorian_back_end.Store.LoginThrottle.{
  LoginThrottleConfig, retry_after, record_failure, record_success,
}
use dorian_back_end.Store.Database.{Database}
use dorian_back_end.Store.UserMfa.{
  MfaTables, status, secret, set_pending_secret, pending_secret, enable, disable, advance_step,
  consume_recovery_code, regenerate_recovery_codes,
}
use dorian_back_end.Store.AuthSessions.{SessionTables, create, revoke}
use dorian_back_end.Api.SignIn.{ThrottleAccess, MfaAccess, SessionStore, LoginEntry}
use dorian_back_end.Api.SignIn.Login.{Services}

module _ (r : Redis) (digest : Text → Text) (cfg : LoginThrottleConfig) where
  abbrev pub throttle_access : ThrottleAccess r.State
  throttle_access = record {
    retry_after = retry_after r digest cfg;
    record_failure = record_failure r digest cfg;
    record_success = record_success r digest cfg;
  }

abbrev pub session_store : (d : Database SessionTables) → Result Text → ℕ → SessionStore d.State
session_store d drawn now = record { create = create d drawn now; revoke = revoke d now }

-- The store as the handlers take it: at the time `now`, with the random codes `raws`.
abbrev pub mfa_access :
    (d : Database MfaTables) → (Text → Text) → ℕ → Result (List Text) → MfaAccess d.State
mfa_access d digest now raws = record {
  status = status d digest;
  secret = secret d digest;
  set_pending_secret = set_pending_secret d digest;
  pending_secret = pending_secret d digest;
  enable = enable d digest raws now;
  disable = disable d digest;
  advance_step = advance_step d digest;
  consume_recovery_code = consume_recovery_code d digest now;
  regenerate_recovery_codes = regenerate_recovery_codes d digest raws;
}

module _ {S T : Type 0} where
  -- An action on one part of a state of two parts.
  abbrev pub on_left : {A : Type 0} → Action S A → Action (S × T) A
  on_left m (s, t) = let (r, s') = m s in (r, (s', t))

  abbrev pub on_right : {A : Type 0} → Action T A → Action (S × T) A
  on_right m (s, t) = let (r, t') = m t in (r, (s, t'))

  abbrev pub left_throttle : Option (ThrottleAccess S) → Option (ThrottleAccess (S × T))
  left_throttle none = none
  left_throttle (some throttle) = some (record {
    retry_after = λ ip account. on_left (throttle.retry_after ip account);
    record_failure = λ ip account. on_left (throttle.record_failure ip account);
    record_success = λ account. on_left (throttle.record_success account);
  })

  abbrev right_mfa : MfaAccess T → MfaAccess (S × T)
  right_mfa mfa = record {
    status = λ id. on_right (mfa.status id);
    secret = λ id. on_right (mfa.secret id);
    set_pending_secret = λ id text. on_right (mfa.set_pending_secret id text);
    pending_secret = λ id. on_right (mfa.pending_secret id);
    enable = λ id text step. on_right (mfa.enable id text step);
    disable = λ id. on_right (mfa.disable id);
    advance_step = λ id step. on_right (mfa.advance_step id step);
    consume_recovery_code = λ id code. on_right (mfa.consume_recovery_code id code);
    regenerate_recovery_codes = λ id. on_right (mfa.regenerate_recovery_codes id);
  }

  abbrev left_settings : Option (Text → Action S Text) → Option (Text → Action (S × T) Text)
  left_settings none = none
  left_settings (some get) = some (λ key. on_left (get key))

  abbrev left_audit :
      Option (LoginEntry → Action S (Unit {0})) → Option (LoginEntry → Action (S × T) (Unit {0}))
  left_audit none = none
  left_audit (some create) = some (λ entry. on_left (create entry))

  -- The services `v`, which have their own state, with a second-factor store on tables of its own.
  abbrev pub with_mfa : Services S → MfaAccess T → Services (S × T)
  with_mfa v mfa = record {
    cfg = v.cfg;
    users = record {
      find_by_id = λ id. on_left (v.users.find_by_id id);
      find_by_credentials = λ email password. on_left (v.users.find_by_credentials email password);
    };
    mfa = some (right_mfa mfa);
    sessions = record {
      create = λ input. on_left (v.sessions.create input);
      revoke = λ user_id id. on_left (v.sessions.revoke user_id id);
    };
    settings = left_settings v.settings;
    throttle = left_throttle v.throttle;
    audit = left_audit v.audit;
    sign = v.sign;
    challenge = v.challenge;
    parse_challenge = v.parse_challenge;
    validate = v.validate;
  }
