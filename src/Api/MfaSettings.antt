-- ===== src/Api/MfaSettings.antt =====
-- internal/api/mfa_handlers.go: the handlers with which users manage their second factor, and the
-- administrators' reset. A body is `none` where it is not JSON; `validate` is `auth.ValidateTOTP` at the
-- time of the call.
pub mod Enrolment
pub mod Disabling
use dorian_back_end.Prelude.{
  ◌≡◌, Bool, true, false, not, Option, none, some, List, [], ◌∷◌, if◌then◌else◌, ℤ, pos, positive,
}
use dorian_back_end.Text.{Text, codes, ◌is◌, parse_int}
use dorian_back_end.Action.{
  Action, Result, Error, ok, err, failed, not_found, invalid, expired, too_long, unavailable,
}
use dorian_back_end.Store.UserMfa.{MfaStatus}
use dorian_back_end.Store.PanelSettings.{require_mfa_applies}
use dorian_back_end.Api.AuthMiddleware.{AuthPrincipal, AuthKind, jwt, api_token}
use dorian_back_end.Api.SignIn.{
  ThrottleAccess, MfaAccess, Answer, reply, done, write_too_many_attempts, login_retry_after,
  record_login_failure,
}
use dorian_back_end.Api.SignIn.SecondFactor.{verify_second_factor}

module _ {A : Type 0} where
  abbrev pub not_allowed : Answer A
  not_allowed = reply 405 (codes "method not allowed")

  abbrev pub authentication_required : Answer A
  authentication_required = reply 401 (codes "unauthorized")

  abbrev pub invalid_body : Answer A
  invalid_body = reply 400 (codes "invalid JSON body")

  unfoldable pub write_mfa_store_error : Error → Text → Answer A
  write_mfa_store_error unavailable fallback =
      reply 503 (codes "two-factor authentication is not available: apply scripts/add_user_mfa.sql")
  write_mfa_store_error not_found fallback = reply 404 (codes "user not found")
  write_mfa_store_error e fallback = reply 500 fallback

  -- What the principal must be before the rest of a handler runs.
  abbrev pub interactive_session :
      {S : Type 0} → AuthPrincipal → (AuthPrincipal → S → Answer A × S) → S → Answer A × S
  interactive_session principal rest s =
      if not (positive principal.user_id)
      then (authentication_required, s)
      else elim principal.auth_kind [
        | jwt ↦ rest principal s
        | api_token ↦ (reply 403 (codes "forbidden"), s)
      ]

  unfoldable pub require_interactive_session :
      {S : Type 0} → Option AuthPrincipal → (AuthPrincipal → S → Answer A × S) → S → Answer A × S
  require_interactive_session none rest s = (authentication_required, s)
  require_interactive_session (some principal) rest s = interactive_session principal rest s

  -- The end of a handler: the answer of its last call.
  abbrev pub answered : {S : Type 0} → Text → Result A × S → Answer A × S
  answered fallback (ok a, s) = (done a, s)
  answered fallback (err e, s) = (write_mfa_store_error e fallback, s)

-- Every guard of these handlers on the method.
abbrev pub only_method : {S A : Type 0} → Text → Text → (S → Answer A × S) → S → Answer A × S
only_method wanted method rest s = if method is wanted then rest s else (not_allowed, s)

module _ {S : Type 0} (mfa : MfaAccess S) (validate : Text → Text → ℤ → Option ℤ) where
  abbrev pub status_for : AuthPrincipal → S → Answer MfaStatus × S
  status_for principal s =
      if not (positive principal.user_id)
      then (authentication_required, s)
      else answered (codes "failed to load two-factor status") (mfa.status principal.user_id s)

  unfoldable pub mfa_status_handler : Text → Option AuthPrincipal → S → Answer MfaStatus × S
  mfa_status_handler method principal =
      only_method (codes "GET") method
        λ s. elim principal [ none ↦ (authentication_required, s) | some p ↦ status_for p s ]

  abbrev pub shown : Text → Result (Unit {0}) × S → Answer Text × S
  shown text (ok a, s) = (done text, s)
  shown text (err e, s) = (write_mfa_store_error e (codes "failed to start two-factor setup"), s)

  abbrev pub pend : ℤ → Result Text → S → Answer Text × S
  pend id (err e) s = (reply 500 (codes "failed to generate secret"), s)
  pend id (ok text) s = shown text (mfa.set_pending_secret id text s)

  abbrev pub after_setup_status : ℤ → Result Text → Result MfaStatus × S → Answer Text × S
  after_setup_status id drawn (err e, s) =
      (write_mfa_store_error e (codes "failed to load two-factor status"), s)
  after_setup_status id drawn (ok status, s) =
      if status.enabled
      then (reply 409 (codes "two-factor authentication is already enabled"), s)
      else pend id drawn s

  -- `drawn` is what `auth.GenerateTOTPSecret` returned; the answer is the secret.
  unfoldable pub mfa_setup_handler : Result Text → Text → Option AuthPrincipal → S → Answer Text × S
  mfa_setup_handler drawn method principal = only_method (codes "POST") method (
      require_interactive_session principal
        λ p s. after_setup_status p.user_id drawn (mfa.status p.user_id s))

  abbrev pub enable_at : ℤ → Text → Option ℤ → S → Answer (List Text) × S
  enable_at id secret none s = (reply 400 (codes "invalid_mfa_code"), s)
  enable_at id secret (some step) s =
      answered (codes "failed to enable two-factor authentication") (mfa.enable id secret step s)

  abbrev pub after_pending : ℤ → Text → Result Text × S → Answer (List Text) × S
  after_pending id code (err e, s) =
      (write_mfa_store_error e (codes "failed to load two-factor setup"), s)
  after_pending id code (ok pending, s) =
      if pending is []
      then (reply 400 (codes "start two-factor setup first"), s)
      else enable_at id pending (validate pending code (pos 0)) s

  -- The answer is the recovery codes.
  unfoldable pub mfa_enable_handler :
      Text → Option AuthPrincipal → Option Text → S → Answer (List Text) × S
  mfa_enable_handler method principal body = only_method (codes "POST") method (
      require_interactive_session principal λ p s. elim body [
        | none ↦ (invalid_body, s)
        | some code ↦ after_pending p.user_id code (mfa.pending_secret p.user_id s)
      ])

  module _ (throttle : Option (ThrottleAccess S)) (client_ip : Text) where
    module _ {A : Type 0} (rest : S → Answer A × S) where
      abbrev pub after_check : AuthPrincipal → (Result Bool × Text) × S → Answer A × S
      after_check p ((err e, how), s) =
          (write_mfa_store_error e (codes "failed to verify two-factor code"), s)
      after_check p ((ok false, how), s) =
          (reply 400 (codes "invalid_mfa_code"), record_login_failure throttle client_ip p.email s)
      after_check p ((ok true, how), s) = rest s

      abbrev pub after_throttle : AuthPrincipal → Text → ℤ × S → Answer A × S
      after_throttle p code (wait, s) =
          if positive wait
          then (write_too_many_attempts wait, s)
          else after_check p (verify_second_factor mfa validate p.user_id code s)

      -- `rest` runs where the source returns true.
      unfoldable pub verify_code_for_sensitive_mfa_change :
          AuthPrincipal → Option Text → S → Answer A × S
      verify_code_for_sensitive_mfa_change p none s = (invalid_body, s)
      verify_code_for_sensitive_mfa_change p (some code) s =
          after_throttle p code (login_retry_after throttle client_ip p.email s)

    abbrev pub disable_for : ℤ → S → Answer (Unit {0}) × S
    disable_for id s =
        answered (codes "failed to disable two-factor authentication") (mfa.disable id s)

    abbrev pub after_policy : AuthPrincipal → Option Text → Text × S → Answer (Unit {0}) × S
    after_policy p body (policy, s) =
        if require_mfa_applies policy p.role
        then (reply 403 (codes "mfa_required_by_policy"), s)
        else verify_code_for_sensitive_mfa_change (disable_for p.user_id) p body s

    -- `policy` is `account.requireMFAPolicy`.
    unfoldable pub mfa_disable_handler :
        (S → Text × S) → Text → Option AuthPrincipal → Option Text → S → Answer (Unit {0}) × S
    mfa_disable_handler policy method principal body =
        only_method (codes "POST") method
          (require_interactive_session principal λ p s. after_policy p body (policy s))

    abbrev pub regenerate_for : ℤ → S → Answer (List Text) × S
    regenerate_for id s =
        answered (codes "failed to regenerate recovery codes") (mfa.regenerate_recovery_codes id s)

    unfoldable pub mfa_recovery_codes_handler :
        Text → Option AuthPrincipal → Option Text → S → Answer (List Text) × S
    mfa_recovery_codes_handler method principal body = only_method (codes "POST") method (
        require_interactive_session principal
          λ p. verify_code_for_sensitive_mfa_change (regenerate_for p.user_id) p body)

  abbrev pub reset : ℤ → S → Answer (Unit {0}) × S
  reset id s =
      if not (positive id)
      then (reply 404 (codes "not found"), s)
      else answered (codes "failed to reset two-factor authentication") (mfa.disable id s)

  -- `path_id` is `r.PathValue("id")`.
  unfoldable pub admin_reset_mfa_handler : Text → S → Answer (Unit {0}) × S
  admin_reset_mfa_handler path_id s = elim (parse_int path_id) [
    | none ↦ (reply 404 (codes "not found"), s)
    | some id ↦ reset id s
  ]
