-- ===== src/Api/MfaSettings/Disabling.antt =====
-- What stands behind a change that takes away protection: a second factor is switched off, or gets new
-- recovery codes.
use dorian_back_end.Prelude.{
  ◌≡◌, refl, ap, Bool, true, false, Option, none, some, List, arith, ℤ, positive, Bool-cases, inl,
  inr, ◌≢◌,
}
use dorian_back_end.Text.{Text, codes, ◌is◌, is_iff}
use dorian_back_end.Action.{
  Result, Error, ok, err, failed, not_found, invalid, expired, no_schema, too_long, unavailable,
}
use dorian_back_end.Api.AuthMiddleware.{AuthPrincipal, AuthKind, jwt, api_token}
use dorian_back_end.Api.SignIn.{
  ThrottleAccess, MfaAccess, Answer, reply, done, write_too_many_attempts, login_retry_after,
}
use dorian_back_end.Api.SignIn.SecondFactor.{verify_second_factor}
use dorian_back_end.Api.MfaSettings.{
  require_interactive_session, only_method, answered, after_check, after_throttle,
  verify_code_for_sensitive_mfa_change, regenerate_for, mfa_recovery_codes_handler,
  write_mfa_store_error,
}

-- A caller with a session of a browser, not with an API token.
pub record IsInteractive (principal : Option AuthPrincipal) : Type 0 where
  pub who : AuthPrincipal
  pub given : principal ≡ some who
  pub identified : positive who.user_id ≡ true
  pub by_session : who.auth_kind ≡ jwt

module _ {A : Type 0} where
  -- An error of the store is a refusal.
  pub store_error_refuses :
      (e : Error) (fallback : Text) (a : A) → write_mfa_store_error e fallback ≢ done a
  unfolding write_mfa_store_error
  store_error_refuses failed fallback a h = ground arith
  store_error_refuses no_schema fallback a h = ground arith
  store_error_refuses not_found fallback a h = ground arith
  store_error_refuses invalid fallback a h = ground arith
  store_error_refuses expired fallback a h = ground arith
  store_error_refuses too_long fallback a h = ground arith
  store_error_refuses unavailable fallback a h = ground arith

module _ {S A : Type 0} where
  kind_done :
      (k : AuthKind) (x : Answer A × S) (s t : S) (a : A)
      → (elim k [ jwt ↦ x | api_token ↦ (reply 403 (codes "forbidden"), s) ]) ≡ (done a, t)
      → (k ≡ jwt) × (x ≡ (done a, t))
  kind_done jwt x s t a h = (refl, h)
  kind_done api_token x s t a h = absurd (ground arith)

  caller_done :
      (principal : Option AuthPrincipal) (rest : AuthPrincipal → S → Answer A × S) (s t : S) (a : A)
      → require_interactive_session principal rest s ≡ (done a, t)
      → (by : IsInteractive principal) × (rest by.who s ≡ (done a, t))
  unfolding require_interactive_session
  caller_done none rest s t a h = absurd (ground arith)
  caller_done (some p) rest s t a h = elim (Bool-cases (positive p.user_id)) [
    | inr e ↦ absurd (cc (rw e at h))
    | inl e ↦
        let (kind, ran) = kind_done p.auth_kind (rest p s) s t a (rw e at h) in
        (record { who = p; given = refl; identified = e; by_session = kind }, ran)
  ]

  method_done :
      (wanted method : Text) (rest : S → Answer A × S) (s t : S) (a : A)
      → only_method wanted method rest s ≡ (done a, t)
      → (method ≡ wanted) × (rest s ≡ (done a, t))
  method_done wanted method rest s t a h = elim (Bool-cases (method is wanted)) [
    | inl e ↦ ((is_iff method wanted).0 e, rw e at h)
    | inr e ↦ absurd (cc (rw e at h))
  ]

  pub session_done :
      (wanted method : Text) (principal : Option AuthPrincipal)
      (rest : AuthPrincipal → S → Answer A × S) (s t : S) (a : A)
      → only_method wanted method (require_interactive_session principal rest) s ≡ (done a, t)
      → (method ≡ wanted) × (by : IsInteractive principal) × (rest by.who s ≡ (done a, t))
  session_done wanted method principal rest s t a h =
      let (named, ran) =
        method_done wanted method (require_interactive_session principal rest) s t a h in
      let (by, went) = caller_done principal rest s t a ran in (named, by, went)

  pub answered_done :
      (fallback : Text) (p : Result A × S) (a : A) (t : S)
      → answered fallback p ≡ (done a, t)
      → p ≡ (ok a, t)
  answered_done fallback (ok b, s) a t h = ground arith
  answered_done fallback (err e, s) a t h =
      absurd (store_error_refuses e fallback a (ap (λ p. p.0) h))

module _ {S : Type 0} (mfa : MfaAccess S) (validate : Text → Text → ℤ → Option ℤ)
    (throttle : Option (ThrottleAccess S)) (client_ip : Text) where
  -- A code of the caller that was accepted, by a caller who was not locked out, from `s` to `after`.
  pub record Confirmed (who : AuthPrincipal) (body : Option Text) (s after : S) : Type 0 where
    pub code : Text
    pub wait : ℤ
    pub waited_in : S
    pub how : Text
    pub given : body ≡ some code
    pub waited : login_retry_after throttle client_ip who.email s ≡ (wait, waited_in)
    pub not_locked : positive wait ≡ false
    pub accepted :
        verify_second_factor mfa validate who.user_id code waited_in ≡ ((ok true, how), after)

  module _ {A : Type 0} (rest : S → Answer A × S) where
    check_done :
        (p : AuthPrincipal) (answer : Result Bool) (how : Text) (s t : S) (a : A)
        → after_check mfa validate throttle client_ip rest p ((answer, how), s) ≡ (done a, t)
        → (answer ≡ ok true) × (rest s ≡ (done a, t))
    check_done p (err e) how s t a h = absurd (store_error_refuses e _ a (ap (λ x. x.0) h))
    check_done p (ok false) how s t a h = absurd (ground arith)
    check_done p (ok true) how s t a h = (refl, h)

    throttle_done :
        (p : AuthPrincipal) (code : Text) (s w t : S) (wait : ℤ) (a : A)
        → login_retry_after throttle client_ip p.email s ≡ (wait, w)
        → after_throttle mfa validate throttle client_ip rest p code (wait, w) ≡ (done a, t)
        → (after : S) × Confirmed p (some code) s after × (rest after ≡ (done a, t))
    unfolding write_too_many_attempts
    throttle_done p code s w t wait a asked h = elim (Bool-cases (positive wait)) [
      | inl e ↦ absurd (cc (rw e at h))
      | inr e ↦
          let q = verify_second_factor mfa validate p.user_id code w in
          let (accepted, ran) = check_done p q.0.0 q.0.1 q.1 t a (rw e at h) in
          (
            q.1,
            record {
              code = code;
              wait = wait;
              waited_in = w;
              how = q.0.1;
              given = refl;
              waited = asked;
              not_locked = e;
              accepted = ap (λ x. ((x, q.0.1), q.1)) accepted;
            },
            ran,
          )
    ]

    change_done :
        (p : AuthPrincipal) (body : Option Text) (s t : S) (a : A)
        → verify_code_for_sensitive_mfa_change mfa validate throttle client_ip rest p body s
          ≡ (done a, t)
        → (after : S) × Confirmed p body s after × (rest after ≡ (done a, t))
    unfolding verify_code_for_sensitive_mfa_change
    change_done p none s t a h = absurd (ground arith)
    change_done p (some code) s t a h =
        let q = login_retry_after throttle client_ip p.email s in
        throttle_done p code s q.1 t q.0 a refl h

  -- New recovery codes are drawn only for a caller with a session of a browser who is not locked out and
  -- whose code was accepted just before, and they are the caller's own.
  pub mfa_recovery_codes_handler_sound :
      (method : Text) (principal : Option AuthPrincipal) (body : Option Text) (s t : S)
      (shown : List Text)
      → mfa_recovery_codes_handler mfa validate throttle client_ip method principal body s
        ≡ (done shown, t)
      → (method ≡ codes "POST")
        × (by : IsInteractive principal) × (after : S) × Confirmed by.who body s after
        × (mfa.regenerate_recovery_codes by.who.user_id after ≡ (ok shown, t))
  unfolding mfa_recovery_codes_handler
  mfa_recovery_codes_handler_sound method principal body s t shown h =
      let (posted, by, went) =
        session_done (codes "POST") method principal
          (λ p.
            verify_code_for_sensitive_mfa_change mfa validate throttle client_ip
              (regenerate_for mfa validate throttle client_ip p.user_id) p body)
          s t shown h in
      let (after, confirmed, drawn) =
        change_done (regenerate_for mfa validate throttle client_ip by.who.user_id) by.who body s t
          shown went in
      (
        posted,
        by,
        after,
        confirmed,
        answered_done _ (mfa.regenerate_recovery_codes by.who.user_id after) shown t drawn,
      )
