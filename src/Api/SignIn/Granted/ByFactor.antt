-- ===== src/Api/SignIn/Granted/ByFactor.antt =====
-- Sign-in with a challenge and a code.
use dorian_back_end.Prelude.{
  ◌≡◌, refl, ap, sym, Bool, true, false, not, ◌||◌, some, [], arith, ℤ, positive, Bool-cases, inl,
  inr,
}
use dorian_back_end.Text.{Text, codes, ◌is◌, is_iff, equal_fold, trim_space}
use dorian_back_end.Action.{Result, ok, err}
use dorian_back_end.Auth.Jwt.{
  MfaChallenge, UserClaims, Parsed, valid, out_of_date, broken, token_type_mfa_challenge,
  challenge_of, parse_mfa_challenge,
}
use dorian_back_end.Api.SignIn.{User, MfaAccess, done, login_retry_after, write_too_many_attempts}
use dorian_back_end.Api.SignIn.SecondFactor.{verify_second_factor}
use dorian_back_end.Api.SignIn.Session.{LoginOutcome, Caller}
use dorian_back_end.Api.SignIn.Login.{
  Services, LoginMfaRequest, sign_in_method, after_factor, after_mfa_wait, after_user,
  after_challenge, login_mfa_handler,
}
use dorian_back_end.Api.SignIn.Granted.{Issued, sign_in_done}

module _ {S : Type 0} (v : Services S) (caller : Caller) where
  -- What the second handler checked, in order, before a session of `o`.
  pub record ByFactor (mfa : MfaAccess S) (payload : LoginMfaRequest) (s : S) (o : LoginOutcome)
      : Type 0 where
    pub challenge : MfaChallenge
    pub user : User
    pub found_in : S
    pub waited_in : S
    pub checked_in : S
    pub wait : ℤ
    pub how : Text
    pub challenged : v.parse_challenge payload.mfa_token v.cfg.jwt_secret ≡ ok challenge
    pub found : v.users.find_by_id challenge.user_id s ≡ (ok user, found_in)
    pub active : equal_fold user.status (codes "Active") ≡ true
    pub waited :
        login_retry_after v.throttle caller.client_ip user.email found_in ≡ (wait, waited_in)
    pub not_locked : positive wait ≡ false
    pub accepted :
        verify_second_factor mfa v.validate user.id payload.code waited_in
        ≡ ((ok true, how), checked_in)
    pub issued :
        Issued v caller user (sign_in_method v caller challenge) challenge.remember checked_in o

  after_factor_done :
      (c : MfaChallenge) (user : User) (how : Text) (answer : Result Bool) (s t : S)
      (o : LoginOutcome)
      → after_factor v caller c user ((answer, how), s) ≡ (done o, t)
      → (answer ≡ ok true) × Issued v caller user (sign_in_method v caller c) c.remember s o
  after_factor_done c user how (err e) s t o h = absurd (ground arith)
  after_factor_done c user how (ok false) s t o h = absurd (ground arith)
  after_factor_done c user how (ok true) s t o h =
      (refl, sign_in_done v caller user _ _ _ _ s t o h)

  after_mfa_wait_done :
      (mfa : MfaAccess S) (payload : LoginMfaRequest) (c : MfaChallenge) (user : User) (s u w t : S)
      (wait : ℤ) (o : LoginOutcome)
      → v.parse_challenge payload.mfa_token v.cfg.jwt_secret ≡ ok c
      → v.users.find_by_id c.user_id s ≡ (ok user, u)
      → equal_fold user.status (codes "Active") ≡ true
      → login_retry_after v.throttle caller.client_ip user.email u ≡ (wait, w)
      → after_mfa_wait v caller mfa c user payload.code (wait, w) ≡ (done o, t)
      → ByFactor mfa payload s o
  unfolding write_too_many_attempts
  after_mfa_wait_done mfa payload c user s u w t wait o parsed found active waited h =
      elim (Bool-cases (positive wait)) [
        | inl e ↦ absurd (ground arith)
        | inr e ↦
            let p = verify_second_factor mfa v.validate user.id payload.code w in
            let (accepted, session) = after_factor_done c user p.0.1 p.0.0 p.1 t o (rw e at h) in
            record {
              challenge = c;
              user = user;
              found_in = u;
              waited_in = w;
              checked_in = p.1;
              wait = wait;
              how = p.0.1;
              challenged = parsed;
              found = found;
              active = active;
              waited = waited;
              not_locked = e;
              accepted = ap (λ a. ((a, p.0.1), p.1)) accepted;
              issued = session;
            }
      ]

  after_user_done :
      (mfa : MfaAccess S) (payload : LoginMfaRequest) (c : MfaChallenge) (s t : S)
      (p : Result User × S) (o : LoginOutcome)
      → v.parse_challenge payload.mfa_token v.cfg.jwt_secret ≡ ok c
      → v.users.find_by_id c.user_id s ≡ p
      → after_user v caller mfa c payload.code p ≡ (done o, t)
      → ByFactor mfa payload s o
  after_user_done mfa payload c s t (err e, u) o parsed found h = absurd (ground arith)
  after_user_done mfa payload c s t (ok user, u) o parsed found h =
      elim (Bool-cases (equal_fold user.status (codes "Active"))) [
        | inr e ↦ absurd (ground arith)
        | inl e ↦
            let q = login_retry_after v.throttle caller.client_ip user.email u in
            after_mfa_wait_done mfa payload c user s u q.1 t q.0 o parsed found e refl (rw e at h)
      ]

  after_challenge_done :
      (mfa : MfaAccess S) (payload : LoginMfaRequest) (parsed : Result MfaChallenge) (s t : S)
      (o : LoginOutcome)
      → v.parse_challenge payload.mfa_token v.cfg.jwt_secret ≡ parsed
      → after_challenge v caller mfa payload.code parsed s ≡ (done o, t)
      → ByFactor mfa payload s o
  after_challenge_done mfa payload (err e) s t o parsed h = absurd (ground arith)
  after_challenge_done mfa payload (ok c) s t o parsed h =
      after_user_done mfa payload c s t (v.users.find_by_id c.user_id s) o parsed refl h

  pub login_mfa_handler_done :
      (mfa : MfaAccess S) (method : Text) (payload : LoginMfaRequest) (s t : S) (o : LoginOutcome)
      → login_mfa_handler v caller mfa method (some payload) s ≡ (done o, t)
      → (method ≡ codes "POST") × ByFactor mfa payload s o
  unfolding login_mfa_handler
  login_mfa_handler_done mfa method payload s t o h = elim (Bool-cases (method is codes "POST")) [
    | inr e ↦ absurd (ground arith)
    | inl e ↦ (
      (is_iff method (codes "POST")).0 e,
      after_challenge_done mfa payload (v.parse_challenge payload.mfa_token v.cfg.jwt_secret) s t o
          refl (rw e at h),
    )
  ]

-- What `ParseMFAChallenge` found in the token: claims that the library of signed tokens holds valid under
-- the trimmed secret, of the type of challenges, with the values of the challenge.
pub record IsSigned (parse_with_claims : Text → Text → Parsed) (token secret : Text)
    (c : MfaChallenge) : Type 0 where
  pub claims : UserClaims
  pub checked : parse_with_claims (trim_space secret) (trim_space token) ≡ valid claims
  pub is_challenge : claims.typ ≡ codes "mfa_challenge"
  pub of_user : claims.user_id ≡ c.user_id
  pub remembers : claims.remember ≡ c.remember
  pub by_method : claims.method ≡ c.method
  pub identified : positive c.user_id ≡ true
  pub has_secret : (trim_space secret is []) ≡ false

module _ (sign : Text → UserClaims → Result Text) (parse_with_claims : Text → Text → Parsed) where
  challenge_of_sound :
      (p : Parsed) (c : MfaChallenge)
      → challenge_of sign parse_with_claims p ≡ ok c
      → (claims : UserClaims) × (p ≡ valid claims)
        × (claims.typ ≡ token_type_mfa_challenge)
        × (c ≡ record {
          user_id = claims.user_id;
          remember = claims.remember;
          method = claims.method;
        })
        × (positive claims.user_id ≡ true)
  challenge_of_sound out_of_date c h = absurd (ground arith)
  challenge_of_sound broken c h = absurd (ground arith)
  challenge_of_sound (valid claims) c h =
      elim (Bool-cases
        (not (claims.typ is token_type_mfa_challenge) || not (positive claims.user_id))) [
          | inl e ↦ absurd (ground arith)
          | inr e ↦ (
            claims,
            refl,
            (is_iff claims.typ token_type_mfa_challenge).0 (ground arith),
            ground arith,
            ground arith,
          )
        ]

  parse_mfa_challenge_sound :
      (token secret : Text) (c : MfaChallenge)
      → parse_mfa_challenge sign parse_with_claims token secret ≡ ok c
      → IsSigned parse_with_claims token secret c
  unfolding parse_mfa_challenge
  parse_mfa_challenge_sound token secret c h =
      elim (Bool-cases ((trim_space token is []) || (trim_space secret is []))) [
        | inl e ↦ absurd (ground arith)
        | inr e ↦
            let (claims, checked, typed, same, some_user) =
              challenge_of_sound (parse_with_claims (trim_space secret) (trim_space token)) c
                (rw e at h) in
            record {
              claims = claims;
              checked = checked;
              is_challenge = typed;
              of_user = ap (λ (x : MfaChallenge). x.user_id) (sym same);
              remembers = ap (λ (x : MfaChallenge). x.remember) (sym same);
              by_method = ap (λ (x : MfaChallenge). x.method) (sym same);
              identified = rw same some_user;
              has_secret = ground arith;
            }
      ]

  module _ {S : Type 0} (v : Services S) (caller : Caller) where
    -- Where the sign-in with a second factor succeeds, and challenges are read by `ParseMFAChallenge`, the
    -- token is one that the library of signed tokens holds valid under the server's secret, of the type of
    -- challenges; its user is there and active, the throttle reported no wait for the user and the address
    -- (an error of it counts as none), the code was accepted for that user, and the session is issued to
    -- that user.
    pub login_mfa_handler_sound :
        (mfa : MfaAccess S) (method : Text) (payload : LoginMfaRequest) (s t : S) (o : LoginOutcome)
        → v.parse_challenge ≡ parse_mfa_challenge sign parse_with_claims
        → login_mfa_handler v caller mfa method (some payload) s ≡ (done o, t)
        → (method ≡ codes "POST")
          × (by : ByFactor v caller mfa payload s o) × IsSigned parse_with_claims payload.mfa_token
              v.cfg.jwt_secret by.challenge
    login_mfa_handler_sound mfa method payload s t o reader h =
        let (posted, by) = login_mfa_handler_done v caller mfa method payload s t o h in
        (
          posted,
          by,
          parse_mfa_challenge_sound payload.mfa_token v.cfg.jwt_secret by.challenge
              (rw reader at by.challenged),
        )
