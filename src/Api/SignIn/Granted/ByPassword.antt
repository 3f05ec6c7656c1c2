-- ===== src/Api/SignIn/Granted/ByPassword.antt =====
-- Sign-in with a password.
use dorian_back_end.Prelude.{
  ◌≡◌, ◌⊎◌, refl, ap, Bool, true, false, ◌||◌, some, [], arith, ℤ, positive, Bool-cases, inl, inr,
}
use dorian_back_end.Text.{Text, codes, ◌is◌, is_iff, trim_space, to_lower, equal_fold}
use dorian_back_end.Action.{
  Result, ok, err, failed, not_found, invalid, expired, no_schema, too_long, unavailable,
}
use dorian_back_end.Api.SignIn.{User, done, login_retry_after, write_too_many_attempts}
use dorian_back_end.Api.SignIn.SecondFactor.{mfa_required_for_user}
use dorian_back_end.Api.SignIn.Session.{LoginOutcome, mfa_required, Caller}
use dorian_back_end.Api.SignIn.Login.{
  Services, LoginRequest, challenged, password_challenge, mfa_challenge_ttl, after_status,
  after_credentials, after_wait, login_with, login_handler,
}
use dorian_back_end.Api.SignIn.Granted.{Issued, sign_in_done}

module _ {S : Type 0} (v : Services S) (caller : Caller) where
  -- What the first handler checked, in order, before it gave `o`: a session, or a challenge.
  pub record ByPassword (email password : Text) (remember : Bool) (s : S) (o : LoginOutcome)
      : Type 0 where
    pub user : User
    pub waited_in : S
    pub found_in : S
    pub asked_in : S
    pub wait : ℤ
    pub needs_mfa : Bool
    pub named : ((email is []) || (password is [])) ≡ false
    pub waited : login_retry_after v.throttle caller.client_ip email s ≡ (wait, waited_in)
    pub not_locked : positive wait ≡ false
    pub found : v.users.find_by_credentials email password waited_in ≡ (ok user, found_in)
    pub not_blocked : equal_fold user.status (codes "Block") ≡ false
    pub not_waiting : equal_fold user.status (codes "Waiting") ≡ false
    pub asked : mfa_required_for_user v.mfa user.id found_in ≡ (ok needs_mfa, asked_in)
    pub settled :
        ((needs_mfa ≡ false) × Issued v caller user (codes "password") remember asked_in o)
        ⊎ ((needs_mfa ≡ true)
            × (token : Text) × (o ≡ mfa_required token)
            × (v.challenge
                  (password_challenge v caller user remember)
                  v.cfg.jwt_secret
                  mfa_challenge_ttl
                ≡ ok token))

  challenged_done :
      (answer : Result Text) (o : LoginOutcome)
      → challenged v caller answer ≡ done o
      → (token : Text) × (o ≡ mfa_required token) × (answer ≡ ok token)
  challenged_done (ok token) o h = (token, ground arith, refl)
  challenged_done (err e) o h = absurd (ground arith)

  after_status_done :
      (user : User) (email : Text) (remember : Bool) (p : Result Bool × S) (t : S)
      (o : LoginOutcome)
      → after_status v caller user email remember p ≡ (done o, t)
      → (needs_mfa : Bool) × (p.0 ≡ ok needs_mfa)
        × (((needs_mfa ≡ false) × Issued v caller user (codes "password") remember p.1 o)
            ⊎ ((needs_mfa ≡ true)
                × (token : Text) × (o ≡ mfa_required token)
                × (v.challenge
                      (password_challenge v caller user remember)
                      v.cfg.jwt_secret
                      mfa_challenge_ttl
                    ≡ ok token)))
  after_status_done user email remember (err e, u) t o h = absurd (ground arith)
  after_status_done user email remember (ok false, u) t o h =
      (false, refl, inl (refl, sign_in_done v caller user _ _ _ _ u t o h))
  after_status_done user email remember (ok true, u) t o h =
      let (token, same, made) = challenged_done _ o (ap (λ p. p.0) h) in
      (true, refl, inr (refl, token, same, made))

  after_credentials_done :
      (email password : Text) (remember : Bool) (s w t : S) (wait : ℤ) (p : Result User × S)
      (o : LoginOutcome)
      → ((email is []) || (password is [])) ≡ false
      → login_retry_after v.throttle caller.client_ip email s ≡ (wait, w)
      → positive wait ≡ false
      → v.users.find_by_credentials email password w ≡ p
      → after_credentials v caller email remember p ≡ (done o, t)
      → ByPassword email password remember s o
  after_credentials_done email password remember s w t wait (err not_found, u) o n a l f h =
      absurd (ground arith)
  after_credentials_done email password remember s w t wait (err failed, u) o n a l f h =
      absurd (ground arith)
  after_credentials_done email password remember s w t wait (err invalid, u) o n a l f h =
      absurd (ground arith)
  after_credentials_done email password remember s w t wait (err expired, u) o n a l f h =
      absurd (ground arith)
  after_credentials_done email password remember s w t wait (err no_schema, u) o n a l f h =
      absurd (ground arith)
  after_credentials_done email password remember s w t wait (err too_long, u) o n a l f h =
      absurd (ground arith)
  after_credentials_done email password remember s w t wait (err unavailable, u) o n a l f h =
      absurd (ground arith)
  after_credentials_done email password remember s w t wait (ok user, u) o n a l f h =
      elim (Bool-cases (equal_fold user.status (codes "Block"))) [
        | inl e ↦ absurd (ground arith)
        | inr open_account ↦ elim (Bool-cases (equal_fold user.status (codes "Waiting"))) [
          | inl e ↦ absurd (ground arith)
          | inr accepted ↦
              let p = mfa_required_for_user v.mfa user.id u in
              let (needs, answered, settled) =
                after_status_done user email remember p t o (rw (open_account, accepted) at h) in
              record {
                user = user;
                waited_in = w;
                found_in = u;
                asked_in = p.1;
                wait = wait;
                needs_mfa = needs;
                named = n;
                waited = a;
                not_locked = l;
                found = f;
                not_blocked = open_account;
                not_waiting = accepted;
                asked = ap (λ x. (x, p.1)) answered;
                settled = settled;
              }
        ]
      ]

  after_wait_done :
      (email password : Text) (remember : Bool) (s w t : S) (wait : ℤ) (o : LoginOutcome)
      → ((email is []) || (password is [])) ≡ false
      → login_retry_after v.throttle caller.client_ip email s ≡ (wait, w)
      → after_wait v caller email password remember (wait, w) ≡ (done o, t)
      → ByPassword email password remember s o
  unfolding write_too_many_attempts
  after_wait_done email password remember s w t wait o n a h = elim (Bool-cases (positive wait)) [
    | inl e ↦ absurd (ground arith)
    | inr e ↦
        after_credentials_done email password remember s w t wait
          (v.users.find_by_credentials email password w) o n a e refl (rw e at h)
  ]

  login_with_done :
      (email password : Text) (remember : Bool) (s t : S) (o : LoginOutcome)
      → login_with v caller email password remember s ≡ (done o, t)
      → ByPassword email password remember s o
  unfolding login_with
  login_with_done email password remember s t o h =
      elim (Bool-cases ((email is []) || (password is []))) [
        | inl e ↦ absurd (ground arith)
        | inr e ↦
            let q = login_retry_after v.throttle caller.client_ip email s in
            after_wait_done email password remember s q.1 t q.0 o e refl (rw e at h)
      ]

  -- Where the sign-in with a password succeeds, the throttle reported no wait for the account and the address
  -- (an error of it counts as none), the store found a user by the trimmed and lowered address and the
  -- trimmed password, the user is neither blocked nor waiting, and the second-factor store was asked: the
  -- user needs none, which is also what counts where two-factor sign-in is unavailable, and the answer is a
  -- session of the user; or the user needs one, and the answer is a challenge of the user.
  pub login_handler_sound :
      (method : Text) (payload : LoginRequest) (s t : S) (o : LoginOutcome)
      → login_handler v caller method (some payload) s ≡ (done o, t)
      → (method ≡ codes "POST")
        × ByPassword
            (to_lower (trim_space payload.email))
            (trim_space payload.password)
            payload.remember
            s
            o
  unfolding login_handler
  login_handler_sound method payload s t o h = elim (Bool-cases (method is codes "POST")) [
    | inr e ↦ absurd (ground arith)
    | inl e ↦ (
      (is_iff method (codes "POST")).0 e,
      login_with_done (to_lower (trim_space payload.email)) (trim_space payload.password)
          payload.remember s t o (rw e at h),
    )
  ]
