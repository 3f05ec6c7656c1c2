-- ===== src/Api/SignIn/Enrolled.antt =====
-- Sign-in over the second-factor store, for a user with a secret in the tables.
use dorian_back_end.Prelude.{
  ℕ, ◌≡◌, ◌≢◌, refl, ap, sym, subst, ◌∙◌, false, Option, none, some, List, [], arith, ℤ, ◌⊎◌, inl,
  inr, Bool-cases,
}
use dorian_back_end.Text.{Text, ◌is◌, is_iff, trim_space, to_lower}
use dorian_back_end.Action.{
  Action, Result, ok, err, failed, not_found, invalid, expired, no_schema, too_long, unavailable,
  >>=-eq-ok,
}
use dorian_back_end.Store.Database.{Database, IsDocumented, find, found_ok}
use dorian_back_end.Store.UserMfa.Asked.{ask_ok}
use dorian_back_end.Store.UserMfa.{
  ask, MfaUser, MfaTables, MfaStatus, string_of, is_user, select_user, finish_status,
  remaining_codes, status,
}
use dorian_back_end.Api.SignIn.{ThrottleAccess, done, waited, login_retry_after}
use dorian_back_end.Api.SignIn.SecondFactor.{status_seen, mfa_required_for_user}
use dorian_back_end.Api.SignIn.Session.{
  LoginOutcome, LoginResponse, session_issued, mfa_required, Caller,
}
use dorian_back_end.Api.SignIn.Login.{Services, LoginRequest, login_handler}
use dorian_back_end.Api.SignIn.Wired.{mfa_access, on_left, left_throttle, with_mfa}
use dorian_back_end.Api.SignIn.Granted.ByPassword.{login_handler_sound}

module _ {S T : Type 0} where
  on_left_keeps :
      {A : Type 0} (m : Action S A) (p : S × T) {a : Result A} {q : S × T}
      → on_left m p ≡ (a, q)
      → q.1 ≡ p.1
  on_left_keeps m p h = ap (λ x. x.1.1) (sym h)

  waited_keeps :
      (throttle : Option (ThrottleAccess (S × T))) (a : Result ℤ) (p q : S × T) (w : ℤ)
      → waited throttle (a, p) ≡ (w, q)
      → q.1 ≡ p.1
  waited_keeps throttle (ok wait) p q w h = ap (λ x. x.1.1) (sym h)
  waited_keeps throttle (err e) p q w h = ap (λ x. x.1.1) (sym h)

  retry_keeps :
      (throttle : Option (ThrottleAccess S)) (ip account : Text) (p q : S × T) (w : ℤ)
      → login_retry_after (left_throttle throttle) ip account p ≡ (w, q)
      → q.1 ≡ p.1
  unfolding login_retry_after
  retry_keeps none ip account p q w h = ap (λ x. x.1.1) (sym h)
  retry_keeps (some throttle) ip account p q w h =
      let asked = on_left (throttle.retry_after ip account) p in
      waited_keeps (left_throttle (some throttle)) asked.0 asked.1 q w h

  status_answered :
      (a : Result MfaStatus) (p q : S × T)
      → status_seen (a, p) ≡ (ok false, q)
      → (a ≡ err unavailable) ⊎ ((m : MfaStatus) × (a ≡ ok m) × (m.enabled ≡ false))
  status_answered (ok m) p q h = inr (m, refl, ground arith)
  status_answered (err unavailable) p q h = inl refl
  status_answered (err failed) p q h = absurd (ground arith)
  status_answered (err not_found) p q h = absurd (ground arith)
  status_answered (err invalid) p q h = absurd (ground arith)
  status_answered (err expired) p q h = absurd (ground arith)
  status_answered (err no_schema) p q h = absurd (ground arith)
  status_answered (err too_long) p q h = absurd (ground arith)

module _ (d : Database MfaTables) (doc : IsDocumented d) (digest : Text → Text) where
  open d use {State, content, run}

  finish_status_ok :
      (id : ℤ) (user : MfaUser) (s t : State) (m : MfaStatus)
      → finish_status d digest id user s ≡ (ok m, t)
      → m.enabled ≡ false
      → string_of user.totp_secret ≡ []
  finish_status_ok id user s t m h off = elim (Bool-cases (string_of user.totp_secret is [])) [
    | inl e ↦ (is_iff (string_of user.totp_secret) []).0 e
    | inr e ↦
        let (n, u, asked, rest) =
          >>=-eq-ok (ask d digest ℕ (remaining_codes d digest id)) _ s (rw e at h) in
        absurd (ground arith)
  ]

  -- An answer that two-factor sign-in is off comes from a row without a secret.
  status_off :
      (id : ℤ) (s t : State) (m : MfaStatus)
      → status d digest id s ≡ (ok m, t)
      → m.enabled ≡ false
      → (user : MfaUser) × (find (is_user d digest id) (content s).users ≡ some user)
        × (string_of user.totp_secret ≡ [])
  unfolding status
  status_off id s t m h off =
      let (user, u, asked, rest) =
        >>=-eq-ok (ask d digest MfaUser (select_user d digest id)) (finish_status d digest id) s
          h in
      (
        user,
        (found_ok _ _ (ask_ok d doc digest _ _ s user u asked)).0,
        finish_status_ok id user u t m rest off,
      )

issued_not_challenge :
    (response : LoginResponse) (token : Text) → session_issued response ≢ mfa_required token
issued_not_challenge response token h = ground arith

issued_id : (a b : LoginResponse) → session_issued a ≡ session_issued b → a.id ≡ b.id
issued_id a b h =
    ap (λ (o : LoginOutcome). elim o [ session_issued r ↦ r.id | mfa_required token ↦ a.id ]) h

-- Why a user needs no second factor: the row of the user has no secret, or the server said that the tables
-- or the columns of two-factor sign-in are not there.
abbrev pub NeedsNone : (d : Database MfaTables) → (Text → Text) → ℤ → d.State → Type 0
NeedsNone d digest id s =
    ((user : MfaUser) × (find (is_user d digest id) (d.content s).users ≡ some user)
      × (string_of user.totp_secret ≡ []))
    ⊎ ((status d digest id s).0 ≡ err unavailable)

module _ {S : Type 0} (d : Database MfaTables) (doc : IsDocumented d) (digest : Text → Text)
    (now : ℕ) (raws : Result (List Text)) (v : Services S) (caller : Caller) where
  abbrev services : Services (S × d.State)
  services = with_mfa v (mfa_access d digest now raws)

  secretless :
      (id : ℤ) (p q : S × d.State)
      → mfa_required_for_user services.mfa id p ≡ (ok false, q)
      → NeedsNone d digest id p.1
  unfolding mfa_required_for_user
  secretless id (s, t) q h =
      elim (status_answered (status d digest id t).0 (s, (status d digest id t).1) q h) [
        | inl e ↦ inr e
        | inr (m, e, off) ↦ inl (
            status_off d doc digest id t (status d digest id t).1 m
              (ap (λ a. (a, (status d digest id t).1)) e) off)
      ]

  -- A session that a password alone gives is of a user whose row in the second-factor tables has no
  -- secret, unless the server, asked for the user's second factor, said that its tables or columns are not
  -- there.
  pub password_alone_unenrolled :
      (method : Text) (payload : LoginRequest) (s : S) (x : d.State) (q : S × d.State)
      (response : LoginResponse)
      → login_handler services caller method (some payload) (s, x)
        ≡ (done (session_issued response), q)
      → NeedsNone d digest response.id x
  password_alone_unenrolled method payload s x q response h =
      let by = (login_handler_sound services caller method payload (s, x) q _ h).1 in
      let email = to_lower (trim_space payload.email) in
      let waited =
        retry_keeps v.throttle caller.client_ip email (s, x) by.waited_in by.wait by.waited in
      let found =
        on_left_keeps (v.users.find_by_credentials email (trim_space payload.password)) by.waited_in
          by.found in
      elim by.settled [
        | inr (needs, token, other, _) ↦ absurd (issued_not_challenge response token other)
        | inl (needs, session) ↦
            let same : response.id ≡ by.user.id = issued_id response _ session.is_of in
            subst (NeedsNone d digest response.id) (found ∙ waited)
              (rw same (secretless by.user.id by.found_in by.asked_in (rw needs at by.asked)))
      ]
