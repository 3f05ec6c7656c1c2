-- ===== src/Api/AuthMiddleware/Admitted.antt =====
-- The requests that `withAuth` lets pass.
use dorian_back_end.Prelude.{
  ◌≡◌, refl, ◌⊎◌, true, false, ◌||◌, Option, none, some, [], arith, eq_ℤ_iff, Bool-cases,
  Option-cases, inl, inr,
}
use dorian_back_end.Text.{Text, codes, ◌is◌, has_prefix, equal_fold}
use dorian_back_end.Action.{
  Action, Result, ok, err, not_found, expired, failed, invalid, no_schema, too_long, unavailable,
}
use dorian_back_end.Store.ApiTokens.{ApiTokenLookup, api_token_prefix}
use dorian_back_end.Store.AuthSessions.{AuthSessionLookup}
use dorian_back_end.Store.PanelSettings.{require_mfa_applies}
use dorian_back_end.Api.TokenScopes.{api_token_allows}
use dorian_back_end.Api.AuthMiddleware.{
  AuthPrincipal, Request, Verdict, admit, TokenAccess, SessionAccess, Claims, of_token, of_claims,
  of_session, is_public_auth_path, extract_bearer_or_api_key, mfa_setup_allowed, require_mfa_policy,
  token_checked, with_token, session_checked, with_claims, with_auth,
}

module _ {S : Type 0} (tokens : Option (TokenAccess S)) (sessions : Option (SessionAccess S))
    (settings : Option (Text → Action S Text)) (parse_user_token : Text → Result Claims) where
  -- The API token behind a principal: its scopes allow the request, and where the policy forces two-factor
  -- sign-in on the user's role, the user has it.
  pub record ByToken (r : Request) (raw : Text) (s : S) (p : AuthPrincipal) : Type 0 where
    pub store : TokenAccess S
    pub lookup : ApiTokenLookup
    pub after : S
    pub given : tokens ≡ some store
    pub found : store.lookup_active_by_secret raw s ≡ (ok lookup, after)
    pub allowed : api_token_allows lookup.token.scopes r.method r.path ≡ true
    pub second_factor :
        require_mfa_applies
            (require_mfa_policy tokens sessions settings parse_user_token after).0
            lookup.user.role
          ≡ true
        → lookup.user.mfa_enabled ≡ true
    pub is_of : p ≡ of_token lookup

  -- The session behind a principal: it is one of the user in the claims, whose account is active, and
  -- where the policy forces two-factor sign-in on the role, the user has it or is setting it up.
  pub record BySession (r : Request) (raw : Text) (s : S) (p : AuthPrincipal) : Type 0 where
    pub store : SessionAccess S
    pub claims : Claims
    pub lookup : AuthSessionLookup
    pub after : S
    pub given : sessions ≡ some store
    pub signed : parse_user_token raw ≡ ok claims
    pub found : store.lookup_active claims.id s ≡ (ok lookup, after)
    pub same_user : lookup.user_id ≡ claims.user_id
    pub active : equal_fold lookup.status (codes "Active") ≡ true
    pub second_factor :
        require_mfa_applies
            (require_mfa_policy tokens sessions settings parse_user_token
              (store.touch lookup.session.id after).1).0
            lookup.role
          ≡ true
        → (lookup.mfa_enabled || mfa_setup_allowed r.method r.path lookup.user_id) ≡ true
    pub is_of : p ≡ of_session claims lookup

  -- Without a store of sessions the signed claims are enough.
  pub record ByClaims (raw : Text) (p : AuthPrincipal) : Type 0 where
    pub claims : Claims
    pub given : sessions ≡ none
    pub signed : parse_user_token raw ≡ ok claims
    pub is_of : p ≡ of_claims claims

  admit_injective :
      (p q : AuthPrincipal) (s t : S)
      → ◌≡◌ {A = Verdict × S} (admit (some p), s) (admit (some q), t)
      → q ≡ p
  admit_injective p q s t h = ground arith

  token_checked_sound :
      (r : Request) (raw : Text) (s t : S) (p : AuthPrincipal) (store : TokenAccess S)
      (answer : Result ApiTokenLookup × S)
      → tokens ≡ some store
      → store.lookup_active_by_secret raw s ≡ answer
      → token_checked tokens sessions settings parse_user_token r store answer ≡ (admit (some p), t)
      → ByToken r raw s p
  token_checked_sound r raw s t p store (err e, u) given asked h = absurd (ground arith)
  token_checked_sound r raw s t p store (ok l, u) given asked h = record {
    store = store;
    lookup = l;
    after = u;
    given = given;
    found = asked;
    allowed = ground arith;
    second_factor = λ forced. ground arith;
    is_of = ground arith;
  }

  session_checked_sound :
      (r : Request) (raw : Text) (s t : S) (p : AuthPrincipal) (store : SessionAccess S)
      (c : Claims) (answer : Result AuthSessionLookup × S)
      → sessions ≡ some store
      → parse_user_token raw ≡ ok c
      → store.lookup_active c.id s ≡ answer
      → session_checked tokens sessions settings parse_user_token r c store answer
        ≡ (admit (some p), t)
      → BySession r raw s p
  session_checked_sound r raw s t p store c (err not_found, u) given signed asked h =
      absurd (ground arith)
  session_checked_sound r raw s t p store c (err failed, u) given signed asked h =
      absurd (ground arith)
  session_checked_sound r raw s t p store c (err invalid, u) given signed asked h =
      absurd (ground arith)
  session_checked_sound r raw s t p store c (err expired, u) given signed asked h =
      absurd (ground arith)
  session_checked_sound r raw s t p store c (err no_schema, u) given signed asked h =
      absurd (ground arith)
  session_checked_sound r raw s t p store c (err too_long, u) given signed asked h =
      absurd (ground arith)
  session_checked_sound r raw s t p store c (err unavailable, u) given signed asked h =
      absurd (ground arith)
  session_checked_sound r raw s t p store c (ok l, u) given signed asked h = record {
    store = store;
    claims = c;
    lookup = l;
    after = u;
    given = given;
    signed = signed;
    found = asked;
    same_user = (eq_ℤ_iff l.user_id c.user_id).0 (ground arith);
    active = ground arith;
    second_factor = λ forced. ground arith;
    is_of = ground arith;
  }

  with_token_sound :
      (r : Request) (raw : Text) (s t : S) (p : AuthPrincipal)
      → with_token tokens sessions settings parse_user_token r raw s ≡ (admit (some p), t)
      → ByToken r raw s p
  unfolding with_token require_mfa_policy
  with_token_sound r raw s t p h = elim (Option-cases tokens) [
    | inl none_given ↦ absurd (ground arith)
    | inr (store, given) ↦
        token_checked_sound r raw s t p store (store.lookup_active_by_secret raw s) given refl
          (rw given at h)
  ]

  with_claims_sound :
      (r : Request) (raw : Text) (s t : S) (p : AuthPrincipal) (parsed : Result Claims)
      → parse_user_token raw ≡ parsed
      → with_claims tokens sessions settings parse_user_token r parsed s ≡ (admit (some p), t)
      → BySession r raw s p ⊎ ByClaims raw p
  unfolding require_mfa_policy
  with_claims_sound r raw s t p (err e) signed h = absurd (ground arith)
  with_claims_sound r raw s t p (ok c) signed h = elim (Option-cases sessions) [
    | inl none_given ↦
        inr (record { claims = c; given = none_given; signed = signed; is_of = ground arith })
    | inr (store, given) ↦ inl (
        session_checked_sound r raw s t p store c (store.lookup_active c.id s) given signed refl
          (rw given at h))
  ]

  -- A request that `withAuth` passes on for a principal carries a credential, which is an API token that
  -- the scopes and the policy let through, or a signed token with a live session of an active account; or
  -- a signed token, where the server keeps no sessions.
  pub with_auth_sound :
      (r : Request) (s t : S) (p : AuthPrincipal)
      → with_auth tokens sessions settings parse_user_token r s ≡ (admit (some p), t)
      → let raw = extract_bearer_or_api_key r in
        ((has_prefix raw api_token_prefix ≡ true) × ByToken r raw s p)
        ⊎ ((has_prefix raw api_token_prefix ≡ false) × (BySession r raw s p ⊎ ByClaims raw p))
  unfolding with_auth
  with_auth_sound r s t p h =
      let raw = extract_bearer_or_api_key r in
      elim (Bool-cases ((r.method is codes "OPTIONS") || is_public_auth_path r.method r.path)) [
        | inl open_path ↦ absurd (ground arith)
        | inr guarded ↦ elim (Bool-cases (raw is [])) [
          | inl e ↦ absurd (ground arith)
          | inr e ↦ elim (Bool-cases (has_prefix raw api_token_prefix)) [
            | inl token ↦ inl (token, with_token_sound r raw s t p (rw (guarded, e, token) at h))
            | inr signed ↦ inr (
              signed,
              with_claims_sound r raw s t p (parse_user_token raw) refl
                  (rw (guarded, e, signed) at h),
            )
          ]
        ]
      ]

  -- A credential that is accepted names a principal.
  token_checked_named :
      (r : Request) (t : S) (store : TokenAccess S) (answer : Result ApiTokenLookup × S)
      → token_checked tokens sessions settings parse_user_token r store answer ≡ (admit none, t)
      → false ≡ true
  token_checked_named r t store (err e, u) h = ground arith
  token_checked_named r t store (ok l, u) h = ground arith

  with_token_named :
      (r : Request) (raw : Text) (s t : S)
      → with_token tokens sessions settings parse_user_token r raw s ≡ (admit none, t)
      → false ≡ true
  unfolding with_token require_mfa_policy
  with_token_named r raw s t h = elim (Option-cases tokens) [
    | inl none_given ↦ ground arith
    | inr (store, given) ↦
        token_checked_named r t store (store.lookup_active_by_secret raw s) (rw given at h)
  ]

  session_checked_named :
      (r : Request) (t : S) (store : SessionAccess S) (c : Claims)
      (answer : Result AuthSessionLookup × S)
      → session_checked tokens sessions settings parse_user_token r c store answer ≡ (admit none, t)
      → false ≡ true
  session_checked_named r t store c (err not_found, u) h = ground arith
  session_checked_named r t store c (err failed, u) h = ground arith
  session_checked_named r t store c (err invalid, u) h = ground arith
  session_checked_named r t store c (err expired, u) h = ground arith
  session_checked_named r t store c (err no_schema, u) h = ground arith
  session_checked_named r t store c (err too_long, u) h = ground arith
  session_checked_named r t store c (err unavailable, u) h = ground arith
  session_checked_named r t store c (ok l, u) h = ground arith

  with_claims_named :
      (r : Request) (s t : S) (parsed : Result Claims)
      → with_claims tokens sessions settings parse_user_token r parsed s ≡ (admit none, t)
      → false ≡ true
  unfolding require_mfa_policy
  with_claims_named r s t (err e) h = ground arith
  with_claims_named r s t (ok c) h = elim (Option-cases sessions) [
    | inl none_given ↦ ground arith
    | inr (store, given) ↦
        session_checked_named r t store c (store.lookup_active c.id s) (rw given at h)
  ]

  -- Nobody passes without a principal but a preflight request and a request of a public path.
  pub anonymous_only_public :
      (r : Request) (s t : S)
      → with_auth tokens sessions settings parse_user_token r s ≡ (admit none, t)
      → ((r.method is codes "OPTIONS") || is_public_auth_path r.method r.path) ≡ true
  unfolding with_auth
  anonymous_only_public r s t h = ground (
    arith,
    with_token_named r (extract_bearer_or_api_key r) s t,
    with_claims_named r s t (parse_user_token (extract_bearer_or_api_key r)),
  )
