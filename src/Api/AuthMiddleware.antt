-- ===== src/Api/AuthMiddleware.antt =====
-- internal/api/auth_middleware.go: who may pass. A handler of the next stage is run where the answer is
-- `admit`; a refusal is the status and the `error` field of the JSON that is written.
pub mod Admitted
pub mod Roles
pub mod SignedOut
mod Paths
pub use Paths.{get_or_head, is_post}
unfoldable pub use Paths.{is_public_auth_path}
use dorian_back_end.Prelude.{
  ℕ, ◌≡◌, Bool, true, false, not, ◌&&◌, ◌||◌, Option, none, some, List, [], ◌∷◌, ◌++◌,
  if◌then◌else◌, ℤ, pos, positive, eq_ℤ,
}
use dorian_back_end.Text.{
  Text, codes, ◌is◌, member, has_prefix, trim_prefix, trim_suffix, trim_space, equal_fold, split2,
  parse_int,
}
use dorian_back_end.Action.{Action, Result, Error, ok, err, expired, not_found}
use dorian_back_end.Api.Params.{parse_id, slash}
use dorian_back_end.Api.TokenScopes.{api_token_allows, is_read_method}
use dorian_back_end.Store.ApiTokens.{ApiTokenLookup, api_token_prefix}
use dorian_back_end.Store.AuthSessions.{AuthSessionLookup}
use dorian_back_end.Store.PanelSettings.{
  require_mfa_applies, normalize_require_mfa, setting_require_mfa, off,
}

pub data AuthKind : Type 0 where
  jwt api_token : AuthKind

pub record AuthPrincipal : Type 0 where
  pub user_id : ℤ
  pub email : Text
  pub name : Text
  pub role : Text
  pub auth_kind : AuthKind
  pub token_id : ℤ
  pub session_id : Text
  pub mfa_enabled : Bool

-- The parts of a request that the middleware reads: an absent header or query value is empty.
pub record Request : Type 0 where
  pub method : Text
  pub path : Text
  pub authorization : Text
  pub x_api_key : Text
  pub upgrade : Text
  pub query_access_token : Text
  pub query_token : Text
  pub query_actor_user_id : Text

pub data Verdict : Type 0 where
  admit : Option AuthPrincipal → Verdict
  refuse : ℕ → Text → Verdict

abbrev pub bearer_part : Option (Text × Text) → Option Text
bearer_part none = none
bearer_part (some (scheme, rest)) =
    if equal_fold scheme (codes "Bearer") then some (trim_space rest) else none

unfoldable pub is_web_socket_upgrade : Request → Bool
is_web_socket_upgrade r = equal_fold (trim_space r.upgrade) (codes "websocket")

abbrev pub query_credential : Request → Text
query_credential r =
    if not (is_web_socket_upgrade r)
    then []
    else if not (trim_space r.query_access_token is [])
    then trim_space r.query_access_token
    else trim_space r.query_token

abbrev pub key_or_query : Request → Text
key_or_query r =
    if not (trim_space r.x_api_key is []) then trim_space r.x_api_key else query_credential r

-- `SplitN(raw, " ", 2)` of an empty header has one part, so the test for it needs no branch.
unfoldable pub extract_bearer_or_api_key : Request → Text
extract_bearer_or_api_key r = elim (bearer_part (split2 (trim_space r.authorization) b' ')) [
  | some credential ↦ credential
  | none ↦ key_or_query r
]

abbrev pub enrol_paths : List Text
enrol_paths = codes "/auth/logout" ∷ codes "/auth/mfa/setup" ∷ codes "/auth/mfa/enable" ∷ []

abbrev pub profile_paths : List Text
profile_paths =
    codes "/auth/mfa"
    ∷ codes "/auth/me"
    ∷ codes "/auth/sessions"
    ∷ codes "/audit-logs"
    ∷ codes "/auth/api-tokens"
    ∷ codes "/notifications"
    ∷ codes "/license-plans"
    ∷ []

abbrev pub is_id : ℤ → Option ℤ → Bool
is_id id none = false
is_id id (some parsed) = eq_ℤ parsed id

unfoldable pub mfa_setup_allowed : Text → Text → ℤ → Bool
mfa_setup_allowed method path user_id =
    let p = trim_suffix (trim_prefix path (codes "/api/v1")) slash in
    if member p enrol_paths
    then true
    else if member p profile_paths
    then is_read_method method
    else if has_prefix p (codes "/auth/sessions/")
    then true
    else if is_id user_id (parse_id p (codes "/users/"))
    then is_read_method method
    else false

-- What `withAuth` calls, over one state of the stores. A lookup that fails answers `err`.
pub record TokenAccess (S : Type 0) : Type 0 where
  pub lookup_active_by_secret : Text → Action S ApiTokenLookup
  pub touch_last_used : ℤ → Action S (Unit {0})

pub record SessionAccess (S : Type 0) : Type 0 where
  pub lookup_active : Text → Action S AuthSessionLookup
  pub touch : Text → Action S (Unit {0})

-- The claims of a signed user token that `auth.ParseUserToken` accepted.
pub record Claims : Type 0 where
  pub user_id : ℤ
  pub email : Text
  pub name : Text
  pub role : Text
  pub id : Text

abbrev pub unauthorized : Verdict
unauthorized = refuse 401 (codes "unauthorized")

abbrev pub setup_required : Verdict
setup_required = refuse 403 (codes "mfa_setup_required")

abbrev pub of_token : ApiTokenLookup → AuthPrincipal
of_token l = record {
  user_id = l.user.id;
  email = l.user.email;
  name = l.user.name;
  role = l.user.role;
  auth_kind = api_token;
  token_id = l.token.id;
  session_id = [];
  mfa_enabled = l.user.mfa_enabled;
}

abbrev pub of_claims : Claims → AuthPrincipal
of_claims c = record {
  user_id = c.user_id;
  email = c.email;
  name = c.name;
  role = c.role;
  auth_kind = jwt;
  token_id = pos 0;
  session_id = c.id;
  mfa_enabled = false;
}

abbrev pub of_session : Claims → AuthSessionLookup → AuthPrincipal
of_session c l = record (of_claims c) {
  email = l.email;
  name = l.name;
  role = l.role;
  mfa_enabled = l.mfa_enabled;
}

module _ {S : Type 0} (tokens : Option (TokenAccess S)) (sessions : Option (SessionAccess S))
    (settings : Option (Text → Action S Text)) (parse_user_token : Text → Result Claims) where
  abbrev pub policy_of : Result Text → Text
  policy_of (ok value) = normalize_require_mfa value
  policy_of (err e) = off

  unfoldable pub require_mfa_policy : S → Text × S
  require_mfa_policy s = elim settings [
    | none ↦ (off, s)
    | some settings_get ↦
        let (value, t) = settings_get setting_require_mfa s in (policy_of value, t)
  ]

  abbrev pub token_pause : ApiTokenLookup → TokenAccess S → Text × S → Verdict × S
  token_pause l store (policy, s) =
      if require_mfa_applies policy l.user.role && not l.user.mfa_enabled
      then (setup_required, s)
      else (admit (some (of_token l)), (store.touch_last_used l.token.id s).1)

  abbrev pub token_checked : Request → TokenAccess S → Result ApiTokenLookup × S → Verdict × S
  token_checked r store (err e, s) = (unauthorized, s)
  token_checked r store (ok l, s) =
      if api_token_allows l.token.scopes r.method r.path
      then token_pause l store (require_mfa_policy s)
      else (refuse 403 (codes "insufficient_scope"), s)

  unfoldable pub with_token : Request → Text → S → Verdict × S
  with_token r raw s = elim tokens [
    | none ↦ (unauthorized, s)
    | some store ↦ token_checked r store (store.lookup_active_by_secret raw s)
  ]

  abbrev pub session_pause : Request → Claims → AuthSessionLookup → Text × S → Verdict × S
  session_pause r c l (policy, s) =
      if require_mfa_applies policy l.role
        && not l.mfa_enabled
        && not (mfa_setup_allowed r.method r.path l.user_id)
      then (setup_required, s)
      else (admit (some (of_session c l)), s)

  abbrev pub ended : Error → Verdict
  ended not_found = refuse 401 (codes "session_ended")
  ended e = refuse 500 (codes "Internal Server Error")

  abbrev pub session_checked :
      Request → Claims → SessionAccess S → Result AuthSessionLookup × S → Verdict × S
  session_checked r c store (err e, s) = (ended e, s)
  session_checked r c store (ok l, s) =
      if not (eq_ℤ l.user_id c.user_id)
      then (refuse 401 (codes "session_ended"), s)
      else if not (equal_fold l.status (codes "Active"))
      then (refuse 401 (codes "account_inactive"), s)
      else session_pause r c l (require_mfa_policy (store.touch l.session.id s).1)

  abbrev pub with_claims : Request → Result Claims → S → Verdict × S
  with_claims r (err e) s = (unauthorized, s)
  with_claims r (ok c) s = elim sessions [
    | none ↦ (admit (some (of_claims c)), s)
    | some store ↦ session_checked r c store (store.lookup_active c.id s)
  ]

  unfoldable pub with_auth : Request → S → Verdict × S
  with_auth r s =
      let raw = extract_bearer_or_api_key r in
      if (r.method is codes "OPTIONS") || is_public_auth_path r.method r.path
      then (admit none, s)
      else if raw is []
      then (unauthorized, s)
      else if has_prefix raw api_token_prefix
      then with_token r raw s
      else with_claims r (parse_user_token raw) s

abbrev pub forbidden : Verdict
forbidden = refuse 403 (codes "forbidden")

abbrev pub is_admin : AuthPrincipal → Bool
is_admin principal = equal_fold principal.role (codes "Admin")

unfoldable pub require_admin : Option AuthPrincipal → Verdict
require_admin none = forbidden
require_admin (some principal) = if is_admin principal then admit (some principal) else forbidden

-- `/users/` is tried first, then `/api/v1/users/`.
unfoldable pub user_in_path : Text → Option ℤ
user_in_path path = elim (parse_id path (codes "/users/")) [
  | some id ↦ some id
  | none ↦ parse_id path (codes "/api/v1/users/")
]

unfoldable pub require_admin_or_self_user : Request → Option AuthPrincipal → Verdict
require_admin_or_self_user r none = unauthorized
require_admin_or_self_user r (some principal) =
    if not (positive principal.user_id)
    then unauthorized
    else if is_admin principal
    then admit (some principal)
    else if not (is_id principal.user_id (user_in_path r.path))
    then forbidden
    else if r.method is codes "DELETE"
    then forbidden
    else admit (some principal)

unfoldable pub require_admin_or_own_audit_logs : Request → Option AuthPrincipal → Verdict
require_admin_or_own_audit_logs r none = unauthorized
require_admin_or_own_audit_logs r (some principal) =
    if not (positive principal.user_id)
    then unauthorized
    else if is_admin principal
    then admit (some principal)
    else if is_id principal.user_id (parse_int (trim_space r.query_actor_user_id))
    then admit (some principal)
    else forbidden
