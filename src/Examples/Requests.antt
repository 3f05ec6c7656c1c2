-- ===== src/Examples/Requests.antt =====
-- Requests with a session, of a user whose sessions and own record are at hand.
use dorian_back_end.Prelude.{
  ◌≡◌, ◌≢◌, ◌↔◌, ◌⊎◌, ◌||◌, refl, true, false, none, some, Option, [], ◌∷◌, pos, positive,
}
use dorian_back_end.Text.{Text, codes, ◌is◌, has_prefix}
use dorian_back_end.Action.{Action, Result, ok, err, expired}
use dorian_back_end.Store.Database.{Database}
use dorian_back_end.Store.ApiTokens.{api_token_prefix}
use dorian_back_end.Store.AuthSessions.{
  AuthSession, SessionUser, SessionTables, AuthSessionCreateInput, new_session, lookup_active,
  revoke, touch,
}
use dorian_back_end.Api.AuthMiddleware.{
  AuthPrincipal, jwt, Request, Verdict, admit, TokenAccess, SessionAccess, Claims, with_auth,
  extract_bearer_or_api_key, is_public_auth_path, require_admin_or_self_user, is_admin,
  user_in_path,
}
use dorian_back_end.Api.AuthMiddleware.Admitted.{
  ByToken, BySession, ByClaims, with_auth_sound, anonymous_only_public,
}
use dorian_back_end.Api.AuthMiddleware.SignedOut.{session_access, revoked_session_refused}
use dorian_back_end.Api.AuthMiddleware.Roles.{require_admin_or_self_user_iff}
use dorian_back_end.Examples.Servers.{memory_database, memory_database-IsDocumented}

abbrev db : Database SessionTables
db = memory_database

abbrev input : AuthSessionCreateInput
input = record {
  user_id = pos 7;
  method = codes "password";
  remember = false;
  ip_address = codes "10.0.0.1";
  user_agent = codes "browser";
  ttl = pos 600000;
}

abbrev user : SessionUser
user = record {
  id = pos 7;
  name = codes "Ann";
  email = codes "ann@example.org";
  role = codes "User";
  status = codes "Active";
  totp_enabled_at = none;
}

abbrev tables : SessionTables
tables = record { sessions = new_session (codes "a1") 5000 input ∷ []; users = user ∷ [] }

abbrev claims : Claims
claims = record {
  user_id = pos 7;
  email = codes "old@example.org";
  name = codes "Ann";
  role = codes "Admin";
  id = codes "a1";
}

-- The only signed token is "T".
abbrev parse : Text → Result Claims
parse raw = elim (raw is codes "T") [ true ↦ ok claims | false ↦ err expired ]

abbrev request : Request
request = record {
  method = codes "GET";
  path = codes "/api/v1/users/7";
  authorization = codes "bearer T";
  x_api_key = [];
  upgrade = [];
  query_access_token = [];
  query_token = [];
  query_actor_user_id = [];
}

abbrev no_tokens : Option (TokenAccess SessionTables)
no_tokens = none

abbrev no_settings : Option (Text → Action SessionTables Text)
no_settings = none

abbrev ann : AuthPrincipal
ann = record {
  user_id = pos 7;
  email = codes "ann@example.org";
  name = codes "Ann";
  role = codes "User";
  auth_kind = jwt;
  token_id = pos 0;
  session_id = codes "a1";
  mfa_enabled = false;
}

abbrev sessions : Option (SessionAccess SessionTables)
sessions = some (session_access db 6000)

passed : with_auth no_tokens sessions no_settings parse request tables ≡ (admit (some ann), tables)
unfolding with_auth ◌is◌ is_public_auth_path dorian_back_end.Text.member
    dorian_back_end.Text.trim_suffix dorian_back_end.Text.strip extract_bearer_or_api_key
    dorian_back_end.Text.split2 dorian_back_end.Text.trim_space dorian_back_end.Text.equal_fold
    has_prefix session_access lookup_active dorian_back_end.Store.AuthSessions.lookup_id
    dorian_back_end.Store.AuthSessions.session_with_user dorian_back_end.Store.Database.find
    new_session dorian_back_end.Api.AuthMiddleware.is_web_socket_upgrade
    dorian_back_end.Api.AuthMiddleware.mfa_setup_allowed
    dorian_back_end.Api.AuthMiddleware.require_mfa_policy
    dorian_back_end.Api.AuthMiddleware.with_token dorian_back_end.Api.Params.id_of_raw
    dorian_back_end.Api.Params.parse_id dorian_back_end.Api.Params.parse_positive_int
    dorian_back_end.Api.TokenScopes.api_area_for_path
    dorian_back_end.Api.TokenScopes.api_token_allows dorian_back_end.Api.TokenScopes.area_of_route
    dorian_back_end.Api.TokenScopes.has_scope
    dorian_back_end.Api.TokenScopes.is_analytics_export_path
    dorian_back_end.Api.TokenScopes.is_read_method dorian_back_end.Api.TokenScopes.is_read_request
    dorian_back_end.Api.TokenScopes.route dorian_back_end.Api.TokenScopes.under
    dorian_back_end.Store.AuthSessions.method_name touch
    dorian_back_end.Store.AuthSessions.touch_row dorian_back_end.Store.AuthSessions.truncate_runes
    dorian_back_end.Store.Database.update dorian_back_end.Store.PanelSettings.normalize_require_mfa
    dorian_back_end.Store.PanelSettings.require_mfa_applies dorian_back_end.Text.has_suffix
    dorian_back_end.Text.trim_prefix dorian_back_end.Text.digits_value
    dorian_back_end.Text.parse_int dorian_back_end.Text.unsigned
    dorian_back_end.Text.Equal.fold_char dorian_back_end.Text.Equal.lower_char
    dorian_back_end.Text.to_lower dorian_back_end.Text.is_space dorian_back_end.Text.trim_left
    dorian_back_end.Text.contains
passed = refl

with_auth_sound_example :
    ((has_prefix (extract_bearer_or_api_key request) api_token_prefix ≡ true)
      × ByToken no_tokens sessions no_settings parse request
          (extract_bearer_or_api_key request)
          tables
          ann)
    ⊎ ((has_prefix (extract_bearer_or_api_key request) api_token_prefix ≡ false)
        × (BySession no_tokens sessions no_settings parse request
              (extract_bearer_or_api_key request)
              tables
              ann
            ⊎ ByClaims no_tokens sessions no_settings parse
                (extract_bearer_or_api_key request)
                ann))
with_auth_sound_example =
    with_auth_sound no_tokens sessions no_settings parse request tables tables ann passed

revoked_session_refused_example : pos 7 ≢ pos 8
unfolding revoke dorian_back_end.Store.AuthSessions.revoke_rows dorian_back_end.Store.Database.count
    dorian_back_end.Store.Database.update ◌is◌ new_session dorian_back_end.Text.trim_space
revoked_session_refused_example =
    revoked_session_refused db memory_database-IsDocumented no_tokens no_settings parse 5500 6000
      (pos 8) (codes "a1") request tables tables tables false ann refl passed refl refl

abbrev health : Request
health = record request { path = codes "/health" }

anonymous_only_public_example :
    ((codes "GET" is codes "OPTIONS") || is_public_auth_path (codes "GET") (codes "/health")) ≡ true
unfolding with_auth ◌is◌ is_public_auth_path dorian_back_end.Text.member
    dorian_back_end.Text.trim_suffix dorian_back_end.Text.strip
anonymous_only_public_example =
    anonymous_only_public no_tokens sessions no_settings parse health tables tables refl

require_admin_or_self_user_iff_example :
    (require_admin_or_self_user request (some ann) ≡ admit (some ann)) ↔ (
      (positive (pos 7) ≡ true)
      × ((is_admin ann ≡ true)
          ⊎ ((user_in_path (codes "/api/v1/users/7") ≡ some (pos 7))
              × (codes "GET" ≢ codes "DELETE"))))
require_admin_or_self_user_iff_example = require_admin_or_self_user_iff request ann
