-- ===== src/Api/AuthMiddleware/Paths.antt =====
-- The paths of internal/api/auth_middleware.go that need no credential.
use dorian_back_end.Prelude.{Bool, false, ◌||◌, List, [], ◌∷◌, if◌then◌else◌}
use dorian_back_end.Text.{Text, codes, ◌is◌, member, trim_suffix}
use dorian_back_end.Api.Params.{slash}

abbrev pub get_or_head : Text → Bool
get_or_head method = (method is codes "GET") || (method is codes "HEAD")

abbrev pub health_paths : List Text
health_paths = codes "/health" ∷ codes "/api/v1/health" ∷ codes "/api/v1/status" ∷ []

abbrev pub login_paths : List Text
login_paths =
    codes "/auth/login"
    ∷ codes "/api/v1/auth/login"
    ∷ codes "/auth/login/mfa"
    ∷ codes "/api/v1/auth/login/mfa"
    ∷ []

abbrev pub password_paths : List Text
password_paths =
    codes "/auth/password/forgot"
    ∷ codes "/api/v1/auth/password/forgot"
    ∷ codes "/auth/password/token"
    ∷ codes "/api/v1/auth/password/token"
    ∷ codes "/auth/password/complete"
    ∷ codes "/api/v1/auth/password/complete"
    ∷ []

abbrev pub option_paths : List Text
option_paths =
    codes "/auth/oauth/providers"
    ∷ codes "/api/v1/auth/oauth/providers"
    ∷ codes "/auth/options"
    ∷ codes "/api/v1/auth/options"
    ∷ []

abbrev pub oauth_paths : List Text
oauth_paths =
    codes "/auth/oauth/google/start"
    ∷ codes "/api/v1/auth/oauth/google/start"
    ∷ codes "/auth/oauth/google/callback"
    ∷ codes "/api/v1/auth/oauth/google/callback"
    ∷ codes "/auth/oauth/github/start"
    ∷ codes "/api/v1/auth/oauth/github/start"
    ∷ codes "/auth/oauth/github/callback"
    ∷ codes "/api/v1/auth/oauth/github/callback"
    ∷ codes "/auth/oauth/sso/start"
    ∷ codes "/api/v1/auth/oauth/sso/start"
    ∷ codes "/auth/oauth/sso/callback"
    ∷ codes "/api/v1/auth/oauth/sso/callback"
    ∷ []

abbrev pub report_paths : List Text
report_paths =
    codes "/report_xdp"
    ∷ codes "/api/report_xdp"
    ∷ codes "/api/v1/report_xdp"
    ∷ codes "/report_l7_attack"
    ∷ codes "/api/report_l7_attack"
    ∷ codes "/api/v1/report_l7_attack"
    ∷ codes "/report_edge_configure"
    ∷ codes "/api/report_edge_configure"
    ∷ codes "/api/v1/report_edge_configure"
    ∷ codes "/report_cache_hit"
    ∷ codes "/api/report_cache_hit"
    ∷ codes "/api/v1/report_cache_hit"
    ∷ []

abbrev pub list_paths : List Text
list_paths =
    codes "/api/get_blocklist_ips"
    ∷ codes "/api/v1/get_blocklist_ips"
    ∷ codes "/api/get_whitelist_ips"
    ∷ codes "/api/v1/get_whitelist_ips"
    ∷ []

abbrev pub added_paths : List Text
added_paths =
    codes "/temporary_blacklist_added"
    ∷ codes "/api/temporary_blacklist_added"
    ∷ codes "/api/v1/temporary_blacklist_added"
    ∷ []

abbrev pub is_post : Text → Bool
is_post method = method is codes "POST"

-- The `switch` of `isPublicAuthPath`; an empty path, which becomes "/", is no case of it.
unfoldable pub is_public_auth_path : Text → Text → Bool
is_public_auth_path method path =
    let p = trim_suffix path slash in
    if member p health_paths
    then get_or_head method
    else if member p login_paths
    then is_post method
    else if member p password_paths
    then is_post method
    else if member p option_paths
    then get_or_head method
    else if member p oauth_paths
    then method is codes "GET"
    else if member p report_paths
    then is_post method
    else if member p list_paths
    then (method is codes "GET") || is_post method
    else if member p added_paths
    then is_post method
    else false
