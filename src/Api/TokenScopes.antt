-- ===== src/Api/TokenScopes.antt =====
-- internal/api/token_scopes.go: the scopes of API tokens and the requests that they permit.
pub mod Areas
pub mod Laws
use dorian_back_end.Prelude.{Bool, true, false, ◌&&◌, ◌||◌, List, [], ◌∷◌, ◌++◌, map, if◌then◌else◌}
use dorian_back_end.Text.{
  Text, codes, ◌is◌, member, has_prefix, trim_prefix, has_suffix, trim_suffix, trim_space,
}

-- `apiTokenScopeCatalog`; labels and descriptions are display text.
abbrev pub catalog : List Text
catalog =
    codes "*"
    ∷ codes "read"
    ∷ codes "analytics:read"
    ∷ codes "edges:read"
    ∷ codes "edges:write"
    ∷ codes "sites:read"
    ∷ codes "sites:write"
    ∷ codes "waf:read"
    ∷ codes "waf:write"
    ∷ []

unfoldable pub is_known_scope : Text → Bool
unfolding member ◌is◌
is_known_scope scope = member scope catalog

-- The three trims at the head of the path functions.
unfoldable pub route : Text → Text
route path =
    trim_prefix (trim_prefix (trim_suffix path (codes "/")) (codes "/api/v1")) (codes "/api")

-- `p == name || strings.HasPrefix(p, name + "/")`.
unfoldable pub under : Text → Text → Bool
under p name = (p is name) || has_prefix p (name ++ codes "/")

-- The `switch` of `apiAreaForPath` on the trimmed path.
unfoldable pub area_of_route : Text → Text
area_of_route p =
    if under p (codes "/analytics")
      || under p (codes "/dashboard")
      || has_suffix p (codes "/access-log/stream")
    then codes "analytics"
    else if under p (codes "/servers/blacklist")
    then codes "waf"
    else if under p (codes "/servers")
        || (p is codes "/license-plans")
        || (p is codes "/deploy-versions")
    then codes "edges"
    else if under p (codes "/sites")
    then codes "sites"
    else if under p (codes "/waf-rules")
    then codes "waf"
    else []

unfoldable pub api_area_for_path : Text → Text
api_area_for_path path = area_of_route (route path)

unfoldable pub is_read_method : Text → Bool
is_read_method method = (method is codes "GET") || (method is codes "HEAD")

unfoldable pub is_analytics_export_path : Text → Bool
is_analytics_export_path path = route path is codes "/analytics/logs/export"

unfoldable pub is_analytics_log_files_path : Text → Bool
is_analytics_log_files_path path =
    let p = route path in
    (p is codes "/analytics/logs/files")
    || (p is codes "/analytics/logs/files/content")
    || (p is codes "/analytics/logs/files/download")

-- The variable `read` of `apiTokenAllows`.
unfoldable pub is_read_request : Text → Text → Bool
is_read_request method path =
    is_read_method method || (method is codes "POST") && is_analytics_export_path path

-- The map `has` holds the trimmed scopes.
unfoldable pub has_scope : List Text → Text → Bool
has_scope scopes scope = member scope (map trim_space scopes)

unfoldable pub api_token_allows : List Text → Text → Text → Bool
api_token_allows scopes method path =
    let area = api_area_for_path path in
    if has_scope scopes (codes "*")
    then true
    else if area is []
    then false
    else if has_scope scopes (area ++ codes ":write")
    then true
    else if is_read_request method path
    then has_scope scopes (codes "read") || has_scope scopes (area ++ codes ":read")
    else false
