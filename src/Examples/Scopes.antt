-- ===== src/Examples/Scopes.antt =====
-- A token that reads the site area, and ids in paths.
use dorian_back_end.Prelude.{
  ◌≡◌, refl, ◌↔◌, ◌⊎◌, true, false, some, List, [], ◌∷◌, ◌++◌, ℕ, ◌≤◌, ◌<◌, pos, All, map,
}
use dorian_back_end.Text.{
  Text, codes, max_int64, parse_int, contains, format_nat, member, ◌is◌, trim_space,
}
use dorian_back_end.Api.TokenScopes
use dorian_back_end.Api.TokenScopes.{api_token_allows}
use dorian_back_end.Api.TokenScopes.Laws.{
  Permits, Reads, read_scopes, api_token_allows_iff, read_scopes_only_read,
}
use dorian_back_end.Api.Params.{parse_id, parse_id_with_suffix, slash}
use dorian_back_end.Api.Params.Laws.{parse_id_sound}

abbrev scopes : List Text
scopes = codes " sites:read" ∷ []

abbrev site : Text
site = codes "/api/v1/sites/7"

allowed : api_token_allows scopes (codes "GET") site ≡ true
unfolding api_token_allows TokenScopes.has_scope member ◌is◌ trim_space
    TokenScopes.api_area_for_path TokenScopes.area_of_route TokenScopes.under TokenScopes.route
    dorian_back_end.Text.trim_prefix dorian_back_end.Text.strip dorian_back_end.Text.trim_suffix
    dorian_back_end.Text.has_prefix dorian_back_end.Text.has_suffix TokenScopes.is_read_request
    TokenScopes.is_read_method
allowed = refl

api_token_allows_iff_example :
    (api_token_allows scopes (codes "GET") site ≡ true) ↔ Permits scopes (codes "GET") site
api_token_allows_iff_example = api_token_allows_iff scopes (codes "GET") site

allowed_write : api_token_allows (codes "sites:write" ∷ []) (codes "DELETE") site ≡ true
unfolding api_token_allows TokenScopes.has_scope member ◌is◌ trim_space
    TokenScopes.api_area_for_path TokenScopes.area_of_route TokenScopes.under TokenScopes.route
    dorian_back_end.Text.trim_prefix dorian_back_end.Text.strip dorian_back_end.Text.trim_suffix
    dorian_back_end.Text.has_prefix dorian_back_end.Text.has_suffix
allowed_write = refl

All-read : All (λ s. member s read_scopes ≡ true) (map trim_space scopes)
unfolding member ◌is◌ trim_space
All-read = (refl, tt)

read_scopes_only_read_example : Reads (codes "GET") site
read_scopes_only_read_example = read_scopes_only_read scopes (codes "GET") site All-read allowed

parsed : parse_id (codes "/sites/42") (codes "/sites/") ≡ some (pos 42)
unfolding parse_id dorian_back_end.Text.has_prefix dorian_back_end.Text.strip
    dorian_back_end.Api.Params.id_of_raw ◌is◌ dorian_back_end.Text.trim_suffix contains parse_int
parsed = refl

parse_id_sound_example :
    (n : ℕ) × (raw : Text) × (pos 42 ≡ pos n)
    × (0 < n)
    × (n ≤ max_int64)
    × (parse_int raw ≡ some (pos 42))
    × (contains raw b'/' ≡ false)
    × ((codes "/sites/42" ≡ codes "/sites/" ++ raw)
        ⊎ (codes "/sites/42" ≡ codes "/sites/" ++ (raw ++ slash)))
parse_id_sound_example = parse_id_sound (codes "/sites/42") (codes "/sites/") parsed
