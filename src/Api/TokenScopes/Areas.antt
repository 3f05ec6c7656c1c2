-- ===== src/Api/TokenScopes/Areas.antt =====
-- The areas that `apiAreaForPath` can return.
use dorian_back_end.Prelude.{◌≡◌, refl, true, [], ◌++◌, either_branch, ◌≢◌}
use dorian_back_end.Text.{Text, codes}
use dorian_back_end.Api.TokenScopes.{area_of_route, api_area_for_path, is_known_scope}

-- No other text is returned.
pub data Area : Text → Type 0 where
  account : (a : Text) → a ≡ [] → Area a
  analytics : (a : Text) → a ≡ codes "analytics" → Area a
  waf : (a : Text) → a ≡ codes "waf" → Area a
  edges : (a : Text) → a ≡ codes "edges" → Area a
  sites : (a : Text) → a ≡ codes "sites" → Area a

area_of_route-Area : (p : Text) → Area (area_of_route p)
unfolding area_of_route
area_of_route-Area p = either_branch Area _ (analytics _ refl) (
    either_branch Area _ (waf _ refl) (
      either_branch Area _ (edges _ refl)
        (either_branch Area _ (sites _ refl) (either_branch Area _ (waf _ refl) (account _ refl)))))

-- An area that guards a request has a read scope that the catalogue lists.
pub catalog-Area : {a : Text} → Area a → a ≢ [] → is_known_scope (a ++ codes ":read") ≡ true
unfolding is_known_scope
catalog-Area (account a e) h = absurd (h e)
catalog-Area (analytics a e) h = rw e
catalog-Area (waf a e) h = rw e
catalog-Area (edges a e) h = rw e
catalog-Area (sites a e) h = rw e

pub api_area_for_path-Area : (path : Text) → Area (api_area_for_path path)
unfolding api_area_for_path
api_area_for_path-Area path = area_of_route-Area _
