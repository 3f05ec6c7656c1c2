-- ===== src/Examples/Views.antt =====
-- A viewer of two edges, a caller behind a proxy, and a query about some edges.
use dorian_back_end.Prelude.{
  ◌≡◌, refl, Bool, true, false, Option, none, some, List, [], ◌∷◌, ◌++◌, ℕ, ℤ, pos, All,
}
use dorian_back_end.Text.{Text, codes, ◌is◌, trim_space}
use dorian_back_end.Action.{Result, ok}
use dorian_back_end.Api.AuthMiddleware.{AuthPrincipal, jwt}
use dorian_back_end.Api.ViewerScope.{Site, new_viewer_scope, filter_sites}
use dorian_back_end.Api.ViewerScope.Filtering.{IsNarrowed, filter_sites-IsNarrowed}
use dorian_back_end.Api.ClientIp.{client_ip_from_request}
use dorian_back_end.Api.ClientIp.Forwarded.{appended_ip}
use dorian_back_end.Store.TrafficScope.{TrafficScope, Query, append_traffic_scope}
use dorian_back_end.Store.TrafficScope.Placeholders.{IsBalanced, append_traffic_scope-IsBalanced}

abbrev edges : List ℤ
edges = pos 3 ∷ pos 0 ∷ pos 4 ∷ pos 3 ∷ []

abbrev shop : Site (Unit {0})
shop = record { server_ids = pos 3 ∷ pos 9 ∷ []; servers = codes "a" ∷ codes "b" ∷ []; rest = tt }

abbrev hidden : Site (Unit {0})
hidden = record { server_ids = pos 9 ∷ []; servers = codes "b" ∷ []; rest = tt }

viewer_limited : (new_viewer_scope edges).restricted ≡ true
unfolding new_viewer_scope
viewer_limited = refl

filter_sites-IsNarrowed_example :
    All
      (IsNarrowed (new_viewer_scope edges))
      (filter_sites (new_viewer_scope edges) (shop ∷ hidden ∷ []))
filter_sites-IsNarrowed_example =
    filter_sites-IsNarrowed (new_viewer_scope edges) (shop ∷ hidden ∷ []) viewer_limited

abbrev boss : AuthPrincipal
boss = record {
  user_id = pos 1;
  email = codes "boss@example.org";
  name = codes "Boss";
  role = codes "admin";
  auth_kind = jwt;
  token_id = pos 0;
  session_id = codes "b";
  mfa_enabled = true;
}

abbrev find_by_id : ℤ → ℕ → Result (List ℤ) × ℕ
find_by_id id s = (ok edges, s)

abbrev host_of : Text → Option Text
host_of addr = none

abbrev ip_of : Text → Option Bool
ip_of s = some (s is codes "127.0.0.1")

appended_ip_example :
    client_ip_from_request host_of ip_of (record {
      remote_addr = codes "127.0.0.1";
      x_real_ip = [];
      x_forwarded_for = codes "1.1.1.1" ++ (b',' ∷ codes " 9.9.9.9");
    })
    ≡ trim_space (codes " 9.9.9.9")
unfolding dorian_back_end.Api.ClientIp.is_trusted_proxy ◌is◌
    dorian_back_end.Api.ClientIp.remote_host trim_space dorian_back_end.Text.contains
appended_ip_example =
    appended_ip host_of ip_of (codes "127.0.0.1") (codes "1.1.1.1") (codes " 9.9.9.9") false refl
      refl refl refl

abbrev scope : TrafficScope
scope = record {
  server_id = pos 0;
  server_ids = pos 3 ∷ pos 4 ∷ [];
  site_id = pos 2;
  domain = [];
  restricted = true;
}

abbrev query : Query
query = (codes "SELECT 1 WHERE t >= ?", pos 7 ∷ [])

append_traffic_scope-IsBalanced_example : IsBalanced (append_traffic_scope query scope true)
unfolding dorian_back_end.Store.TrafficScope.Placeholders.marks
append_traffic_scope-IsBalanced_example = append_traffic_scope-IsBalanced query scope true refl
