-- ===== src/Store/TrafficScope.antt =====
-- internal/store/traffic_scope.go: conditions that narrow an analytics query to edges and a site. A query
-- under construction is its text and the arguments of its placeholders.
pub mod Placeholders
use dorian_back_end.Prelude.{
  ◌≡◌, Bool, true, false, not, ◌&&◌, List, [], ◌∷◌, ◌++◌, map, if◌then◌else◌, ℤ, positive,
}
use dorian_back_end.Text.{Text, codes, ◌is◌}

pub record TrafficScope : Type 0 where
  pub server_id : ℤ
  pub server_ids : List ℤ
  pub site_id : ℤ
  pub domain : Text
  pub restricted : Bool

abbrev pub Query : Type 0
Query = Text × List ℤ

-- `strings.Join(list, ",")`.
unfoldable pub join : List Text → Text
join [] = []
join (s ∷ []) = s
join (s ∷ t ∷ ts) = s ++ (b',' ∷ join (t ∷ ts))

-- The loop: one placeholder and one argument for each id.
abbrev pub placeholders : List ℤ → List Text
placeholders ids = map (λ id. codes "?") ids

-- `fmt.Sprintf(" AND %s IN (%s)", column, …)`.
unfoldable pub and_in : Text → List ℤ → Text
and_in column ids =
    codes " AND " ++ (column ++ (codes " IN (" ++ (join (placeholders ids) ++ codes ")")))

abbrev pub and_false : Text
and_false = codes " AND 1 = 0"

abbrev pub column_of : Text → Text
column_of table_alias =
    if table_alias is [] then codes "server_id" else table_alias ++ codes ".server_id"

abbrev pub in_list : Query → Text → List ℤ → Bool → Query
in_list (query, args) column [] restricted =
    if restricted then (query ++ and_false, args) else (query, args)
in_list (query, args) column (id ∷ ids) restricted =
    (query ++ and_in column (id ∷ ids), args ++ (id ∷ ids))

unfoldable pub append_server_scope_prefixed : Query → TrafficScope → Text → Query
append_server_scope_prefixed (query, args) scope table_alias =
    let column = column_of table_alias in
    if positive scope.server_id
    then (query ++ (codes " AND " ++ (column ++ codes " = ?")), args ++ (scope.server_id ∷ []))
    else in_list (query, args) column scope.server_ids scope.restricted

unfoldable pub append_server_scope : Query → TrafficScope → Query
append_server_scope q scope = append_server_scope_prefixed q scope []

unfoldable pub append_id_allow_list : Query → Text → List ℤ → Query
append_id_allow_list q column ids = in_list q column ids true

abbrev pub with_site : ℤ → Query → Query
with_site id (query, args) = (query ++ codes " AND site_id = ?", args ++ (id ∷ []))

unfoldable pub append_traffic_scope : Query → TrafficScope → Bool → Query
append_traffic_scope q scope include_site =
    let narrowed = append_server_scope q scope in
    if include_site && positive scope.site_id then with_site scope.site_id narrowed else narrowed

unfoldable pub l7_stats_table : TrafficScope → Text
l7_stats_table scope =
    if positive scope.site_id then codes "site_traffic_stats" else codes "server_traffic_stats"

unfoldable pub uses_site_traffic : TrafficScope → Bool
uses_site_traffic scope = positive scope.site_id
