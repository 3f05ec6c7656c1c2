-- ===== src/Store/TrafficScope/Placeholders.antt =====
-- The placeholders and the arguments of a narrowed query.
use dorian_back_end.Prelude.{
  ℕ, ◌+◌, ◌≡◌, refl, Bool, true, false, ◌&&◌, List, [], ◌∷◌, ◌++◌, length, length-append, arith,
  if◌then◌else◌, ◌==◌, ℤ, positive, Bool-cases, inl, inr,
}
use dorian_back_end.Text.{Text, codes, ◌is◌}
use dorian_back_end.Store.TrafficScope.{
  TrafficScope, Query, join, placeholders, and_in, and_false, in_list, append_server_scope_prefixed,
  append_server_scope, append_traffic_scope, with_site,
}

-- The number of placeholders in a query.
unfoldable pub marks : Text → ℕ
marks [] = 0
marks (c ∷ s) = (if c == b'?' then 1 else 0) + marks s

marks-append : (s t : Text) → marks (s ++ t) ≡ marks s + marks t
unfolding marks
marks-append [] t = omega arith
marks-append (c ∷ s) t = omega (arith, marks-append s t)

marks-join : (ids : List ℤ) → marks (join (placeholders ids)) ≡ length ids
unfolding join marks
marks-join [] = refl
marks-join (a ∷ []) = refl
marks-join (a ∷ b ∷ ids) = omega (arith, marks-join (b ∷ ids))

marks-and_in :
    (column : Text) (ids : List ℤ) → marks (and_in column ids) ≡ marks column + length ids
unfolding and_in marks
marks-and_in column ids =
    rw
      (
        marks-append column (codes " IN (" ++ (join (placeholders ids) ++ codes ")")),
        marks-append (join (placeholders ids)) (codes ")"),
      )
      (omega (arith, marks-join ids))

-- As many placeholders as arguments.
abbrev pub IsBalanced : Query → Type 0
IsBalanced (query, args) = marks query ≡ length args

in_list-IsBalanced :
    (q : Query) (column : Text) (ids : List ℤ) (restricted : Bool)
    → marks column ≡ 0
    → IsBalanced q
    → IsBalanced (in_list q column ids restricted)
unfolding marks
in_list-IsBalanced (query, args) column [] true plain h =
    omega (arith, marks-append query and_false, h)
in_list-IsBalanced (query, args) column [] false plain h = h
in_list-IsBalanced (query, args) column (id ∷ ids) restricted plain h = omega (
  arith,
  marks-append query (and_in column (id ∷ ids)),
  marks-and_in column (id ∷ ids),
  length-append args (id ∷ ids),
  h,
  plain,
)

with_site-IsBalanced : (id : ℤ) (q : Query) → IsBalanced q → IsBalanced (with_site id q)
unfolding marks
with_site-IsBalanced id (query, args) h =
    omega (arith, marks-append query (codes " AND site_id = ?"), length-append args (id ∷ []), h)

append_server_scope-IsBalanced :
    (q : Query) (scope : TrafficScope) → IsBalanced q → IsBalanced (append_server_scope q scope)
unfolding append_server_scope append_server_scope_prefixed ◌is◌ marks
append_server_scope-IsBalanced (query, args) scope h =
    elim (Bool-cases (positive scope.server_id)) [
      | inl e ↦ rw e (
          omega (
            arith,
            marks-append query (codes " AND server_id = ?"),
            length-append args (scope.server_id ∷ []),
            h,
          ))
      | inr e ↦ rw e (
          in_list-IsBalanced (query, args) (codes "server_id") scope.server_ids scope.restricted
            refl h)
    ]

-- A query with as many placeholders as arguments keeps that under `appendTrafficScope`.
pub append_traffic_scope-IsBalanced :
    (q : Query) (scope : TrafficScope) (include_site : Bool)
    → IsBalanced q
    → IsBalanced (append_traffic_scope q scope include_site)
unfolding append_traffic_scope
append_traffic_scope-IsBalanced q scope include_site h =
    elim (Bool-cases (include_site && positive scope.site_id)) [
      | inl e ↦ rw e (
          with_site-IsBalanced scope.site_id (append_server_scope q scope)
            (append_server_scope-IsBalanced q scope h))
      | inr e ↦ rw e (append_server_scope-IsBalanced q scope h)
    ]
