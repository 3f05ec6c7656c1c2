-- ===== src/Api/TokenScopes/Laws.antt =====
-- What an API token may do: `apiTokenAllows` against a declarative reading of its scopes.
use mathlib.Core.List.{cons-ne-nil}
use dorian_back_end.Prelude.{
  ◌≡◌, refl, ◌≢◌, ◌↔◌, inl, inr, true, false, List, [], ◌∷◌, ◌++◌, map, arith, All, Bool-cases,
  &&-eq-true, ||-eq-true,
}
use dorian_back_end.Text.{Text, codes, ◌is◌, is_iff, member, trim_space}
use dorian_back_end.Api.TokenScopes.{
  has_scope, api_area_for_path, is_read_method, is_analytics_export_path, is_read_request,
  api_token_allows,
}
use dorian_back_end.Api.TokenScopes.Areas.{
  Area, account, analytics, waf, edges, sites, api_area_for_path-Area,
}

abbrev Has : List Text → Text → Type 0
Has scopes scope = has_scope scopes scope ≡ true

-- A request that only reads: GET, HEAD, or the export of retained logs, which has a body.
pub data Reads (method path : Text) : Type 0 where
  get : method ≡ codes "GET" → Reads method path
  head : method ≡ codes "HEAD" → Reads method path
  export : method ≡ codes "POST" → is_analytics_export_path path ≡ true → Reads method path

-- The rules by which scopes permit a request on a path that an area guards.
pub data Permits (scopes : List Text) (method path : Text) : Type 0 where
  full : Has scopes (codes "*") → Permits scopes method path
  write :
      api_area_for_path path ≢ []
      → Has scopes (api_area_for_path path ++ codes ":write")
      → Permits scopes method path
  read_all :
      api_area_for_path path ≢ []
      → Reads method path
      → Has scopes (codes "read")
      → Permits scopes method path
  read_area :
      api_area_for_path path ≢ []
      → Reads method path
      → Has scopes (api_area_for_path path ++ codes ":read")
      → Permits scopes method path

is_nil_iff : (s : Text) → ((s is []) ≡ false) ↔ (s ≢ [])
unfolding ◌is◌
is_nil_iff [] = (λ h. cc, λ h. absurd (h refl))
is_nil_iff (c ∷ s) = (λ h. cons-ne-nil c s, λ h. refl)

Reads-of_test : (method path : Text) → is_read_request method path ≡ true → Reads method path
unfolding is_read_request is_read_method
Reads-of_test method path h = elim (||-eq-true h) [
  | inl plain ↦ elim (||-eq-true plain) [
    | inl e ↦ get ((is_iff _ _).0 e)
    | inr e ↦ head ((is_iff _ _).0 e)
  ]
  | inr posted ↦ let (e, target) = &&-eq-true posted in export ((is_iff _ _).0 e) target
]

test_of_Reads : {method path : Text} → Reads method path → is_read_request method path ≡ true
unfolding is_read_request is_read_method
test_of_Reads {method} {path} (get e) = ground (arith, is_iff method (codes "GET"))
test_of_Reads {method} {path} (head e) = ground (arith, is_iff method (codes "HEAD"))
test_of_Reads {method} {path} (export e target) = ground (arith, is_iff method (codes "POST"))

Permits-of_test :
    (scopes : List Text) (method path : Text)
    → api_token_allows scopes method path ≡ true
    → Permits scopes method path
unfolding api_token_allows
Permits-of_test scopes method path h =
    let area = api_area_for_path path in
    elim (Bool-cases (has_scope scopes (codes "*"))) [
      | inl all ↦ full all
      | inr not_all ↦
          let guarded : area ≢ [] = (is_nil_iff area).0 (ground arith) in
          elim (Bool-cases (has_scope scopes (area ++ codes ":write"))) [
            | inl w ↦ write guarded w
            | inr not_write ↦
                let reads = Reads-of_test method path (ground arith) in
                elim (Bool-cases (has_scope scopes (codes "read"))) [
                  | inl r ↦ read_all guarded reads r
                  | inr not_read ↦ read_area guarded reads (ground arith)
                ]
          ]
    ]

test_of_Permits :
    {scopes : List Text} {method path : Text}
    → Permits scopes method path
    → api_token_allows scopes method path ≡ true
unfolding api_token_allows
test_of_Permits (full all) = rw all
test_of_Permits {path = path} (write guarded w) =
    ground (arith, (is_nil_iff (api_area_for_path path)).1 guarded)
test_of_Permits {path = path} (read_all guarded reads r) =
    ground (arith, (is_nil_iff (api_area_for_path path)).1 guarded, test_of_Reads reads)
test_of_Permits {path = path} (read_area guarded reads r) =
    ground (arith, (is_nil_iff (api_area_for_path path)).1 guarded, test_of_Reads reads)

-- `apiTokenAllows` answers true exactly where the scopes permit the request by one of the four rules:
-- full access; write access to the area that guards the path; or, for a request that only reads, read
-- access to everything or to that area. An account-level path, which no area guards, needs full access.
pub api_token_allows_iff :
    (scopes : List Text) (method path : Text)
    → (api_token_allows scopes method path ≡ true) ↔ Permits scopes method path
api_token_allows_iff scopes method path = (Permits-of_test scopes method path, test_of_Permits)

-- A token that may do anything on a path may read there: every method that is permitted implies GET.
pub write_implies_read :
    (scopes : List Text) (method path : Text)
    → api_token_allows scopes method path ≡ true
    → api_token_allows scopes (codes "GET") path ≡ true
write_implies_read scopes method path h = test_of_Permits (weaken (Permits-of_test _ _ _ h))
  where
    weaken : Permits scopes method path → Permits scopes (codes "GET") path
    weaken (full all) = full all
    weaken (write guarded w) = write guarded w
    weaken (read_all guarded reads r) = read_all guarded (get refl) r
    weaken (read_area guarded reads r) = read_area guarded (get refl) r

abbrev pub read_scopes : List Text
read_scopes =
    codes "read"
    ∷ codes "analytics:read"
    ∷ codes "edges:read"
    ∷ codes "sites:read"
    ∷ codes "waf:read"
    ∷ []

-- A text that is in a list has what all of the list have.
member-All : (P : Text → Type 0) (s : Text) (ts : List Text) → member s ts ≡ true → All P ts → P s
unfolding member
member-All P s [] h all = absurd (ground arith)
member-All P s (t ∷ ts) h (p, ps) = elim (||-eq-true h) [
  | inl e ↦ rw ((is_iff s t).0 e) p
  | inr m ↦ member-All P s ts m ps
]

abbrev IsReadScope : Text → Type 0
IsReadScope s = member s read_scopes ≡ true

not_write_scope : {a : Text} → Area a → member (a ++ codes ":write") read_scopes ≡ false
unfolding member ◌is◌
not_write_scope (account a e) = rw e
not_write_scope (analytics a e) = rw e
not_write_scope (waf a e) = rw e
not_write_scope (edges a e) = rw e
not_write_scope (sites a e) = rw e

star_not_read : member (codes "*") read_scopes ≡ false
unfolding member ◌is◌
star_not_read = refl

-- A token whose scopes, trimmed, are all read scopes of the catalogue permits nothing but requests
-- that only read.
pub read_scopes_only_read :
    (scopes : List Text) (method path : Text)
    → All (λ s. member s read_scopes ≡ true) (map trim_space scopes)
    → api_token_allows scopes method path ≡ true
    → Reads method path
read_scopes_only_read scopes method path readers h = reads_of (Permits-of_test _ _ _ h)
  where
    held : (s : Text) → Has scopes s → IsReadScope s
    held s has = member-All IsReadScope s (map trim_space scopes) (unfold has_scope in has) readers

    reads_of : Permits scopes method path → Reads method path
    reads_of (full all) = absurd (cc (held (codes "*") all, star_not_read))
    reads_of (write guarded w) =
        absurd (cc (held _ w, not_write_scope (api_area_for_path-Area path)))
    reads_of (read_all guarded reads r) = reads
    reads_of (read_area guarded reads r) = reads
