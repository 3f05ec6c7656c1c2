-- ===== src/Api/ViewerScope/Filtering.antt =====
-- The edges and sites that a viewer sees.
use dorian_back_end.Prelude.{
  ◌≡◌, refl, ◌⊎◌, ◌≢◌, inl, inr, Bool, true, false, not, ◌&&◌, ◌||◌, some, List, [], ◌∷◌, ◌++◌,
  length, any, keep, All, arith, if◌then◌else◌, ℤ, positive, eq_ℤ_iff, Bool-cases,
}
use dorian_back_end.Text.{Text}
use dorian_back_end.Action.{
  Result, ok, err, not_found, failed, invalid, expired, no_schema, too_long, unavailable,
}
use dorian_back_end.Api.AuthMiddleware.{AuthPrincipal, is_admin}
use dorian_back_end.Api.ViewerScope.{
  ViewerScope, Site, has_id, collect_ids, new_viewer_scope, allowed, can_see_server, can_see_site,
  names_of_kept, aligned, narrowed, visible_sites, filter_sites, proceed, UserServers, of_user,
  with_viewer_scope,
}

has_id-append : (id : ℤ) (xs ys : List ℤ) → has_id id (xs ++ ys) ≡ (has_id id xs || has_id id ys)
unfolding has_id
has_id-append id [] ys = refl
has_id-append id (x ∷ xs) ys = ground (arith, has_id-append id xs ys)

has_id-collect_ids :
    (id : ℤ) (ids out : List ℤ)
    → has_id id (collect_ids ids out) ≡ (has_id id out || (positive id && has_id id ids))
unfolding collect_ids has_id
has_id-collect_ids id [] out = ground arith
has_id-collect_ids id (x ∷ ids) out = ground (
  arith,
  has_id-collect_ids id ids out,
  has_id-collect_ids id ids (out ++ (x ∷ [])),
  has_id-append id out (x ∷ []),
  eq_ℤ_iff x id,
)

-- The scope of a user lets through exactly the positive ids among the assigned edges.
pub new_viewer_scope_lem :
    (id : ℤ) (ids : List ℤ)
    → can_see_server (new_viewer_scope ids) id ≡ (positive id && has_id id ids)
unfolding can_see_server new_viewer_scope has_id
new_viewer_scope_lem id ids = has_id-collect_ids id ids []

All-keep : (p : ℤ → Bool) (xs : List ℤ) → All (λ x. p x ≡ true) (keep p xs)
All-keep p [] = tt
All-keep p (x ∷ xs) = elim (Bool-cases (p x)) [
  | inl e ↦ rw (e, All) (e, All-keep p xs)
  | inr e ↦ rw (e, All) (All-keep p xs)
]

keep-any : (p : ℤ → Bool) (xs : List ℤ) → any p xs ≡ true → keep p xs ≢ []
keep-any p [] h e = ground arith
keep-any p (x ∷ xs) h e = ground (arith, keep-any p xs)

length-names_of_kept :
    (v : ViewerScope) (ids : List ℤ) (names : List Text)
    → length names ≡ length ids
    → length (names_of_kept v ids names) ≡ length (keep (allowed v) ids)
unfolding names_of_kept
length-names_of_kept v [] names h = refl
length-names_of_kept v (id ∷ ids) [] h = absurd (omega (arith, h))
length-names_of_kept v (id ∷ ids) (name ∷ names) h =
    ground (arith, length-names_of_kept v ids names)

on_true :
    {A : Type 0} (good bad : A) (Q : A → Type 0) (b : Bool)
    → b ≡ true
    → Q good
    → Q (if b then good else bad)
on_true good bad Q true h holds = holds
on_true good bad Q false h holds = absurd (ground arith)

module _ {R : Type 0} (v : ViewerScope) where
  -- A site as a limited viewer gets it: edges of theirs, one at least.
  pub record IsNarrowed (site : Site R) : Type 0 where
    pub edges_allowed : All (λ id. allowed v id ≡ true) site.server_ids
    pub some_edge : site.server_ids ≢ []

  IsNarrowed-narrowed :
      (site : Site R) → any (allowed v) site.server_ids ≡ true → IsNarrowed (narrowed v site)
  unfolding narrowed
  IsNarrowed-narrowed site h = record {
    edges_allowed = All-keep (allowed v) site.server_ids;
    some_edge = keep-any (allowed v) site.server_ids h;
  }

  visible_sites-IsNarrowed :
      (list : List (Site R)) → v.restricted ≡ true → All IsNarrowed (visible_sites v list)
  unfolding visible_sites can_see_site
  visible_sites-IsNarrowed [] limited = tt
  visible_sites-IsNarrowed (site ∷ list) limited =
      let rest = visible_sites-IsNarrowed list limited in
      elim (Bool-cases (can_see_site v site)) [
        | inl e ↦ rw e (IsNarrowed-narrowed site (ground (arith, limited)), rest)
        | inr e ↦ rw e rest
      ]

  -- `filterSites` for a limited viewer gives sites with at least one edge, all of them edges of the
  -- viewer.
  pub filter_sites-IsNarrowed :
      (list : List (Site R)) → v.restricted ≡ true → All IsNarrowed (filter_sites v list)
  unfolding filter_sites
  filter_sites-IsNarrowed list limited =
      on_true _ _ (All IsNarrowed) v.restricted limited (visible_sites-IsNarrowed list limited)

-- `filterSites` keeps names and edges of a site aligned.
pub aligned-narrowed :
    {R : Type 0} (v : ViewerScope) (site : Site R)
    → aligned site ≡ true
    → aligned (narrowed v site) ≡ true
unfolding narrowed
aligned-narrowed v site h = ground (arith, length-names_of_kept v site.server_ids site.servers)

of_user_restricted :
    {S : Type 0} (answer : Result (List ℤ) × S) (t : S) (v : ViewerScope)
    → of_user answer ≡ (proceed v, t)
    → v.restricted ≡ true
unfolding new_viewer_scope
of_user_restricted (ok ids, s) t v h = ground arith
of_user_restricted (err not_found, s) t v h = absurd (ground arith)
of_user_restricted (err failed, s) t v h = absurd (ground arith)
of_user_restricted (err invalid, s) t v h = absurd (ground arith)
of_user_restricted (err expired, s) t v h = absurd (ground arith)
of_user_restricted (err no_schema, s) t v h = absurd (ground arith)
of_user_restricted (err too_long, s) t v h = absurd (ground arith)
of_user_restricted (err unavailable, s) t v h = absurd (ground arith)

-- Of requests with a principal, only that of an administrator, or of a principal without a positive
-- id, goes on unrestricted.
unrestricted_only_admin :
    {S : Type 0} (find_by_id : UserServers S) (p : AuthPrincipal) (s t : S) (v : ViewerScope)
    → with_viewer_scope find_by_id (some p) s ≡ (proceed v, t)
    → v.restricted ≡ false
    → (positive p.user_id ≡ false) ⊎ (is_admin p ≡ true)
unfolding with_viewer_scope
unrestricted_only_admin find_by_id p s t v h wide =
    elim (Bool-cases (not (positive p.user_id) || is_admin p)) [
      | inl e ↦ ground arith
      | inr e ↦
          let narrow = of_user_restricted (find_by_id p.user_id s) t v (rw e at h) in
          absurd (ground arith)
    ]
