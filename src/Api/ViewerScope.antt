-- ===== src/Api/ViewerScope.antt =====
-- internal/api/viewer_scope.go: a user who is no administrator sees the edges assigned to them and the
-- sites on those edges.
pub mod Filtering
use dorian_back_end.Prelude.{
  ℕ, ◌≡◌, Bool, true, false, not, ◌&&◌, ◌||◌, Option, none, some, List, [], ◌∷◌, ◌++◌, length, ◌==◌,
  any, keep, if◌then◌else◌, ℤ, pos, positive, eq_ℤ,
}
use dorian_back_end.Text.{Text, codes, equal_fold}
use dorian_back_end.Action.{Action, Result, Error, ok, err, not_found}
use dorian_back_end.Api.AuthMiddleware.{AuthPrincipal, Verdict, refuse, is_admin}

-- The map `allowed` holds the ids of `server_ids`.
pub record ViewerScope : Type 0 where
  pub restricted : Bool
  pub server_ids : List ℤ

-- The fields of `store.Site` that the scope reads and writes; `rest` stands for the others.
pub record Site (R : Type 0) : Type 0 where
  pub server_ids : List ℤ
  pub servers : List Text
  pub rest : R

pub record ServerView (R : Type 0) : Type 0 where
  pub id : ℤ
  pub rest : R

unfoldable pub has_id : ℤ → List ℤ → Bool
has_id id [] = false
has_id id (x ∷ xs) = eq_ℤ x id || has_id id xs

-- The loop of `newViewerScope`.
unfoldable pub collect_ids : List ℤ → List ℤ → List ℤ
unfolding has_id
collect_ids [] out = out
collect_ids (id ∷ rest) out =
    collect_ids rest (if positive id && not (has_id id out) then out ++ (id ∷ []) else out)

unfoldable pub new_viewer_scope : List ℤ → ViewerScope
new_viewer_scope ids = record { restricted = true; server_ids = collect_ids ids [] }

-- The zero value, which the context holds where no scope was set.
abbrev pub unrestricted : ViewerScope
unrestricted = record { restricted = false; server_ids = [] }

-- `v.allowed[id]`.
abbrev pub allowed : ViewerScope → ℤ → Bool
allowed v id = has_id id v.server_ids

unfoldable pub can_see_server : ViewerScope → ℤ → Bool
can_see_server v id = not v.restricted || allowed v id

unfoldable pub visible_server_ids : ViewerScope → List ℤ → List ℤ
visible_server_ids v ids = if v.restricted then keep (allowed v) ids else ids

-- The names of the ids that are kept, by index.
unfoldable pub names_of_kept : ViewerScope → List ℤ → List Text → List Text
names_of_kept v [] names = []
names_of_kept v (id ∷ ids) [] = []
names_of_kept v (id ∷ ids) (name ∷ names) =
    let rest = names_of_kept v ids names in if allowed v id then name ∷ rest else rest

module _ {R : Type 0} where
  unfoldable pub can_see_site : ViewerScope → Site R → Bool
  can_see_site v site = not v.restricted || any (allowed v) site.server_ids

  unfoldable pub filter_servers : ViewerScope → List (ServerView R) → List (ServerView R)
  filter_servers v list = if v.restricted then keep (λ server. allowed v server.id) list else list

  -- `aligned` in `filterSites`.
  abbrev pub aligned : Site R → Bool
  aligned site = length site.servers == length site.server_ids

  -- What is left of a site that the viewer can see.
  unfoldable pub narrowed : ViewerScope → Site R → Site R
  narrowed v site = record site {
    server_ids = keep (allowed v) site.server_ids;
    servers = if aligned site then names_of_kept v site.server_ids site.servers else site.servers;
  }

  -- The loop of `filterSites`.
  unfoldable pub visible_sites : ViewerScope → List (Site R) → List (Site R)
  visible_sites v [] = []
  visible_sites v (site ∷ rest) =
      let out = visible_sites v rest in if can_see_site v site then narrowed v site ∷ out else out

  unfoldable pub filter_sites : ViewerScope → List (Site R) → List (Site R)
  filter_sites v list = if v.restricted then visible_sites v list else list

-- What `withViewerScope` passes on: a scope, or a refusal.
pub data Scoped : Type 0 where
  proceed : ViewerScope → Scoped
  stop : Verdict → Scoped

-- `users.FindByID`, less the columns that are not read.
abbrev pub UserServers : Type 0 → Type 0
UserServers S = ℤ → Action S (List ℤ)

abbrev pub of_user : {S : Type 0} → Result (List ℤ) × S → Scoped × S
of_user (ok server_ids, s) = (proceed (new_viewer_scope server_ids), s)
of_user (err not_found, s) = (stop (refuse 401 (codes "Unauthorized")), s)
of_user (err e, s) = (stop (refuse 500 (codes "Internal Server Error")), s)

unfoldable pub with_viewer_scope :
    {S : Type 0} → UserServers S → Option AuthPrincipal → S → Scoped × S
with_viewer_scope find_by_id none s = (proceed unrestricted, s)
with_viewer_scope find_by_id (some principal) s =
    if not (positive principal.user_id) || is_admin principal
    then (proceed unrestricted, s)
    else of_user (find_by_id principal.user_id s)

-- `id` is what `leadingPathID` reads from the path, 0 where it reads none.
unfoldable pub restrict_server_detail : ViewerScope → ℤ → Option Verdict
restrict_server_detail v id =
    if v.restricted && positive id && not (can_see_server v id)
    then some (refuse 404 (codes "Not Found"))
    else none

module _ {R S : Type 0} where
  abbrev pub site_verdict : ViewerScope → Result (Site R) × S → Option Verdict × S
  site_verdict v (ok site, s) =
      (if can_see_site v site then none else some (refuse 404 (codes "Not Found")), s)
  site_verdict v (err not_found, s) = (some (refuse 404 (codes "Not Found")), s)
  site_verdict v (err e, s) = (some (refuse 500 (codes "Internal Server Error")), s)

  unfoldable pub restrict_site_detail :
      (ℤ → Action S (Site R)) → ViewerScope → ℤ → S → Option Verdict × S
  restrict_site_detail get v id s =
      if v.restricted && positive id then site_verdict v (get id s) else (none, s)
