-- ===== src/Api/AuthMiddleware/Roles.antt =====
-- The guards on the user's role.
use dorian_back_end.Prelude.{
  ◌≡◌, ◌≢◌, ◌↔◌, ◌⊎◌, true, Option, none, some, arith, ℤ, positive, eq_ℤ_iff,
}
use dorian_back_end.Text.{codes, is_iff}
use dorian_back_end.Api.AuthMiddleware.{
  AuthPrincipal, Request, admit, is_admin, is_id, user_in_path, require_admin_or_self_user,
}

is_id_iff : (id : ℤ) (parsed : Option ℤ) → (is_id id parsed ≡ true) ↔ (parsed ≡ some id)
is_id_iff id none = ground arith
is_id_iff id (some n) = ground (arith, eq_ℤ_iff n id)

-- `requireAdminOrSelfUser` passes a request exactly for a signed-in administrator, or for a user on the
-- path of the own record with another method than DELETE.
pub require_admin_or_self_user_iff :
    (r : Request) (p : AuthPrincipal)
    → (require_admin_or_self_user r (some p) ≡ admit (some p)) ↔ (
        (positive p.user_id ≡ true)
        × ((is_admin p ≡ true)
            ⊎ ((user_in_path r.path ≡ some p.user_id) × (r.method ≢ codes "DELETE"))))
unfolding require_admin_or_self_user
require_admin_or_self_user_iff r p =
    ground (arith, is_id_iff p.user_id (user_in_path r.path), is_iff r.method (codes "DELETE"))
