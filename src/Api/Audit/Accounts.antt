-- ===== src/Api/Audit/Accounts.antt =====
-- internal/api/audit_classify.go: users, sign-in and settings.
use dorian_back_end.Prelude.{true, ◌&&◌, some, List, [], ◌∷◌, if◌then◌else◌}
use dorian_back_end.Text.{Text, codes, ◌is◌}
use dorian_back_end.Store.PanelSettings.{everyone, admins}
use dorian_back_end.Api.Audit.{
  Mutation, post, put, patch, delete, AuditClassification, Body, unrecorded, recorded, doing,
  with_body, adds, removes, audit_body_string, parse_audit_id, join_segments, batch_delete,
}

abbrev pub auth_of : AuditClassification → AuditClassification
auth_of base = record base { category = codes "auth" }

-- A POST below a user.
abbrev pub user_post : AuditClassification → Text → AuditClassification
user_post base what =
    if what is codes "invite"
    then doing base (codes "invite") (codes "Send invite link to user {target}")
    else if what is codes "password-reset"
    then doing (auth_of base) (codes "reset_link")
        (codes "Create password reset link for user {target}")
    else if what is codes "sessions/revoke"
    then doing (auth_of base) (codes "session_revoke") (codes "Sign out user {target} everywhere")
    else unrecorded

abbrev pub below_user : AuditClassification → Mutation → List Text → AuditClassification
below_user base put [] = record (doing base (codes "update") (codes "Update user {target}")) {
  diff = true;
}
below_user base patch [] = record (doing base (codes "update") (codes "Update user {target}")) {
  diff = true;
}
below_user base delete [] = doing base (codes "delete") (codes "Delete user {target}")
below_user base post [] = unrecorded
below_user base delete (s ∷ []) =
    if s is codes "mfa"
    then doing (auth_of base) (codes "mfa_reset")
        (codes "Reset two-factor authentication for user {target}")
    else unrecorded
below_user base post (s ∷ rest) = user_post base (join_segments (s ∷ rest))
below_user base m (s ∷ rest) = unrecorded

-- `segs` are those after `users`.
unfoldable pub classify_user_audit : Mutation → List Text → AuditClassification
classify_user_audit m [] =
    if adds m
    then with_body (
        doing (recorded (codes "user") (codes "user")) (codes "create")
          (codes "Create user {target}"))
    else unrecorded
classify_user_audit m (id ∷ rest) =
    if id is batch_delete
    then with_body (
        doing (recorded (codes "user") (codes "user")) (codes "batch_delete")
          (codes "Delete users (batch)"))
    else below_user
        (record (recorded (codes "user") (codes "user")) { resource_id = parse_audit_id id }) m rest

abbrev pub own_change : Text → Text → AuditClassification
own_change action summary = record (doing (recorded (codes "auth") (codes "user")) action summary) {
  self_target = true;
}

abbrev pub mfa_change : Text → AuditClassification
mfa_change what =
    if what is codes "enable"
    then own_change (codes "mfa_enable") (codes "Enable two-factor authentication")
    else if what is codes "disable"
    then own_change (codes "mfa_disable") (codes "Disable two-factor authentication")
    else if what is codes "recovery-codes"
    then own_change (codes "recovery_codes") (codes "Regenerate two-factor recovery codes")
    else unrecorded

abbrev pub session_change : Mutation → Text → AuditClassification
session_change m what =
    if (what is codes "revoke-others") && adds m
    then own_change (codes "session_revoke") (codes "Sign out of all other sessions")
    else if removes m
    then own_change (codes "session_revoke") (codes "Sign out a session")
    else unrecorded

abbrev pub token_base : AuditClassification
token_base = recorded (codes "api_token") (codes "api_token")

-- `segs` are those after `auth`.
unfoldable pub classify_auth_audit : Mutation → List Text → AuditClassification
classify_auth_audit m [] = unrecorded
classify_auth_audit m (area ∷ []) =
    if (area is codes "api-tokens") && adds m
    then with_body (doing token_base (codes "token_create") (codes "Create API token {target}"))
    else unrecorded
classify_auth_audit m (area ∷ what ∷ []) =
    if area is codes "mfa"
    then if adds m then mfa_change what else unrecorded
    else if area is codes "sessions"
    then session_change m what
    else if (area is codes "api-tokens") && removes m
    then doing (record token_base { resource_id = parse_audit_id what }) (codes "token_revoke")
        (codes "Revoke API token {target}")
    else unrecorded
classify_auth_audit m (area ∷ what ∷ more ∷ rest) = unrecorded

abbrev pub describe_policy : Body → Text
describe_policy body =
    let policy = audit_body_string body (codes "requireMfa") in
    if policy is everyone
    then codes "Require two-factor authentication for everyone"
    else if policy is admins
    then codes "Require two-factor authentication for Admins"
    else codes "Stop requiring two-factor authentication"

-- `segs` are those after `settings`.
unfoldable pub classify_settings_audit : Mutation → List Text → AuditClassification
classify_settings_audit put (s ∷ []) =
    if s is codes "security"
    then with_body (record (recorded (codes "auth") (codes "settings")) {
      action = codes "settings_update";
      describe = some describe_policy;
    })
    else unrecorded
classify_settings_audit m segs = unrecorded
