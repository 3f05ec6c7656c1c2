-- ===== src/Api/Audit/Classify.antt =====
-- internal/api/audit_classify.go: `classifyAuditRequest` and the functions it calls for a part of the API.
pub mod Complete
pub mod Probes
use dorian_back_end.Prelude.{
  Bool, true, false, Option, none, some, List, [], ◌∷◌, ◌++◌, if◌then◌else◌,
}
use dorian_back_end.Text.{Text, codes, ◌is◌, trim_space, to_lower, to_upper, split2}
use dorian_back_end.Api.Audit.{
  Mutation, post, put, patch, delete, AuditClassification, unrecorded, audit_segments, label_of,
}
use dorian_back_end.Api.Audit.Accounts.{
  classify_user_audit, classify_auth_audit, classify_settings_audit,
}
use dorian_back_end.Api.Audit.Edges.{classify_blacklist_audit, classify_edge_audit}
use dorian_back_end.Api.Audit.Sites.{classify_site_audit, classify_waf_rule_audit}

unfoldable pub mutation_of : Text → Option Mutation
mutation_of method =
    if method is codes "POST"
    then some post
    else if method is codes "PUT"
    then some put
    else if method is codes "PATCH"
    then some patch
    else if method is codes "DELETE"
    then some delete
    else none

abbrev pub server_path : Mutation → List Text → AuditClassification
server_path m [] = classify_edge_audit m []
server_path m (s ∷ rest) =
    if s is codes "blacklist"
    then classify_blacklist_audit m rest
    else classify_edge_audit m (s ∷ rest)

-- By the first segment; a split has one at least.
unfoldable pub classify_segments : Mutation → List Text → AuditClassification
classify_segments m [] = unrecorded
classify_segments m (area ∷ segs) =
    if area is codes "users"
    then classify_user_audit m segs
    else if area is codes "auth"
    then classify_auth_audit m segs
    else if area is codes "servers"
    then server_path m segs
    else if area is codes "sites"
    then classify_site_audit m segs
    else if area is codes "waf-rules"
    then classify_waf_rule_audit m segs
    else if area is codes "settings"
    then classify_settings_audit m segs
    else unrecorded

abbrev pub by_mutation : Option Mutation → List Text → AuditClassification
by_mutation none segs = unrecorded
by_mutation (some m) segs = classify_segments m segs

unfoldable pub classify_audit_request : Text → Text → AuditClassification
classify_audit_request method path =
    by_mutation (mutation_of (to_upper (trim_space method))) (audit_segments path)
