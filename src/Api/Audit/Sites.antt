-- ===== src/Api/Audit/Sites.antt =====
-- internal/api/audit_classify.go: sites and rule sets of the firewall.
use dorian_back_end.Prelude.{List, [], ◌∷◌, ◌++◌, if◌then◌else◌}
use dorian_back_end.Text.{Text, codes, ◌is◌}
use dorian_back_end.Api.Audit.{
  Mutation, AuditClassification, recorded, doing, with_body, join_segments, audit_waf_section_label,
  batch_delete, apply_sub_resource_audit,
}
use dorian_back_end.Api.Audit.Edges.{
  in_category, after_first, itself, created_one, deleted_many, with_id,
}

abbrev pub site : Text
site = codes "site {target}"

abbrev pub done_with_body : AuditClassification → Text → Text → AuditClassification
done_with_body base action summary = with_body (doing base action summary)

abbrev pub cache_part : AuditClassification → Mutation → List Text → AuditClassification
cache_part c m [] = apply_sub_resource_audit c m [] (codes "cache rule") site
cache_part c m (s ∷ rest) =
    if s is codes "clear-cache"
    then done_with_body c (codes "operate") (codes "Purge all cached content for site {target}")
    else if s is codes "clear-url-cache"
    then done_with_body c (codes "operate") (codes "Purge cached URLs for site {target}")
    else apply_sub_resource_audit c m (s ∷ rest) (codes "cache rule") site

abbrev pub certificate_update : AuditClassification → AuditClassification
certificate_update c =
    done_with_body c (codes "update") (codes "Update SSL certificate for site {target}")

abbrev pub certificate_part : AuditClassification → List Text → AuditClassification
certificate_part c [] = certificate_update c
certificate_part c (s ∷ rest) =
    if s is codes "renew"
    then done_with_body c (codes "operate") (codes "Request certificate renewal for site {target}")
    else certificate_update c

abbrev pub site_waf_part : AuditClassification → Mutation → List Text → AuditClassification
site_waf_part c m [] =
    record (done_with_body c (codes "update") (codes "Change the WAF rule set of site {target}")) {
      diff_fields = codes "wafId" ∷ [];
    }
site_waf_part c m (s ∷ rest) =
    if s is codes "fork"
    then done_with_body c (codes "fork") (codes "Fork the WAF rule set of site {target}")
    else apply_sub_resource_audit c m rest (audit_waf_section_label s ++ codes " entry") site

unfoldable pub below_site : AuditClassification → Mutation → Text → List Text → AuditClassification
below_site base m part rest =
    if part is codes "upstream-servers"
    then apply_sub_resource_audit (in_category base (codes "origin")) m rest (codes "origin server")
        site
    else if part is codes "cache-rules"
    then cache_part (in_category base (codes "cache")) m rest
    else if part is codes "compress"
    then done_with_body (in_category base (codes "compress")) (codes "update")
        (codes "Update compression settings for site {target}")
    else if part is codes "ports"
    then done_with_body (in_category base (codes "ports")) (codes "update")
        (codes "Update edge ports for site {target}")
    else if part is codes "certificate"
    then certificate_part (in_category base (codes "certificate")) rest
    else if part is codes "waf"
    then site_waf_part (in_category base (codes "waf")) m rest
    else apply_sub_resource_audit base m rest (join_segments (part ∷ rest)) site

-- `segs` are those after `sites`.
unfoldable pub classify_site_audit : Mutation → List Text → AuditClassification
classify_site_audit m [] = created_one (recorded (codes "site") (codes "site")) m (codes "site")
classify_site_audit m (id ∷ []) =
    let base = recorded (codes "site") (codes "site") in
    if id is batch_delete
    then deleted_many base (codes "sites")
    else itself (with_id base id) m (codes "site")
classify_site_audit m (id ∷ part ∷ rest) =
    let base = recorded (codes "site") (codes "site") in
    if id is batch_delete
    then deleted_many base (codes "sites")
    else below_site (with_id base id) m part rest

abbrev pub rule_set : Text
rule_set = codes "WAF rule set {target}"

abbrev pub rule_entry : List Text → Text
rule_entry [] = codes "rule entry"
rule_entry (s ∷ rest) = audit_waf_section_label s ++ codes " entry"

unfoldable pub below_rule_set :
    AuditClassification → Mutation → Text → List Text → AuditClassification
below_rule_set base m part rest =
    if part is codes "duplicate"
    then done_with_body base (codes "duplicate") (codes "Duplicate WAF rule set {target}")
    else if part is codes "waf"
    then apply_sub_resource_audit (in_category base (codes "waf")) m (after_first rest)
        (rule_entry rest) rule_set
    else apply_sub_resource_audit base m rest (join_segments (part ∷ rest)) rule_set

-- `segs` are those after `waf-rules`.
unfoldable pub classify_waf_rule_audit : Mutation → List Text → AuditClassification
classify_waf_rule_audit m [] =
    created_one (recorded (codes "waf_rule") (codes "waf_rule")) m (codes "WAF rule set")
classify_waf_rule_audit m (id ∷ []) =
    let base = recorded (codes "waf_rule") (codes "waf_rule") in
    if id is batch_delete
    then deleted_many base (codes "WAF rule sets")
    else itself (with_id base id) m (codes "WAF rule set")
classify_waf_rule_audit m (id ∷ part ∷ rest) =
    let base = recorded (codes "waf_rule") (codes "waf_rule") in
    if id is batch_delete
    then deleted_many base (codes "WAF rule sets")
    else below_rule_set (with_id base id) m part rest
