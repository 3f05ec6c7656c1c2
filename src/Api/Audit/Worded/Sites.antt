-- ===== src/Api/Audit/Worded/Sites.antt =====
-- The wording of entries on sites and rule sets.
use dorian_back_end.Prelude.{refl, List, [], ◌∷◌, ◌++◌, either_branch}
use dorian_back_end.Text.{Text, codes, ◌is◌}
use dorian_back_end.Api.Audit.{
  Mutation, AuditClassification, recorded, join_segments, audit_waf_section_label, batch_delete,
}
use dorian_back_end.Api.Audit.Edges.{in_category, after_first, with_id}
use dorian_back_end.Api.Audit.Sites.{
  site, cache_part, certificate_part, site_waf_part, below_site, classify_site_audit, rule_set,
  rule_entry, below_rule_set, classify_waf_rule_audit,
}
use dorian_back_end.Api.Audit.Worded.{IsWorded, Begun, said, IsWorded-sub_resource}
use dorian_back_end.Api.Audit.Worded.Edges.{
  IsWorded-itself, IsWorded-created, IsWorded-deleted_many,
}

module _ (c : AuditClassification) (b : Begun c) (m : Mutation) where
  IsWorded-cache : (rest : List Text) → IsWorded (cache_part c m rest)
  unfolding ◌is◌
  IsWorded-cache [] = IsWorded-sub_resource c m [] (codes "cache rule") site b
  IsWorded-cache (s ∷ rest) =
      either_branch IsWorded (s is codes "clear-cache") (said _ b refl refl) (
        either_branch IsWorded (s is codes "clear-url-cache") (said _ b refl refl)
          (IsWorded-sub_resource c m (s ∷ rest) (codes "cache rule") site b))

  IsWorded-certificate : (rest : List Text) → IsWorded (certificate_part c rest)
  unfolding ◌is◌
  IsWorded-certificate [] = said _ b refl refl
  IsWorded-certificate (s ∷ rest) =
      either_branch IsWorded (s is codes "renew") (said _ b refl refl) (said _ b refl refl)

  IsWorded-site_waf : (rest : List Text) → IsWorded (site_waf_part c m rest)
  unfolding ◌is◌
  IsWorded-site_waf [] = said _ b refl refl
  IsWorded-site_waf (s ∷ rest) =
      either_branch IsWorded (s is codes "fork") (said _ b refl refl)
        (IsWorded-sub_resource c m rest (audit_waf_section_label s ++ codes " entry") site b)

module _ (c : AuditClassification) (b : Begun c) (m : Mutation) where
  IsWorded-below_site : (part : Text) (rest : List Text) → IsWorded (below_site c m part rest)
  unfolding below_site ◌is◌
  IsWorded-below_site part rest =
      either_branch IsWorded (part is codes "upstream-servers")
        (IsWorded-sub_resource (in_category c (codes "origin")) m rest (codes "origin server") site
          (b.0, refl, b.2))
        (either_branch IsWorded (part is codes "cache-rules")
          (IsWorded-cache (in_category c (codes "cache")) (b.0, refl, b.2) m rest)
          (either_branch IsWorded (part is codes "compress") (said _ (b.0, refl, b.2) refl refl) (
            either_branch IsWorded (part is codes "ports") (said _ (b.0, refl, b.2) refl refl) (
              either_branch IsWorded (part is codes "certificate")
                (IsWorded-certificate (in_category c (codes "certificate")) (b.0, refl, b.2) m rest)
                (either_branch IsWorded (part is codes "waf")
                  (IsWorded-site_waf (in_category c (codes "waf")) (b.0, refl, b.2) m rest)
                  (IsWorded-sub_resource c m rest (join_segments (part ∷ rest)) site b))))))

  IsWorded-below_rule_set :
      (part : Text) (rest : List Text) → IsWorded (below_rule_set c m part rest)
  unfolding below_rule_set ◌is◌
  IsWorded-below_rule_set part rest =
      either_branch IsWorded (part is codes "duplicate") (said _ b refl refl) (
        either_branch IsWorded (part is codes "waf")
          (IsWorded-sub_resource (in_category c (codes "waf")) m (after_first rest)
            (rule_entry rest) rule_set (b.0, refl, b.2))
          (IsWorded-sub_resource c m rest (join_segments (part ∷ rest)) rule_set b))

pub IsWorded-site : (m : Mutation) (segs : List Text) → IsWorded (classify_site_audit m segs)
unfolding classify_site_audit ◌is◌
IsWorded-site m [] =
    IsWorded-created (recorded (codes "site") (codes "site")) (refl, refl, refl) m (codes "site")
IsWorded-site m (id ∷ []) =
    let base = recorded (codes "site") (codes "site") in
    either_branch IsWorded (id is batch_delete)
      (IsWorded-deleted_many base (codes "sites") (refl, refl, refl))
      (IsWorded-itself (with_id base id) (refl, refl, refl) m (codes "site"))
IsWorded-site m (id ∷ part ∷ rest) =
    let base = recorded (codes "site") (codes "site") in
    either_branch IsWorded (id is batch_delete)
      (IsWorded-deleted_many base (codes "sites") (refl, refl, refl))
      (IsWorded-below_site (with_id base id) (refl, refl, refl) m part rest)

pub IsWorded-waf_rule :
    (m : Mutation) (segs : List Text) → IsWorded (classify_waf_rule_audit m segs)
unfolding classify_waf_rule_audit ◌is◌
IsWorded-waf_rule m [] =
    IsWorded-created (recorded (codes "waf_rule") (codes "waf_rule")) (refl, refl, refl) m
      (codes "WAF rule set")
IsWorded-waf_rule m (id ∷ []) =
    let base = recorded (codes "waf_rule") (codes "waf_rule") in
    either_branch IsWorded (id is batch_delete)
      (IsWorded-deleted_many base (codes "WAF rule sets") (refl, refl, refl))
      (IsWorded-itself (with_id base id) (refl, refl, refl) m (codes "WAF rule set"))
IsWorded-waf_rule m (id ∷ part ∷ rest) =
    let base = recorded (codes "waf_rule") (codes "waf_rule") in
    either_branch IsWorded (id is batch_delete)
      (IsWorded-deleted_many base (codes "WAF rule sets") (refl, refl, refl))
      (IsWorded-below_rule_set (with_id base id) (refl, refl, refl) m part rest)
