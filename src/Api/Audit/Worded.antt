-- ===== src/Api/Audit/Worded.antt =====
-- The action, the category and the kind of resource of an entry.
pub mod Accounts
pub mod Edges
pub mod Sites
use dorian_back_end.Prelude.{
  ◌≡◌, refl, ap, sym, Bool, true, false, not, ◌&&◌, ◌||◌, Option, none, some, List, [], ◌∷◌, ◌++◌,
  if◌then◌else◌, arith, ℤ, positive, either_branch, Bool-cases, Option-cases, inl, inr,
}
use dorian_back_end.Text.{Text, codes, ◌is◌, is_iff, trim_space, to_upper}
use dorian_back_end.Api.Audit.{
  Mutation, post, put, patch, delete, AuditClassification, unrecorded, recorded, doing, with_body,
  adds, removes, parse_audit_id, join_segments, audit_waf_section_label, audit_segments,
  batch_delete, is_batch, sub_resource_by, apply_sub_resource_audit,
}
use dorian_back_end.Api.Audit.Accounts.{
  auth_of, user_post, below_user, classify_user_audit, mfa_change, session_change, token_base,
  classify_auth_audit, classify_settings_audit,
}
use dorian_back_end.Api.Audit.Edges.{
  entry_id, blacklist_by, classify_blacklist_audit, edge, in_category, l4_list, l4_part,
  classify_edge_l4_audit, waf_entry, after_first, is_probe, below_edge, itself, created_one,
  deleted_many, with_id, classify_edge_audit,
}
use dorian_back_end.Api.Audit.Sites.{
  site, cache_part, certificate_part, site_waf_part, below_site, classify_site_audit, rule_set,
  rule_entry, below_rule_set, classify_waf_rule_audit,
}

abbrev pub is_there : {A : Type 0} → Option A → Bool
is_there none = false
is_there (some a) = true

-- An entry names an action, a category and a kind of resource, and has a wording.
abbrev pub is_worded : AuditClassification → Bool
is_worded c =
    not (c.action is [])
    && not (c.category is [])
    && not (c.resource_type is [])
    && (not (c.summary is []) || is_there c.describe)

pub record IsWorded (c : AuditClassification) : Type 0 where
  pub holds : (not c.should_log || is_worded c) ≡ true

-- A start of an entry that only lacks its action and its wording.
abbrev pub Begun : AuditClassification → Type 0
Begun c = (c.should_log ≡ true) × ((c.category is []) ≡ false) × ((c.resource_type is []) ≡ false)

pub said :
    (c : AuditClassification)
    → Begun c
    → (c.action is []) ≡ false
    → (c.summary is []) ≡ false
    → IsWorded c
said c (logs, named, typed) acts words = record {
  holds = ground (arith, logs, named, typed, acts, words);
}

pub silent : IsWorded unrecorded
silent = record { holds = refl }

IsWorded-sub_resource_by :
    (c : AuditClassification) (m : Mutation) (rest : List Text) (item parent : Text)
    → Begun c
    → IsWorded (sub_resource_by c m rest item parent)
unfolding ◌is◌
IsWorded-sub_resource_by c post [] item parent b = said _ b refl refl
IsWorded-sub_resource_by c put [] item parent b = said _ b refl refl
IsWorded-sub_resource_by c patch [] item parent b = said _ b refl refl
IsWorded-sub_resource_by c delete [] item parent b = said _ b refl refl
IsWorded-sub_resource_by c post (s ∷ rest) item parent b = said _ b refl refl
IsWorded-sub_resource_by c put (s ∷ rest) item parent b = said _ b refl refl
IsWorded-sub_resource_by c patch (s ∷ rest) item parent b = said _ b refl refl
IsWorded-sub_resource_by c delete (s ∷ rest) item parent b = said _ b refl refl

pub IsWorded-sub_resource :
    (c : AuditClassification) (m : Mutation) (rest : List Text) (item parent : Text)
    → Begun c
    → IsWorded (apply_sub_resource_audit c m rest item parent)
unfolding apply_sub_resource_audit ◌is◌
IsWorded-sub_resource c m rest item parent b =
    either_branch IsWorded (is_batch rest) (said _ b refl refl)
      (IsWorded-sub_resource_by (with_body c) m rest item parent b)

pub described :
    (e : AuditClassification)
    → Begun e
    → (e.action is []) ≡ false
    → is_there e.describe ≡ true
    → IsWorded e
described e (logs, named, typed) acts tells = record {
  holds = ground (arith, logs, named, typed, acts, tells);
}
