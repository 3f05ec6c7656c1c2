-- ===== src/Api/Audit/Worded/Edges.antt =====
-- The wording of entries on edges and on the blocked list.
use dorian_back_end.Prelude.{refl, List, [], ◌∷◌, ◌++◌, positive, either_branch}
use dorian_back_end.Text.{Text, codes, ◌is◌}
use dorian_back_end.Api.Audit.{
  Mutation, post, put, patch, delete, AuditClassification, recorded, with_body, adds, join_segments,
  batch_delete,
}
use dorian_back_end.Api.Audit.Edges.{
  entry_id, classify_blacklist_audit, edge, in_category, l4_list, classify_edge_l4_audit, waf_entry,
  after_first, is_probe, below_edge, itself, created_one, deleted_many, with_id,
  classify_edge_audit,
}
use dorian_back_end.Api.Audit.Worded.{
  IsWorded, Begun, said, silent, described, IsWorded-sub_resource,
}

pub IsWorded-blacklist :
    (m : Mutation) (rest : List Text) → IsWorded (classify_blacklist_audit m rest)
unfolding classify_blacklist_audit ◌is◌
IsWorded-blacklist post rest = said _ (refl, refl, refl) refl refl
IsWorded-blacklist put rest = said _ (refl, refl, refl) refl refl
IsWorded-blacklist patch rest = said _ (refl, refl, refl) refl refl
IsWorded-blacklist delete rest =
    either_branch IsWorded (positive (entry_id rest)) (said _ (refl, refl, refl) refl refl)
      (said _ (refl, refl, refl) refl refl)

module _ (c : AuditClassification) (b : Begun c) (m : Mutation) where
  IsWorded-l4_list : (list : Text) (rest : List Text) → IsWorded (l4_list c m list rest)
  unfolding ◌is◌
  IsWorded-l4_list list [] = IsWorded-sub_resource c m [] (list ++ codes " entry") edge b
  IsWorded-l4_list list (s ∷ []) =
      either_branch IsWorded (s is codes "clear") (said _ b refl refl)
        (IsWorded-sub_resource c m (s ∷ []) (list ++ codes " entry") edge b)
  IsWorded-l4_list list (s ∷ t ∷ rest) =
      either_branch IsWorded (s is codes "clear") (said _ b refl refl) (
        either_branch IsWorded (s is codes "remove") (said _ b refl refl)
          (IsWorded-sub_resource c m (s ∷ t ∷ rest) (list ++ codes " entry") edge b))

  -- An edge, a site or a rule set itself.
  pub IsWorded-itself : (name : Text) → IsWorded (itself c m name)
  unfolding ◌is◌
  IsWorded-itself name = by_method m
    where
      by_method : (n : Mutation) → IsWorded (itself c n name)
      by_method post = silent
      by_method put = said _ b refl refl
      by_method patch = said _ b refl refl
      by_method delete = said _ b refl refl

  pub IsWorded-created : (name : Text) → IsWorded (created_one c m name)
  unfolding ◌is◌
  IsWorded-created name = either_branch IsWorded (adds m) (said _ b refl refl) silent

module _ (c : AuditClassification) (b : Begun c) (m : Mutation) where
  IsWorded-l4 : (rest : List Text) → IsWorded (classify_edge_l4_audit c m rest)
  unfolding classify_edge_l4_audit ◌is◌
  IsWorded-l4 [] = said _ b refl refl
  IsWorded-l4 (s ∷ rest) = either_branch IsWorded (s is codes "options") (said _ b refl refl) (
      either_branch IsWorded (s is codes "whitelist")
        (IsWorded-l4_list (with_body c) b m (codes "L4 allowlist") rest)
        (either_branch IsWorded (s is codes "blacklist")
          (IsWorded-l4_list (with_body c) b m (codes "L4 blocklist") rest)
          (IsWorded-sub_resource (with_body c) m rest (codes "L4 " ++ s) edge b)))

module _ (c : AuditClassification) (b : Begun c) (m : Mutation) where
  IsWorded-below_edge : (part : Text) (rest : List Text) → IsWorded (below_edge c m part rest)
  unfolding below_edge ◌is◌
  IsWorded-below_edge part rest = either_branch IsWorded (is_probe part) silent (
      either_branch IsWorded (part is codes "users") (said _ b refl refl) (
        either_branch IsWorded (part is codes "service-control") (described _ b refl refl) (
          either_branch IsWorded (part is codes "host-power") (described _ b refl refl) (
            either_branch IsWorded (part is codes "upgrade") (said _ b refl refl) (
              either_branch IsWorded (part is codes "upgrade-license") (described _ b refl refl) (
                either_branch IsWorded (part is codes "listening-ports")
                  (IsWorded-sub_resource (in_category c (codes "listening_port")) m rest
                    (codes "listening port") edge (b.0, refl, b.2))
                  (either_branch IsWorded (part is codes "l4")
                    (IsWorded-l4 (in_category c (codes "l4")) (b.0, refl, b.2) m rest)
                    (either_branch IsWorded (part is codes "waf")
                      (IsWorded-sub_resource (in_category c (codes "waf")) m (after_first rest)
                        (waf_entry rest) edge (b.0, refl, b.2))
                      (IsWorded-sub_resource c m rest (join_segments (part ∷ rest)) edge b)))))))))

pub IsWorded-deleted_many :
    (c : AuditClassification) (names : Text) → Begun c → IsWorded (deleted_many c names)
unfolding ◌is◌
IsWorded-deleted_many c names b = said _ b refl refl

pub IsWorded-edge : (m : Mutation) (segs : List Text) → IsWorded (classify_edge_audit m segs)
unfolding classify_edge_audit ◌is◌
IsWorded-edge m [] =
    IsWorded-created (recorded (codes "edge") (codes "edge")) (refl, refl, refl) m (codes "edge")
IsWorded-edge m (id ∷ []) =
    let base = recorded (codes "edge") (codes "edge") in
    either_branch IsWorded (id is batch_delete)
      (IsWorded-deleted_many base (codes "edges") (refl, refl, refl))
      (IsWorded-itself (with_id base id) (refl, refl, refl) m (codes "edge"))
IsWorded-edge m (id ∷ part ∷ rest) =
    let base = recorded (codes "edge") (codes "edge") in
    either_branch IsWorded (id is batch_delete)
      (IsWorded-deleted_many base (codes "edges") (refl, refl, refl))
      (IsWorded-below_edge (with_id base id) (refl, refl, refl) m part rest)
