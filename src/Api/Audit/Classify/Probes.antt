-- ===== src/Api/Audit/Classify/Probes.antt =====
-- Which requests below `/servers` leave no entry.
use dorian_back_end.Prelude.{
  ◌≡◌, refl, ◌∙◌, Bool, true, false, not, ◌&&◌, ◌||◌, List, [], ◌∷◌, ◌++◌, arith, positive,
  either_branch, Bool-cases, inl, inr,
}
use dorian_back_end.Text.{Text, codes, ◌is◌, member}
use dorian_back_end.Api.Audit.{
  Mutation, post, put, patch, delete, AuditClassification, recorded, with_body, adds, join_segments,
  is_batch, sub_resource_by, apply_sub_resource_audit,
}
use dorian_back_end.Api.Audit.Edges.{
  entry_id, classify_blacklist_audit, edge, in_category, l4_list, classify_edge_l4_audit, waf_entry,
  after_first, is_probe, below_edge, itself, with_id, classify_edge_audit,
}
use dorian_back_end.Api.Audit.Classify.{server_path, classify_segments}

abbrev pub is_post : Mutation → Bool
is_post post = true
is_post put = false
is_post patch = false
is_post delete = false

-- What only asks an edge for its state or its log.
abbrev pub questions : List Text
questions = codes "refresh-runtime-status" ∷ codes "host-metrics" ∷ codes "access-log" ∷ []

-- The blocked list and the deletion of many stand where an id stands.
abbrev pub is_reserved : Text → Bool
is_reserved id = (id is codes "blacklist") || (id is codes "batch-delete")

-- A request that creates nothing, changes nothing, or only asks an edge how it is.
abbrev pub is_silent : Mutation → List Text → Bool
is_silent m [] = not (is_post m)
is_silent m (id ∷ []) = not (is_reserved id) && is_post m
is_silent m (id ∷ part ∷ rest) = not (is_reserved id) && member part questions

is_post-adds : (m : Mutation) → adds m ≡ is_post m
is_post-adds post = refl
is_post-adds put = refl
is_post-adds patch = refl
is_post-adds delete = refl

member-is_probe : (part : Text) → is_probe part ≡ member part questions
unfolding member
member-is_probe part = ground arith

abbrev Logs : AuditClassification → Type 0
Logs c = c.should_log ≡ true

sub_resource_by-Logs :
    (c : AuditClassification) (m : Mutation) (rest : List Text) (item parent : Text)
    → Logs c
    → Logs (sub_resource_by c m rest item parent)
sub_resource_by-Logs c post rest item parent h = h
sub_resource_by-Logs c delete rest item parent h = h
sub_resource_by-Logs c put [] item parent h = h
sub_resource_by-Logs c patch [] item parent h = h
sub_resource_by-Logs c put (s ∷ rest) item parent h = h
sub_resource_by-Logs c patch (s ∷ rest) item parent h = h

sub_resource-Logs :
    (c : AuditClassification) (m : Mutation) (rest : List Text) (item parent : Text)
    → Logs c
    → Logs (apply_sub_resource_audit c m rest item parent)
unfolding apply_sub_resource_audit
sub_resource-Logs c m rest item parent h =
    either_branch Logs (is_batch rest) h (sub_resource_by-Logs (with_body c) m rest item parent h)

l4_list-Logs :
    (c : AuditClassification) (m : Mutation) (list : Text) (rest : List Text)
    → Logs c
    → Logs (l4_list c m list rest)
l4_list-Logs c m list [] h = sub_resource-Logs c m [] (list ++ codes " entry") edge h
l4_list-Logs c m list (s ∷ []) h =
    either_branch Logs (s is codes "clear") h
      (sub_resource-Logs c m (s ∷ []) (list ++ codes " entry") edge h)
l4_list-Logs c m list (s ∷ t ∷ rest) h = either_branch Logs (s is codes "clear") h (
    either_branch Logs (s is codes "remove") h
      (sub_resource-Logs c m (s ∷ t ∷ rest) (list ++ codes " entry") edge h))

l4-Logs :
    (c : AuditClassification) (m : Mutation) (rest : List Text)
    → Logs c
    → Logs (classify_edge_l4_audit c m rest)
unfolding classify_edge_l4_audit
l4-Logs c m [] h = h
l4-Logs c m (s ∷ rest) h = either_branch Logs (s is codes "options") h (
    either_branch Logs (s is codes "whitelist")
      (l4_list-Logs (with_body c) m (codes "L4 allowlist") rest h)
      (either_branch Logs (s is codes "blacklist")
        (l4_list-Logs (with_body c) m (codes "L4 blocklist") rest h)
        (sub_resource-Logs (with_body c) m rest (codes "L4 " ++ s) edge h)))

below_edge-Logs :
    (c : AuditClassification) (m : Mutation) (part : Text) (rest : List Text)
    → Logs c
    → is_probe part ≡ false
    → Logs (below_edge c m part rest)
unfolding below_edge
below_edge-Logs c m part rest h other =
    rw (below_edge, other)
      (either_branch Logs (part is codes "users") h (
        either_branch Logs (part is codes "service-control") h (
          either_branch Logs (part is codes "host-power") h (
            either_branch Logs (part is codes "upgrade") h (
              either_branch Logs (part is codes "upgrade-license") h (
                either_branch Logs (part is codes "listening-ports")
                  (sub_resource-Logs (in_category c (codes "listening_port")) m rest
                    (codes "listening port") edge h)
                  (either_branch Logs (part is codes "l4")
                    (l4-Logs (in_category c (codes "l4")) m rest h)
                    (either_branch Logs (part is codes "waf")
                      (sub_resource-Logs (in_category c (codes "waf")) m (after_first rest)
                        (waf_entry rest) edge h)
                      (sub_resource-Logs c m rest (join_segments (part ∷ rest)) edge h)))))))))

below_edge_probes :
    (c : AuditClassification) (m : Mutation) (part : Text) (rest : List Text)
    → Logs c
    → (below_edge c m part rest).should_log ≡ not (is_probe part)
unfolding below_edge
below_edge_probes c m part rest h = elim (Bool-cases (is_probe part)) [
  | inl e ↦ rw (below_edge, e) refl
  | inr e ↦ below_edge-Logs c m part rest h e ∙ rw e refl
]

blacklist-Logs : (m : Mutation) (rest : List Text) → Logs (classify_blacklist_audit m rest)
unfolding classify_blacklist_audit
blacklist-Logs post rest = refl
blacklist-Logs put rest = refl
blacklist-Logs patch rest = refl
blacklist-Logs delete rest = either_branch Logs (positive (entry_id rest)) refl refl

edge_itself-Logs :
    (c : AuditClassification) (m : Mutation)
    → Logs c
    → (itself c m (codes "edge")).should_log ≡ not (adds m)
edge_itself-Logs c post h = refl
edge_itself-Logs c put h = h
edge_itself-Logs c patch h = h
edge_itself-Logs c delete h = h

server_path_silent :
    (m : Mutation) (segs : List Text) → (server_path m segs).should_log ≡ not (is_silent m segs)
unfolding classify_edge_audit
server_path_silent post [] = refl
server_path_silent put [] = refl
server_path_silent patch [] = refl
server_path_silent delete [] = refl
server_path_silent m (id ∷ []) = ground (
  arith,
  blacklist-Logs m [],
  edge_itself-Logs (with_id (recorded (codes "edge") (codes "edge")) id) m refl,
  is_post-adds m,
)
server_path_silent m (id ∷ part ∷ rest) = ground (
  arith,
  blacklist-Logs m (part ∷ rest),
  below_edge_probes (with_id (recorded (codes "edge") (codes "edge")) id) m part rest refl,
  member-is_probe part,
)

-- Below `/servers` a POST, PUT, PATCH or DELETE leaves no entry in exactly three cases: a method other than
-- POST on the collection, a POST on an edge itself, and what only asks an edge for its state or its log.
-- The blocked list and the deletion of many are always recorded.
pub servers_unrecorded_iff :
    (m : Mutation) (segs : List Text)
    → (classify_segments m (codes "servers" ∷ segs)).should_log ≡ not (is_silent m segs)
unfolding classify_segments ◌is◌
servers_unrecorded_iff m segs = unfold ◌is◌ in server_path_silent m segs
