-- ===== src/Api/Audit/Edges.antt =====
-- internal/api/audit_classify.go: edges, their parts and the blocked list. `rest` are the segments that a
-- function has not read yet.
use dorian_back_end.Prelude.{
  Bool, true, ◌||◌, Option, none, some, List, [], ◌∷◌, ◌++◌, if◌then◌else◌, ℤ, pos, positive,
}
use dorian_back_end.Text.{Text, codes, ◌is◌, to_lower, equal_fold}
use dorian_back_end.Api.Audit.{
  Mutation, post, put, patch, delete, AuditClassification, Body, unrecorded, recorded, doing,
  with_body, adds, audit_body_string, parse_audit_id, join_segments, label_of,
  audit_waf_section_label, batch_delete, apply_sub_resource_audit,
}

abbrev pub entry_id : List Text → ℤ
entry_id [] = pos 0
entry_id (s ∷ rest) = parse_audit_id s

abbrev pub blacklist_by : AuditClassification → Mutation → AuditClassification
blacklist_by c post = doing c (codes "create") (codes "Add entry to blocked list")
blacklist_by c put = doing c (codes "update") (codes "Update blocked list entry {target}")
blacklist_by c patch = doing c (codes "update") (codes "Update blocked list entry {target}")
blacklist_by c delete =
    if positive c.resource_id
    then doing c (codes "delete") (codes "Remove blocked list entry {target}")
    else doing c (codes "batch_delete") (codes "Remove blocked list entries")

-- `rest` are the segments after `servers/blacklist`; without one the id is 0.
unfoldable pub classify_blacklist_audit : Mutation → List Text → AuditClassification
classify_blacklist_audit m rest =
    blacklist_by
      (record (with_body (recorded (codes "blacklist") (codes "blacklist"))) {
        resource_id = entry_id rest;
      })
      m

abbrev pub edge : Text
edge = codes "edge {target}"

abbrev pub in_category : AuditClassification → Text → AuditClassification
in_category base category = record base { category = category }

-- The two lists of an edge's L4 protection.
abbrev pub l4_list : AuditClassification → Mutation → Text → List Text → AuditClassification
l4_list c m list [] = apply_sub_resource_audit c m [] (list ++ codes " entry") edge
l4_list c m list (s ∷ []) =
    if s is codes "clear"
    then doing c (codes "delete") (codes "Clear the " ++ list ++ codes " on edge {target}")
    else apply_sub_resource_audit c m (s ∷ []) (list ++ codes " entry") edge
l4_list c m list (s ∷ t ∷ rest) =
    if s is codes "clear"
    then doing c (codes "delete") (codes "Clear the " ++ list ++ codes " on edge {target}")
    else if s is codes "remove"
    then doing c (codes "delete")
        (codes "Remove " ++ t ++ codes " from the " ++ list ++ codes " on edge {target}")
    else apply_sub_resource_audit c m (s ∷ t ∷ rest) (list ++ codes " entry") edge

abbrev pub l4_part : AuditClassification → Mutation → Text → List Text → AuditClassification
l4_part c m s rest =
    if s is codes "options"
    then doing c (codes "update") (codes "Update L4 options on edge {target}")
    else if s is codes "whitelist"
    then l4_list c m (codes "L4 allowlist") rest
    else if s is codes "blacklist"
    then l4_list c m (codes "L4 blocklist") rest
    else apply_sub_resource_audit c m rest (codes "L4 " ++ s) edge

unfoldable pub classify_edge_l4_audit :
    AuditClassification → Mutation → List Text → AuditClassification
classify_edge_l4_audit base m [] =
    doing (with_body base) (codes "update")
      (codes "Update L4 DDoS protection settings on edge {target}")
classify_edge_l4_audit base m (s ∷ rest) = l4_part (with_body base) m s rest

abbrev pub service_labels : List (Text × Text)
service_labels =
    (codes "angelos", codes "Angelos agent")
    ∷ (codes "sparta", codes "Sparta (L4)")
    ∷ (codes "athens", codes "Athens (L7)")
    ∷ []

abbrev pub or_text : Option Text → Text → Text
or_text none value = value
or_text (some label) value = label

abbrev pub or_a : Text → Text
or_a value = if value is [] then codes "a" else value

abbrev pub describe_service : Body → Text
describe_service body =
    let verb =
      if equal_fold (audit_body_string body (codes "action")) (codes "stop")
      then codes "Stop"
      else codes "Start" in
    let service = audit_body_string body (codes "service") in
    let labelled = or_text (label_of (to_lower service) service_labels) service in
    verb ++ codes " " ++ or_a labelled ++ codes " service on edge {target}"

abbrev pub describe_power : Body → Text
describe_power body =
    if equal_fold (audit_body_string body (codes "action")) (codes "poweroff")
    then codes "Power off the host of edge {target}"
    else codes "Reboot the host of edge {target}"

abbrev pub describe_licence : Body → Text
describe_licence body =
    let tier = audit_body_string body (codes "licenseType") in
    if tier is []
    then codes "Change license of edge {target}"
    else codes "Change license of edge {target} to " ++ tier

abbrev pub waf_entry : List Text → Text
waf_entry [] = codes "WAF settings entry"
waf_entry (s ∷ rest) = audit_waf_section_label s ++ codes " entry"

abbrev pub after_first : List Text → List Text
after_first [] = []
after_first (s ∷ rest) = rest

abbrev pub is_probe : Text → Bool
is_probe part =
    (part is codes "refresh-runtime-status")
    || (part is codes "host-metrics")
    || (part is codes "access-log")

-- A request below an edge, at `part`.
unfoldable pub below_edge : AuditClassification → Mutation → Text → List Text → AuditClassification
below_edge base m part rest =
    if is_probe part
    then unrecorded
    else if part is codes "users"
    then record (doing base (codes "assign") (codes "Change management users of edge {target}")) {
      diff_fields = codes "managedUserIds" ∷ [];
    }
    else if part is codes "service-control"
    then record base { action = codes "operate"; describe = some describe_service }
    else if part is codes "host-power"
    then record base { action = codes "operate"; describe = some describe_power }
    else if part is codes "upgrade"
    then record (doing base (codes "upgrade") (codes "Upgrade Angelos on edge {target}")) {
      diff_fields = codes "version" ∷ [];
    }
    else if part is codes "upgrade-license"
    then record (with_body base) {
      action = codes "upgrade";
      diff_fields = codes "license" ∷ codes "expiredDate" ∷ [];
      describe = some describe_licence;
    }
    else if part is codes "listening-ports"
    then apply_sub_resource_audit (in_category base (codes "listening_port")) m rest
        (codes "listening port") edge
    else if part is codes "l4"
    then classify_edge_l4_audit (in_category base (codes "l4")) m rest
    else if part is codes "waf"
    then apply_sub_resource_audit (in_category base (codes "waf")) m (after_first rest)
        (waf_entry rest) edge
    else apply_sub_resource_audit base m rest (join_segments (part ∷ rest)) edge

-- A change of the thing itself: an edge, a site or a rule set, by its name in summaries.
abbrev pub itself : AuditClassification → Mutation → Text → AuditClassification
itself base post name = unrecorded
itself base delete name = doing base (codes "delete") (codes "Delete " ++ name ++ codes " {target}")
itself base change name =
    record (doing base (codes "update") (codes "Update " ++ name ++ codes " {target}")) {
      diff = true;
    }

-- A POST on the collection, and the path that deletes many.
abbrev pub created_one : AuditClassification → Mutation → Text → AuditClassification
created_one base m name =
    if adds m
    then with_body (doing base (codes "create") (codes "Create " ++ name ++ codes " {target}"))
    else unrecorded

abbrev pub deleted_many : AuditClassification → Text → AuditClassification
deleted_many base names =
    with_body (doing base (codes "batch_delete") (codes "Delete " ++ names ++ codes " (batch)"))

abbrev pub with_id : AuditClassification → Text → AuditClassification
with_id base id = record base { resource_id = parse_audit_id id }

-- `segs` are those after `servers`.
unfoldable pub classify_edge_audit : Mutation → List Text → AuditClassification
classify_edge_audit m [] = created_one (recorded (codes "edge") (codes "edge")) m (codes "edge")
classify_edge_audit m (id ∷ []) =
    let base = recorded (codes "edge") (codes "edge") in
    if id is batch_delete
    then deleted_many base (codes "edges")
    else itself (with_id base id) m (codes "edge")
classify_edge_audit m (id ∷ part ∷ rest) =
    let base = recorded (codes "edge") (codes "edge") in
    if id is batch_delete
    then deleted_many base (codes "edges")
    else below_edge (with_id base id) m part rest
