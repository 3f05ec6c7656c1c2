-- ===== src/Api/Audit.antt =====
-- internal/api/audit_classify.go: how a request is recorded in the audit trail. `{target}` in a summary is
-- replaced later by the name of what the request is about.
pub mod Accounts
pub mod Edges
pub mod Sites
pub mod Classify
pub mod Worded
use dorian_back_end.Prelude.{
  ◌≡◌, Bool, true, false, not, ◌&&◌, ◌||◌, Option, none, some, List, [], ◌∷◌, ◌++◌, map, ◌==◌,
  if◌then◌else◌, ℤ, pos, negsuc, ltb_ℤ,
}
use dorian_back_end.Text.{
  Text, codes, ◌is◌, trim_space, to_lower, to_upper, has_prefix, trim_prefix, trim_suffix, split,
  split2, parse_int,
}

-- The four methods that are recorded.
pub data Mutation : Type 0 where
  post put patch delete : Mutation

-- The string values of a JSON body.
abbrev pub Body : Type 0
Body = Text → Option Text

pub record AuditClassification : Type 0 where
  pub should_log : Bool
  pub action : Text
  pub category : Text
  pub resource_type : Text
  pub resource_id : ℤ
  pub summary : Text
  pub describe : Option (Body → Text)
  pub diff : Bool
  pub diff_fields : List Text
  pub body_values : Bool
  pub self_target : Bool

-- `auditClassification{}`.
abbrev pub unrecorded : AuditClassification
unrecorded = record {
  should_log = false;
  action = [];
  category = [];
  resource_type = [];
  resource_id = pos 0;
  summary = [];
  describe = none;
  diff = false;
  diff_fields = [];
  body_values = false;
  self_target = false;
}

abbrev pub recorded : Text → Text → AuditClassification
recorded category resource_type = record unrecorded {
  should_log = true;
  category = category;
  resource_type = resource_type;
}

abbrev pub doing : AuditClassification → Text → Text → AuditClassification
doing base action summary = record base { action = action; summary = summary }

abbrev pub with_body : AuditClassification → AuditClassification
with_body base = record base { body_values = true }

abbrev pub adds : Mutation → Bool
adds post = true
adds m = false

abbrev pub removes : Mutation → Bool
removes delete = true
removes m = false

unfoldable pub audit_body_string : Body → Text → Text
audit_body_string body key = elim (body key) [ none ↦ [] | some value ↦ trim_space value ]

unfoldable pub normalize_audit_path : Text → Text
normalize_audit_path path =
    let p = trim_space path in
    trim_suffix (if has_prefix p (codes "/api/v1/") then trim_prefix p (codes "/api/v1") else p)
      (codes "/")

abbrev pub audit_segments : Text → List Text
audit_segments path = split (trim_prefix (normalize_audit_path path) (codes "/")) b'/'

abbrev pub not_negative : Option ℤ → ℤ
not_negative none = pos 0
not_negative (some id) = if ltb_ℤ id (pos 0) then pos 0 else id

unfoldable pub parse_audit_id : Text → ℤ
parse_audit_id raw = not_negative (parse_int (trim_space raw))

abbrev pub collection_id : Text → List Text → ℤ
collection_id collection [] = pos 0
collection_id collection (s ∷ []) = pos 0
collection_id collection (s ∷ id ∷ rest) = if s is collection then parse_audit_id id else pos 0

-- internal/api/viewer_scope.go `leadingPathID`.
unfoldable pub leading_path_id : Text → Text → ℤ
leading_path_id path collection = collection_id collection (audit_segments path)

-- `strings.Join(segs, "/")`.
unfoldable pub join_segments : List Text → Text
join_segments [] = []
join_segments (s ∷ []) = s
join_segments (s ∷ t ∷ rest) = s ++ codes "/" ++ join_segments (t ∷ rest)

abbrev pub waf_section_labels : List (Text × Text)
waf_section_labels =
    (codes "whitelist", codes "IP allowlist")
    ∷ (codes "blacklist", codes "IP blocklist")
    ∷ (codes "geolocation", codes "geo blocking")
    ∷ (codes "anti-cc", codes "anti-CC")
    ∷ (codes "anti-header", codes "header rules")
    ∷ (codes "interval-freq-limit", codes "interval rate limit")
    ∷ (codes "second-freq-limit", codes "per-second rate limit")
    ∷ (codes "response-freq", codes "response rate limit")
    ∷ (codes "user-agent", codes "User-Agent rules")
    ∷ []

unfoldable pub label_of : Text → List (Text × Text) → Option Text
label_of key [] = none
label_of key ((k, label) ∷ labels) = if k is key then some label else label_of key labels

abbrev pub dashes_to_spaces : Text → Text
dashes_to_spaces s = map (λ c. if c == b'-' then b' ' else c) s

unfoldable pub audit_waf_section_label : Text → Text
audit_waf_section_label section = elim (label_of section waf_section_labels) [
  | some label ↦ label
  | none ↦ dashes_to_spaces section
]

abbrev pub batch_delete : Text
batch_delete = codes "batch-delete"

abbrev pub item_ref : Text → List Text → Text
item_ref item [] = item
item_ref item (s ∷ rest) =
    if not (s is []) && not (s is batch_delete) then item ++ codes " #" ++ s else item

abbrev pub is_batch : List Text → Bool
is_batch [] = false
is_batch (s ∷ rest) = s is batch_delete

-- A new row, a change or a removal of a child; `rest` are the segments after the collection.
abbrev pub sub_resource_by :
    AuditClassification → Mutation → List Text → Text → Text → AuditClassification
sub_resource_by c post rest item parent =
    doing c (codes "create") (codes "Add " ++ item ++ codes " to " ++ parent)
sub_resource_by c delete rest item parent =
    doing c (codes "delete") (codes "Remove " ++ item_ref item rest ++ codes " from " ++ parent)
sub_resource_by c change [] item parent =
    doing c (codes "update") (codes "Update " ++ item ++ codes "s of " ++ parent)
sub_resource_by c change (s ∷ rest) item parent =
    doing c (codes "update") (codes "Update " ++ item_ref item (s ∷ rest) ++ codes " of " ++ parent)

unfoldable pub apply_sub_resource_audit :
    AuditClassification → Mutation → List Text → Text → Text → AuditClassification
apply_sub_resource_audit base m rest item parent =
    let c = with_body base in
    if is_batch rest
    then doing c (codes "batch_delete")
        (codes "Remove " ++ item ++ codes "s (batch) from " ++ parent)
    else sub_resource_by c m rest item parent
