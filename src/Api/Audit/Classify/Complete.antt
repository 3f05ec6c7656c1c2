-- ===== src/Api/Audit/Classify/Complete.antt =====
-- The requests and the wording of all entries of the audit trail.
use dorian_back_end.Prelude.{
  ◌≡◌, refl, true, Option, none, some, List, [], ◌∷◌, arith, either_branch,
}
use dorian_back_end.Text.{Text, codes, ◌is◌, trim_space, to_upper, member}
use dorian_back_end.Api.Audit.{Mutation, audit_segments}
use dorian_back_end.Api.Audit.Classify.{
  mutation_of, server_path, classify_segments, by_mutation, classify_audit_request,
}
use dorian_back_end.Api.Audit.Worded.{IsWorded, silent, is_worded}
use dorian_back_end.Api.Audit.Worded.Accounts.{IsWorded-user, IsWorded-auth, IsWorded-settings}
use dorian_back_end.Api.Audit.Worded.Edges.{IsWorded-blacklist, IsWorded-edge}
use dorian_back_end.Api.Audit.Worded.Sites.{IsWorded-site, IsWorded-waf_rule}

IsWorded-segments : (m : Mutation) (segs : List Text) → IsWorded (classify_segments m segs)
unfolding classify_segments
IsWorded-segments m [] = silent
IsWorded-segments m (area ∷ segs) =
    either_branch IsWorded (area is codes "users") (IsWorded-user m segs) (
      either_branch IsWorded (area is codes "auth") (IsWorded-auth m segs) (
        either_branch IsWorded (area is codes "servers") (server segs) (
          either_branch IsWorded (area is codes "sites") (IsWorded-site m segs) (
            either_branch IsWorded (area is codes "waf-rules") (IsWorded-waf_rule m segs) (
              either_branch IsWorded (area is codes "settings") (IsWorded-settings m segs)
                silent)))))
  where
    server : (rest : List Text) → IsWorded (server_path m rest)
    server [] = IsWorded-edge m []
    server (s ∷ rest) =
        either_branch IsWorded (s is codes "blacklist") (IsWorded-blacklist m rest)
          (IsWorded-edge m (s ∷ rest))

-- The methods of the requests that may be recorded.
abbrev pub changing_methods : List Text
changing_methods = codes "POST" ∷ codes "PUT" ∷ codes "PATCH" ∷ codes "DELETE" ∷ []

mutation_of-changing :
    (method : Text) (m : Mutation)
    → mutation_of method ≡ some m
    → member method changing_methods ≡ true
unfolding mutation_of member
mutation_of-changing method m h = ground arith

by_mutation_worded :
    (o : Option Mutation) (segs : List Text)
    → (by_mutation o segs).should_log ≡ true
    → ((m : Mutation) × (o ≡ some m)) × (is_worded (by_mutation o segs) ≡ true)
by_mutation_worded none segs h = absurd (ground arith)
by_mutation_worded (some m) segs h =
    ((m, refl), ground (arith, (IsWorded-segments m segs).holds, h))

-- A request that is recorded changes something: its method is POST, PUT, PATCH or DELETE. Its entry names
-- an action, a category and a kind of resource, and has a summary or a way to word one from the body.
pub classify_audit_request_worded :
    (method path : Text)
    → (classify_audit_request method path).should_log ≡ true
    → (member (to_upper (trim_space method)) changing_methods ≡ true)
      × (is_worded (classify_audit_request method path) ≡ true)
unfolding classify_audit_request
classify_audit_request_worded method path h =
    let ((m, e), worded) =
      by_mutation_worded (mutation_of (to_upper (trim_space method))) (audit_segments path) h in
    (mutation_of-changing (to_upper (trim_space method)) m e, worded)
