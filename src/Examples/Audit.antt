-- ===== src/Examples/Audit.antt =====
-- Entries of the audit trail.
use dorian_back_end.Prelude.{◌≡◌, refl, true, not, [], ◌∷◌}
use dorian_back_end.Text.{Text, codes, trim_space, to_upper, member}
use dorian_back_end.Api.Audit.{Mutation, put, delete}
use dorian_back_end.Api.Audit.Classify.{mutation_of, classify_segments, classify_audit_request}
use dorian_back_end.Api.Audit.Worded.{is_worded}
use dorian_back_end.Api.Audit.Classify.Complete.{changing_methods, classify_audit_request_worded}
use dorian_back_end.Api.Audit.Classify.Probes.{is_silent, servers_unrecorded_iff}

classify_audit_request_worded_example :
    (member (to_upper (trim_space (codes " delete"))) changing_methods ≡ true)
    × (is_worded
          (classify_audit_request (codes " delete") (codes "/api/v1/servers/7/waf/anti-cc/3"))
        ≡ true)
unfolding classify_audit_request mutation_of dorian_back_end.Text.◌is◌ to_upper trim_space
    classify_segments dorian_back_end.Text.split dorian_back_end.Text.trim_prefix
    dorian_back_end.Text.strip dorian_back_end.Api.Audit.normalize_audit_path
    dorian_back_end.Text.trim_suffix dorian_back_end.Text.has_prefix
    dorian_back_end.Api.Audit.Edges.classify_edge_audit dorian_back_end.Api.Audit.Edges.below_edge
    dorian_back_end.Api.Audit.apply_sub_resource_audit
classify_audit_request_worded_example =
    classify_audit_request_worded (codes " delete") (codes "/api/v1/servers/7/waf/anti-cc/3") refl

servers_unrecorded_iff_example :
    (classify_segments put (codes "servers" ∷ codes "7" ∷ codes "host-metrics" ∷ [])).should_log
    ≡ not (is_silent put (codes "7" ∷ codes "host-metrics" ∷ []))
servers_unrecorded_iff_example = servers_unrecorded_iff put (codes "7" ∷ codes "host-metrics" ∷ [])
