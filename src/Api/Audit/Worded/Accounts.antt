-- ===== src/Api/Audit/Worded/Accounts.antt =====
-- The wording of entries on users, sign-in and settings.
use dorian_back_end.Prelude.{refl, ◌&&◌, List, [], ◌∷◌, either_branch}
use dorian_back_end.Text.{Text, codes, ◌is◌}
use dorian_back_end.Api.Audit.{
  Mutation, post, put, patch, delete, AuditClassification, recorded, adds, removes, parse_audit_id,
  join_segments, batch_delete,
}
use dorian_back_end.Api.Audit.Accounts.{
  below_user, classify_user_audit, classify_auth_audit, classify_settings_audit,
}
use dorian_back_end.Api.Audit.Worded.{IsWorded, Begun, said, silent}

pub IsWorded-user : (m : Mutation) (segs : List Text) → IsWorded (classify_user_audit m segs)
unfolding classify_user_audit ◌is◌
IsWorded-user post [] = said _ (refl, refl, refl) refl refl
IsWorded-user put [] = silent
IsWorded-user patch [] = silent
IsWorded-user delete [] = silent
IsWorded-user m (id ∷ rest) =
    either_branch IsWorded (id is batch_delete) (said _ (refl, refl, refl) refl refl) (
      below (record (recorded (codes "user") (codes "user")) { resource_id = parse_audit_id id }) m
        rest (refl, refl, refl))
  where
    below :
        (c : AuditClassification) (m : Mutation) (segs : List Text)
        → Begun c
        → IsWorded (below_user c m segs)
    below c put [] b = said _ b refl refl
    below c patch [] b = said _ b refl refl
    below c delete [] b = said _ b refl refl
    below c post [] b = silent
    below c delete (s ∷ []) b =
        either_branch IsWorded (s is codes "mfa") (said _ (b.0, refl, b.2) refl refl) silent
    below c post (s ∷ rest) b =
        let what = join_segments (s ∷ rest) in
        either_branch IsWorded (what is codes "invite") (said _ b refl refl) (
          either_branch IsWorded (what is codes "password-reset")
            (said _ (b.0, refl, b.2) refl refl)
            (either_branch IsWorded (what is codes "sessions/revoke")
              (said _ (b.0, refl, b.2) refl refl) silent))
    below c put (s ∷ rest) b = silent
    below c patch (s ∷ rest) b = silent
    below c delete (s ∷ t ∷ rest) b = silent

pub IsWorded-auth : (m : Mutation) (segs : List Text) → IsWorded (classify_auth_audit m segs)
unfolding classify_auth_audit ◌is◌
IsWorded-auth m [] = silent
IsWorded-auth m (area ∷ []) =
    either_branch IsWorded ((area is codes "api-tokens") && adds m)
      (said _ (refl, refl, refl) refl refl) silent
IsWorded-auth m (area ∷ what ∷ []) =
    either_branch IsWorded (area is codes "mfa")
      (either_branch IsWorded (adds m)
        (either_branch IsWorded (what is codes "enable") (said _ (refl, refl, refl) refl refl) (
          either_branch IsWorded (what is codes "disable") (said _ (refl, refl, refl) refl refl) (
            either_branch IsWorded (what is codes "recovery-codes")
              (said _ (refl, refl, refl) refl refl) silent)))
        silent)
      (either_branch IsWorded (area is codes "sessions")
        (either_branch IsWorded ((what is codes "revoke-others") && adds m)
          (said _ (refl, refl, refl) refl refl)
          (either_branch IsWorded (removes m) (said _ (refl, refl, refl) refl refl) silent))
        (either_branch IsWorded ((area is codes "api-tokens") && removes m)
          (said _ (refl, refl, refl) refl refl) silent))
IsWorded-auth m (area ∷ what ∷ more ∷ rest) = silent

pub IsWorded-settings :
    (m : Mutation) (segs : List Text) → IsWorded (classify_settings_audit m segs)
unfolding classify_settings_audit ◌is◌
IsWorded-settings put [] = silent
IsWorded-settings put (s ∷ []) =
    either_branch IsWorded (s is codes "security") (record { holds = refl }) silent
IsWorded-settings put (s ∷ t ∷ rest) = silent
IsWorded-settings post segs = silent
IsWorded-settings patch segs = silent
IsWorded-settings delete segs = silent
