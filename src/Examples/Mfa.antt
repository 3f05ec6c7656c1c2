-- ===== src/Examples/Mfa.antt =====
-- A step and a recovery code, accepted and tried again.
use dorian_back_end.Prelude.{◌≡◌, refl, true, none, some, [], ◌∷◌, pos}
use dorian_back_end.Text.{Text, codes}
use dorian_back_end.Store.Database.{Database}
use dorian_back_end.Store.UserMfa.{
  MfaUser, RecoveryCode, MfaTables, advance_step, consume_recovery_code, normalize_recovery_code,
}
use dorian_back_end.Store.UserMfa.{display_code}
use dorian_back_end.Store.UserMfa.Codes.{normalize_recovery_code-display_code}
use dorian_back_end.Store.UserMfa.Replay
use dorian_back_end.Store.UserMfa.Replay.{
  start, advanced, step_accepted_once, recovery_code_accepted_once,
}
use dorian_back_end.Examples.Servers.{memory_database, memory_database-IsDocumented}

abbrev db : Database MfaTables
db = memory_database

abbrev plain : Text → Text
plain s = s

abbrev ann : MfaUser
ann = record {
  id = pos 7;
  totp_secret = some (codes "JBSWY3DP");
  totp_pending_secret = none;
  totp_enabled_at = some 1000;
  totp_last_step = pos 10;
}

abbrev code_row : RecoveryCode
code_row = record { user_id = pos 7; code_hash = codes "abcde12345"; used_at = none }

abbrev tables : MfaTables
tables = record { users = ann ∷ []; recovery_codes = code_row ∷ [] }

abbrev stepped_tables : MfaTables
stepped_tables = (advance_step db plain (pos 7) (pos 11) tables).1

abbrev spent_tables : MfaTables
spent_tables = (consume_recovery_code db plain 2000 (pos 7) (codes "ABCDE-12345") tables).1

abbrev later_tables : MfaTables
later_tables = (advance_step db plain (pos 7) (pos 12) spent_tables).1

later : Replay.Later db memory_database-IsDocumented plain spent_tables later_tables
unfolding advance_step dorian_back_end.Store.UserMfa.advance_rows
    dorian_back_end.Store.Database.count consume_recovery_code dorian_back_end.Text.◌is◌
    normalize_recovery_code dorian_back_end.Text.remove_all dorian_back_end.Text.to_lower
    dorian_back_end.Text.trim_space dorian_back_end.Store.UserMfa.redeem
    dorian_back_end.Store.UserMfa.redeem_rows dorian_back_end.Store.UserMfa.ask
later = advanced (pos 7) (pos 12) true start refl

normalize_recovery_code-display_code_example :
    normalize_recovery_code (display_code (codes "k3x5q7mbd2")) ≡ codes "k3x5q7mbd2"
normalize_recovery_code-display_code_example =
    normalize_recovery_code-display_code (codes "k3x5q7mbd2")
      (refl, (refl, (refl, (refl, (refl, (refl, (refl, (refl, (refl, (refl, tt))))))))))
