-- ===== src/Examples/Sessions.antt =====
-- A session of one user, created, found and revoked.
use dorian_back_end.Prelude.{◌≡◌, ◌≢◌, refl, true, false, none, [], ◌∷◌, pos}
use dorian_back_end.Text.{codes, ◌is◌, trim_space}
use dorian_back_end.Store.Database.{Database, update, count, find}
use dorian_back_end.Store.AuthSessions.{
  AuthSession, SessionUser, SessionTables, AuthSessionCreateInput, AuthSessionLookup, new_session,
  create, lookup_active, revoke, revoke_all_for_user, has_id, has_user_id, is_some, revocable,
  revoked,
}
use dorian_back_end.Store.AuthSessions.Lookup.{IsFound, lookup_active_sound}
use dorian_back_end.Store.AuthSessions.Revocation.{revoke_ends_session, revoke_all_ends_sessions}
use dorian_back_end.Examples.Servers.{memory_database, memory_database-IsDocumented}

abbrev db : Database SessionTables
db = memory_database

abbrev user : SessionUser
user = record {
  id = pos 7;
  name = codes "Ann";
  email = codes "ann@example.org";
  role = codes "admin";
  status = codes "active";
  totp_enabled_at = none;
}

abbrev input : AuthSessionCreateInput
input = record {
  user_id = pos 7;
  method = codes " Google ";
  remember = false;
  ip_address = codes "10.0.0.1";
  user_agent = codes "browser";
  ttl = pos 60000;
}

abbrev before : SessionTables
before = record { sessions = []; users = user ∷ [] }

abbrev row : AuthSession
row = new_session (codes "a1") 5000 input

abbrev other : AuthSession
other = new_session (codes "b2") 5000 input

abbrev after : SessionTables
after = record { sessions = row ∷ []; users = user ∷ [] }

abbrev two : SessionTables
two = record { sessions = row ∷ other ∷ []; users = user ∷ [] }

abbrev found_row : AuthSessionLookup
found_row = record {
  session = row;
  user_id = pos 7;
  name = codes "Ann";
  email = codes "ann@example.org";
  role = codes "admin";
  status = codes "active";
  mfa_enabled = false;
}

abbrev found_other : AuthSessionLookup
found_other = record found_row { session = other }

lookup_active_sound_example :
    IsFound db memory_database-IsDocumented 6000 (trim_space (codes " a1 ")) after found_row
    × (after ≡ after)
unfolding lookup_active ◌is◌ trim_space dorian_back_end.Store.AuthSessions.lookup_id
    dorian_back_end.Store.AuthSessions.session_with_user find new_session
lookup_active_sound_example =
    lookup_active_sound db memory_database-IsDocumented 6000 (codes " a1 ") after after found_row
      refl

abbrev revoked_two : SessionTables
revoked_two = record { sessions = revoked db 6000 row ∷ other ∷ []; users = user ∷ [] }

revoke_ends_session_example : found_other.user_id ≢ pos 8
unfolding revoke dorian_back_end.Store.AuthSessions.revoke_rows count update ◌is◌ new_session
    trim_space lookup_active dorian_back_end.Store.AuthSessions.lookup_id
    dorian_back_end.Store.AuthSessions.session_with_user find
revoke_ends_session_example =
    revoke_ends_session db memory_database-IsDocumented 6000 6001 (pos 8) (codes "b2") two two two
      false found_other refl refl

revoke_all_ends_sessions_example : (other.id is trim_space (codes "b2")) ≡ true
unfolding revoke_all_for_user dorian_back_end.Store.AuthSessions.revoke_all_rows count update
    new_session ◌is◌ trim_space lookup_active dorian_back_end.Store.AuthSessions.lookup_id
    dorian_back_end.Store.AuthSessions.session_with_user find
revoke_all_ends_sessions_example =
    revoke_all_ends_sessions db memory_database-IsDocumented 6000 6001 (pos 7) (codes "b2")
      (codes "b2") two revoked_two revoked_two 1 found_other refl refl refl
