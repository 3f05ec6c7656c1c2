-- ===== src/Examples/Unsigned.antt =====
-- A session that is stored, and whose token cannot be signed.
use dorian_back_end.Prelude.{◌≡◌, refl, true, none, [], ◌∷◌, false, pos}
use dorian_back_end.Text.{Text, codes}
use dorian_back_end.Action.{ok, err, invalid}
use dorian_back_end.Store.Database.{Database}
use dorian_back_end.Store.AuthSessions.{
  AuthSession, SessionUser, SessionTables, AuthSessionLookup, new_session, lookup_active, revoke,
  create,
}
use dorian_back_end.Api.SignIn.{User}
use dorian_back_end.Api.SignIn.Session.{SignInConfig, Caller, session_input, issue_session}
use dorian_back_end.Api.SignIn.Wired.{session_store}
use dorian_back_end.Api.SignIn.Unsigned.{unsigned_session_ended}
use dorian_back_end.Examples.Servers.{memory_database, memory_database-IsDocumented}

abbrev db : Database SessionTables
db = memory_database

abbrev row : SessionUser
row = record {
  id = pos 7;
  name = codes "Ann";
  email = codes "ann@x.org";
  role = codes "User";
  status = codes "Active";
  totp_enabled_at = none;
}

abbrev tables : SessionTables
tables = record { sessions = []; users = row ∷ [] }

abbrev ann : User
ann = record {
  id = pos 7;
  name = codes "Ann";
  email = codes "ann@x.org";
  role = codes "User";
  status = codes "Active";
}

abbrev cfg : SignInConfig
cfg = record { jwt_secret = []; jwt_ttl_hours = pos 1; remember_me_ttl_days = pos 0 }

abbrev caller : Caller
caller = record { client_ip = codes "10.0.0.1"; user_agent = codes "browser" }

abbrev session : AuthSession
session = new_session (codes "s1") 5000 (session_input cfg caller ann (codes "password") false)

abbrev stored : SessionTables
stored = record { sessions = session ∷ []; users = row ∷ [] }

abbrev ended : SessionTables
ended = (revoke db 6000 (pos 7) (codes "s1") stored).1

abbrev wanted : AuthSessionLookup
wanted = record {
  session = session;
  user_id = pos 7;
  name = codes "Ann";
  email = codes "ann@x.org";
  role = codes "User";
  status = codes "Active";
  mfa_enabled = false;
}

unsigned_session_ended_example :
    (issue_session none none
        (session_store db (ok (codes "s1")) 5000)
        (λ user secret ttl. err invalid)
        cfg
        caller
        ann
        (codes "password")
        false
        tables
      ≡ (err invalid, (revoke db 5000 (pos 7) (codes "s1") stored).1))
    × ¬ (
        (lookup_active db 7000 (codes "s1") (revoke db 5000 (pos 7) (codes "s1") stored).1
          ≡ (ok wanted, ended))
        × (pos 7 ≡ pos 7))
unfolding create dorian_back_end.Store.AuthSessions.insert_session
    dorian_back_end.Store.Database.find new_session revoke
    dorian_back_end.Store.AuthSessions.revoke_rows dorian_back_end.Store.Database.count
    dorian_back_end.Text.◌is◌ dorian_back_end.Text.trim_space
unsigned_session_ended_example =
    unsigned_session_ended db memory_database-IsDocumented none none
      (λ user secret ttl. err invalid) cfg (ok (codes "s1")) 5000 7000 caller ann (codes "password")
      false tables stored (revoke db 5000 (pos 7) (codes "s1") stored).1 ended session invalid true
      wanted refl refl refl
