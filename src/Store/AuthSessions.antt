-- ===== src/Store/AuthSessions.antt =====
-- internal/store/auth_sessions.go: the sign-in sessions of the panel, in the tables `user_sessions` and
-- `users`. Times are milliseconds; the clock and the random session id are arguments.
pub mod Lookup
pub mod Revocation
use dorian_back_end.Prelude.{
  ℕ, ◌+◌, ◌-◌, ◌%◌, ◌≡◌, Bool, true, false, not, ◌&&◌, ◌||◌, Option, none, some, List, [], ◌∷◌,
  length, take, keep, ltb, leb, if◌then◌else◌, ℤ, pos, pos_part, positive, eq_ℤ,
}
use mathlib.Core.Option
use dorian_back_end.Text.{Text, codes, ◌is◌, trim_space, to_lower}
use dorian_back_end.Action.{
  Action, Result, Error, ok, err, pure, raise, ◌>>=◌, ◌>>◌, failed, not_found, invalid,
}
use dorian_back_end.Store.Database.{Database, update, count, find, found}

pub record AuthSession : Type 0 where
  pub id : Text
  pub user_id : ℤ
  pub method : Text
  pub remember : Bool
  pub ip_address : Text
  pub user_agent : Text
  pub created_at : ℕ
  pub last_seen_at : ℕ
  pub expires_at : ℕ
  pub revoked_at : Option ℕ

-- The columns of `users` that the session queries read.
pub record SessionUser : Type 0 where
  pub id : ℤ
  pub name : Text
  pub email : Text
  pub role : Text
  pub status : Text
  pub totp_enabled_at : Option ℕ

pub record SessionTables : Type 0 where
  pub sessions : List AuthSession
  pub users : List SessionUser

pub record AuthSessionCreateInput : Type 0 where
  pub user_id : ℤ
  pub method : Text
  pub remember : Bool
  pub ip_address : Text
  pub user_agent : Text
  pub ttl : ℤ

-- The user's role and status are those of the `users` row.
pub record AuthSessionLookup : Type 0 where
  pub session : AuthSession
  pub user_id : ℤ
  pub name : Text
  pub email : Text
  pub role : Text
  pub status : Text
  pub mfa_enabled : Bool

abbrev pub touch_interval : ℕ
touch_interval = 60000

abbrev pub is_some {ℓ} : {A : Type ℓ} → Option A → Bool
is_some none = false
is_some (some a) = true

-- `t.Truncate(time.Second)`.
abbrev pub truncate_second : ℕ → ℕ
truncate_second t = t - t % 1000

unfoldable pub truncate_runes : Text → ℕ → Text
truncate_runes value max =
    let trimmed = trim_space value in if leb (length trimmed) max then trimmed else take max trimmed

abbrev pub session_ttl : ℤ → ℕ
session_ttl ttl = if positive ttl then pos_part ttl else 86400000

unfoldable pub method_name : Text → Text
method_name method =
    let name = to_lower (trim_space method) in if name is [] then codes "password" else name

-- The row that `Create` inserts.
unfoldable pub new_session : Text → ℕ → AuthSessionCreateInput → AuthSession
new_session id now input =
    let created = truncate_second now in
    record {
      id = id;
      user_id = input.user_id;
      method = truncate_runes (method_name input.method) 32;
      remember = input.remember;
      ip_address = truncate_runes input.ip_address 64;
      user_agent = truncate_runes input.user_agent 512;
      created_at = created;
      last_seen_at = created;
      expires_at = created + session_ttl input.ttl;
      revoked_at = none;
    }

module _ (d : Database SessionTables) where
  open d use {State, content, collates, run}

  abbrev pub has_id : Text → AuthSession → Bool
  has_id id row = collates row.id id

  abbrev pub has_user_id : ℤ → SessionUser → Bool
  has_user_id id row = eq_ℤ row.id id

  -- INSERT INTO user_sessions, under the primary key and the foreign key.
  unfoldable pub insert_session : AuthSession → SessionTables → Result (Unit {0}) × SessionTables
  insert_session row c =
      if is_some (find (has_id row.id) c.sessions)
        || not (is_some (find (has_user_id row.user_id) c.users))
      then (err failed, c)
      else (ok tt, record c { sessions = row ∷ c.sessions })

  -- `id` is what `newSessionID` returned.
  unfoldable pub create : Result Text → ℕ → AuthSessionCreateInput → Action State AuthSession
  create (err e) now input = if positive input.user_id then raise e else raise invalid
  create (ok id) now input =
      if positive input.user_id
      then (do
        run (Unit {0}) (insert_session (new_session id now input))
        pure (new_session id now input))
      else raise invalid

  abbrev pub joined : AuthSession → SessionUser → AuthSessionLookup
  joined row user = record {
    session = row;
    user_id = row.user_id;
    name = user.name;
    email = user.email;
    role = user.role;
    status = user.status;
    mfa_enabled = is_some user.totp_enabled_at;
  }

  abbrev pub with_user : SessionTables → AuthSession → Option (AuthSession × SessionUser)
  with_user c row = Option.map (λ user. (row, user)) (find (has_user_id row.user_id) c.users)

  -- SELECT … FROM user_sessions s INNER JOIN users u ON u.id = s.user_id WHERE s.id = ?
  unfoldable pub session_with_user : Text → SessionTables → Option (AuthSession × SessionUser)
  session_with_user id c = elim (find (has_id id) c.sessions) [
    | none ↦ none
    | some row ↦ with_user c row
  ]

  -- `!ExpiresAt.After(now)` or a revocation make a session inactive.
  abbrev pub is_active : ℕ → AuthSession → Bool
  is_active now row = not (is_some row.revoked_at) && ltb now row.expires_at

  abbrev pub active_only : ℕ → AuthSession × SessionUser → Action State AuthSessionLookup
  active_only now (row, user) =
      if is_active now row then pure (joined row user) else raise not_found

  -- The query for an id that is not empty, and the test of its answer.
  unfoldable pub lookup_id : ℕ → Text → Action State AuthSessionLookup
  lookup_id now id =
      run (AuthSession × SessionUser) (λ c. found (session_with_user id c) c) >>= active_only now

  unfoldable pub lookup_active : ℕ → Text → Action State AuthSessionLookup
  lookup_active now id =
      if trim_space id is [] then raise not_found else lookup_id now (trim_space id)

  abbrev pub touched : ℕ → AuthSession → AuthSession
  touched now row = record row { last_seen_at = now }

  abbrev pub is_stale : Text → ℕ → AuthSession → Bool
  is_stale id now row = has_id id row && ltb (row.last_seen_at + touch_interval) now

  unfoldable pub touch_row : Text → ℕ → SessionTables → Result (Unit {0}) × SessionTables
  touch_row id now c =
      (ok tt, record c { sessions = update (is_stale id now) (touched now) c.sessions })

  unfoldable pub touch : ℕ → Text → Action State (Unit {0})
  touch now id = run (Unit {0}) (touch_row id (truncate_second now))

  abbrev pub revoked : ℕ → AuthSession → AuthSession
  revoked now row = record row { revoked_at = some now }

  abbrev pub revocable : ℤ → Text → AuthSession → Bool
  revocable user_id id row =
      has_id id row && eq_ℤ row.user_id user_id && not (is_some row.revoked_at)

  -- UPDATE … SET revoked_at WHERE id = ? AND user_id = ? AND revoked_at IS NULL
  unfoldable pub revoke_rows : ℕ → ℤ → Text → SessionTables → Result ℕ × SessionTables
  revoke_rows now user_id id c = (
    ok (count (revocable user_id id) c.sessions),
    record c { sessions = update (revocable user_id id) (revoked now) c.sessions },
  )

  unfoldable pub revoke : ℕ → ℤ → Text → Action State Bool
  revoke now user_id id = do
    affected ← run ℕ (revoke_rows now user_id (trim_space id))
    pure (ltb 0 affected)

  abbrev pub revocable_but : ℤ → Text → AuthSession → Bool
  revocable_but user_id except row =
      eq_ℤ row.user_id user_id && not (is_some row.revoked_at) && not (has_id except row)

  -- UPDATE … SET revoked_at WHERE user_id = ? AND revoked_at IS NULL AND id <> ?
  unfoldable pub revoke_all_rows : ℕ → ℤ → Text → SessionTables → Result ℕ × SessionTables
  revoke_all_rows now user_id except c = (
    ok (count (revocable_but user_id except) c.sessions),
    record c { sessions = update (revocable_but user_id except) (revoked now) c.sessions },
  )

  unfoldable pub revoke_all_for_user : ℕ → ℤ → Text → Action State ℕ
  revoke_all_for_user now user_id except = run ℕ (revoke_all_rows now user_id (trim_space except))
