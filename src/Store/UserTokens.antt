-- ===== src/Store/UserTokens.antt =====
-- internal/store/user_tokens.go: one-time links for invitations and password resets, in the tables
-- `user_tokens` and `users`. The random bytes and the hash are parameters; times are milliseconds.
pub mod OneTime
use dorian_back_end.Prelude.{
  ℕ, ◌+◌, ◌≡◌, Bool, true, false, not, ◌&&◌, ◌||◌, Option, none, some, List, [], ◌∷◌, ltb, ◌==◌,
  if◌then◌else◌, ℤ, pos, positive, eq_ℤ,
}
use mathlib.Core.Option
use dorian_back_end.Text.{Text, codes, ◌is◌, trim_space}
use dorian_back_end.Action.{
  Action, Result, Error, ok, err, pure, raise, ◌>>=◌, ◌>>◌, failed, not_found, invalid,
}
use dorian_back_end.Store.Database.{Database, update, find}
use dorian_back_end.Store.ApiTokens.{hash_api_token_secret, is_null}
use dorian_back_end.Store.AuthSessions.{truncate_second}

-- A row of `user_tokens`.
pub record UserToken : Type 0 where
  pub id : ℕ
  pub user_id : ℤ
  pub purpose : Text
  pub token_hash : Text
  pub created_by : Option ℤ
  pub created_at : ℕ
  pub expires_at : ℕ
  pub used_at : Option ℕ

pub record LinkUser : Type 0 where
  pub id : ℤ
  pub email : Text
  pub name : Text

pub record LinkTables : Type 0 where
  pub links : List UserToken
  pub users : List LinkUser
  pub next_id : ℕ

pub record UserTokenPeek : Type 0 where
  pub user_id : ℤ
  pub purpose : Text
  pub email : Text
  pub name : Text
  pub expires_at : ℕ

unfoldable pub valid_user_token_purpose : Text → Bool
valid_user_token_purpose purpose = (purpose is codes "invite") || (purpose is codes "reset")

module _ (digest : Text → Text) (d : Database LinkTables) where
  open d use {State, content, collates, run}

  -- WHERE user_id = ? AND purpose = ? AND used_at IS NULL
  abbrev pub is_open : ℤ → Text → UserToken → Bool
  is_open user_id purpose row =
      eq_ℤ row.user_id user_id && collates row.purpose purpose && is_null row.used_at

  abbrev pub used_up : ℕ → UserToken → UserToken
  used_up now row = record row { used_at = some now }

  abbrev pub has_token_hash : Text → UserToken → Bool
  has_token_hash hash row = collates row.token_hash hash

  abbrev pub is_user_of : UserToken → LinkUser → Bool
  is_user_of row user = eq_ℤ user.id row.user_id

  -- INSERT INTO user_tokens, under the foreign key and the unique hash.
  unfoldable pub insert_link : UserToken → LinkTables → Result (Unit {0}) × LinkTables
  insert_link row c = elim (find (is_user_of row) c.users) [
    | none ↦ (err failed, c)
    | some user ↦ elim (find (has_token_hash row.token_hash) c.links) [
      | some other ↦ (err failed, c)
      | none ↦ (
        ok tt,
        record c { links = record row { id = c.next_id } ∷ c.links; next_id = c.next_id + 1 },
      )
    ]
  ]

  abbrev pub close_links : ℕ → ℤ → Text → LinkTables → LinkTables
  close_links now user_id purpose c = record c {
    links = update (is_open user_id purpose) (used_up now) c.links;
  }

  abbrev pub issued_row : Text → ℕ → ℤ → Text → ℕ → ℤ → UserToken
  issued_row secret now user_id purpose ttl created_by = record {
    id = 0;
    user_id = user_id;
    purpose = purpose;
    token_hash = hash_api_token_secret digest secret;
    created_by = if positive created_by then some created_by else none;
    created_at = now;
    expires_at = now + ttl;
    used_at = none;
  }

  -- The transaction of `Issue`: earlier links of the purpose are used up, and the new one is inserted.
  unfoldable pub issue_rows :
      Text → ℕ → ℤ → Text → ℕ → ℤ → LinkTables → Result (Unit {0}) × LinkTables
  issue_rows secret now user_id purpose ttl created_by c =
      insert_link (issued_row secret now user_id purpose ttl created_by)
        (close_links now user_id purpose c)

  abbrev pub issue_with : Result Text → ℕ → ℤ → Text → ℕ → ℤ → Action State (Text × ℕ)
  issue_with (err e) now user_id purpose ttl created_by = raise e
  issue_with (ok secret) now user_id purpose ttl created_by = do
    run (Unit {0}) (issue_rows secret now user_id purpose ttl created_by)
    pure (secret, now + ttl)

  -- `drawn` is the encoded random secret, or the reader's error.
  unfoldable pub issue : Result Text → ℕ → ℤ → Text → ℕ → ℤ → Action State (Text × ℕ)
  issue drawn now user_id purpose ttl created_by =
      if not (positive user_id) || not (valid_user_token_purpose purpose)
      then raise invalid
      else issue_with drawn (truncate_second now) user_id purpose ttl created_by

  -- WHERE t.token_hash = ? AND t.purpose = ?
  abbrev pub is_link : Text → Text → UserToken → Bool
  is_link hash purpose row = has_token_hash hash row && collates row.purpose purpose

  abbrev pub link_owner : LinkTables → UserToken → Option (UserToken × LinkUser)
  link_owner c row = Option.map (λ user. (row, user)) (find (is_user_of row) c.users)

  unfoldable pub link_with_user : Text → Text → LinkTables → Option (UserToken × LinkUser)
  link_with_user hash purpose c = elim (find (is_link hash purpose) c.links) [
    | none ↦ none
    | some row ↦ link_owner c row
  ]

  abbrev pub peek_of : Text → UserToken → LinkUser → UserTokenPeek
  peek_of purpose row user = record {
    user_id = row.user_id;
    purpose = purpose;
    email = user.email;
    name = user.name;
    expires_at = row.expires_at;
  }

  -- `usedAt.Valid || !peek.ExpiresAt.After(time.Now())` refuses the link.
  abbrev pub is_usable_link : ℕ → UserToken → Bool
  is_usable_link now row = is_null row.used_at && ltb now row.expires_at

  abbrev pub usable_link :
      ℕ → Text → Option (UserToken × LinkUser) → Result (UserToken × UserTokenPeek)
  usable_link now purpose none = err not_found
  usable_link now purpose (some (row, user)) =
      if is_usable_link now row then ok (row, peek_of purpose row user) else err not_found

  -- `lookup`, on the tables that its query sees.
  unfoldable pub lookup : ℕ → Text → Text → LinkTables → Result (UserToken × UserTokenPeek)
  lookup now secret purpose c =
      if (trim_space secret is []) || not (valid_user_token_purpose purpose)
      then err not_found
      else usable_link now purpose
          (link_with_user (hash_api_token_secret digest (trim_space secret)) purpose c)

  abbrev pub peeked :
      Result (UserToken × UserTokenPeek) → LinkTables → Result UserTokenPeek × LinkTables
  peeked (err e) c = (err e, c)
  peeked (ok (row, p)) c = (ok p, c)

  unfoldable pub peek : ℕ → Text → Text → Action State UserTokenPeek
  peek now secret purpose = run UserTokenPeek λ c. peeked (lookup now secret purpose c) c

  abbrev pub has_link_id : ℕ → UserToken → Bool
  has_link_id id row = row.id == id

  abbrev pub consumed :
      ℕ → Result (UserToken × UserTokenPeek) → LinkTables → Result UserTokenPeek × LinkTables
  consumed now (err e) c = (err e, c)
  consumed now (ok (row, p)) c =
      (ok p, record c { links = update (has_link_id row.id) (used_up now) c.links })

  -- The transaction of `Consume`.
  unfoldable pub consume_rows : ℕ → Text → Text → LinkTables → Result UserTokenPeek × LinkTables
  consume_rows now secret purpose c = consumed now (lookup now secret purpose c) c

  unfoldable pub consume : ℕ → Text → Text → Action State UserTokenPeek
  consume now secret purpose = run UserTokenPeek (consume_rows now secret purpose)
