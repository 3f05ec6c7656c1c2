-- ===== src/Store/ApiTokens.antt =====
-- internal/store/api_tokens.go: personal API tokens, in the tables `api_tokens` and `users`. The hash, the
-- random bytes in hexadecimal and JSON are parameters; times are milliseconds.
pub mod Scopes
pub mod Access
use dorian_back_end.Prelude.{
  ℕ, ◌+◌, ◌≡◌, Bool, true, false, not, ◌&&◌, ◌||◌, Option, none, some, List, [], ◌∷◌, ◌++◌, take,
  keep, ltb, ◌==◌, if◌then◌else◌, ℤ, pos, positive, eq_ℤ,
}
use mathlib.Core.Option
use dorian_back_end.Text.{Text, codes, ◌is◌, member, trim_space, has_prefix, equal_fold}
use dorian_back_end.Action.{
  Action, Result, ok, err, pure, raise, ◌>>=◌, ◌>>◌, failed, not_found, invalid,
}
use dorian_back_end.Store.Database.{Database, update, count, find, found}

abbrev pub api_token_prefix : Text
api_token_prefix = codes "dorian_pat_"

pub record ApiToken : Type 0 where
  pub id : ℤ
  pub user_id : ℤ
  pub name : Text
  pub token_prefix : Text
  pub scopes : List Text
  pub expires_at : Option ℕ
  pub last_used_at : Option ℕ
  pub created_at : ℕ
  pub revoked_at : Option ℕ

-- A row of `api_tokens`; a NULL in `scopes` reads as the empty text.
pub record TokenRow : Type 0 where
  pub id : ℤ
  pub user_id : ℤ
  pub name : Text
  pub token_prefix : Text
  pub token_hash : Text
  pub scopes : Text
  pub expires_at : Option ℕ
  pub last_used_at : Option ℕ
  pub created_at : ℕ
  pub revoked_at : Option ℕ

-- The columns of `users` that the lookup reads, less the password.
pub record TokenUser : Type 0 where
  pub id : ℤ
  pub name : Text
  pub email : Text
  pub role : Text
  pub status : Text
  pub mfa_enabled : Bool

-- `next_id` is the table's AUTO_INCREMENT.
pub record TokenTables : Type 0 where
  pub tokens : List TokenRow
  pub users : List TokenUser
  pub next_id : ℕ

pub record ApiTokenCreateInput : Type 0 where
  pub user_id : ℤ
  pub name : Text
  pub scopes : List Text
  pub expires_at : Option ℕ

pub record ApiTokenLookup : Type 0 where
  pub token : ApiToken
  pub user : TokenUser

abbrev pub is_null : Option ℕ → Bool
is_null none = true
is_null (some t) = false

-- The loop of `normalizeScopes`: the set `seen` has the elements of `out`.
unfoldable pub collect : List Text → List Text → List Text
collect [] out = out
collect (scope ∷ rest) out =
    let trimmed = trim_space scope in
    collect rest (if (trimmed is []) || member trimmed out then out else out ++ (trimmed ∷ []))

abbrev pub full_if_empty : List Text → List Text
full_if_empty [] = codes "*" ∷ []
full_if_empty (scope ∷ rest) = scope ∷ rest

unfoldable pub normalize_scopes : List Text → List Text
normalize_scopes [] = codes "*" ∷ []
normalize_scopes (scope ∷ rest) = full_if_empty (collect (scope ∷ rest) [])

abbrev pub scopes_or_full : Option (List Text) → List Text
scopes_or_full none = codes "*" ∷ []
scopes_or_full (some scopes) = normalize_scopes scopes

-- `from_json` is `json.Unmarshal` into a slice of strings.
unfoldable pub decode_scopes : (Text → Option (List Text)) → Text → List Text
decode_scopes from_json raw =
    if trim_space raw is [] then codes "*" ∷ [] else scopes_or_full (from_json (trim_space raw))

-- `generateAPITokenSecret` on the hexadecimal text of the random bytes.
unfoldable pub token_secret : Text → Text
token_secret body = api_token_prefix ++ body

unfoldable pub shown_prefix : Text → Text
shown_prefix body = api_token_prefix ++ take 8 body

module _ (digest : Text → Text) where
  unfoldable pub hash_api_token_secret : Text → Text
  hash_api_token_secret secret = digest (trim_space secret)

  module _ (d : Database TokenTables) (from_json : Text → Option (List Text)) where
    open d use {State, content, collates, run}

    -- `scanAPIToken`.
    unfoldable pub scan_api_token : TokenRow → ApiToken
    scan_api_token row = record {
      id = row.id;
      user_id = row.user_id;
      name = row.name;
      token_prefix = row.token_prefix;
      scopes = decode_scopes from_json row.scopes;
      expires_at = row.expires_at;
      last_used_at = row.last_used_at;
      created_at = row.created_at;
      revoked_at = row.revoked_at;
    }

    abbrev pub has_token_id : ℤ → TokenRow → Bool
    has_token_id id row = eq_ℤ row.id id

    abbrev pub has_hash : Text → TokenRow → Bool
    has_hash hash row = collates row.token_hash hash

    abbrev pub is_owner : TokenRow → TokenUser → Bool
    is_owner row user = eq_ℤ user.id row.user_id

    unfoldable pub get : ℤ → Action State ApiToken
    get id = do
      row ← run TokenRow (λ c. found (find (has_token_id id) c.tokens) c)
      pure (scan_api_token row)

    -- INSERT INTO api_tokens, under the foreign key and the unique hash.
    unfoldable pub insert_token : TokenRow → TokenTables → Result ℕ × TokenTables
    insert_token row c = elim (find (is_owner row) c.users) [
      | none ↦ (err failed, c)
      | some user ↦ elim (find (has_hash row.token_hash) c.tokens) [
        | some other ↦ (err failed, c)
        | none ↦ (
          ok c.next_id,
          record c {
            tokens = record row { id = pos c.next_id } ∷ c.tokens;
            next_id = c.next_id + 1;
          },
        )
      ]
    ]

    -- WHERE t.token_hash = ? AND t.revoked_at IS NULL
    abbrev pub is_live : Text → TokenRow → Bool
    is_live hash row = has_hash hash row && is_null row.revoked_at

    abbrev pub owned : TokenTables → TokenRow → Option (TokenRow × TokenUser)
    owned c row = Option.map (λ user. (row, user)) (find (is_owner row) c.users)

    unfoldable pub token_with_user : Text → TokenTables → Option (TokenRow × TokenUser)
    token_with_user hash c = elim (find (is_live hash) c.tokens) [
      | none ↦ none
      | some row ↦ owned c row
    ]

    -- `value.Before(time.Now())` for an expiry that is set.
    abbrev pub has_expired : ℕ → Option ℕ → Bool
    has_expired now none = false
    has_expired now (some t) = ltb t now

    -- The token of a lookup: `RevokedAt` stays unset.
    abbrev pub looked_up : TokenRow → TokenUser → ApiTokenLookup
    looked_up row user = record {
      token = record (scan_api_token row) { revoked_at = none };
      user = user;
    }

    abbrev pub usable : ℕ → TokenRow → TokenUser → Bool
    usable now row user =
        not (has_expired now row.expires_at)
        && is_null row.revoked_at
        && equal_fold user.status (codes "Active")

    abbrev pub usable_only : ℕ → TokenRow × TokenUser → Action State ApiTokenLookup
    usable_only now (row, user) =
        if usable now row user then pure (looked_up row user) else raise not_found

    unfoldable pub lookup_active_by_secret : ℕ → Text → Action State ApiTokenLookup
    lookup_active_by_secret now secret =
        if has_prefix (trim_space secret) api_token_prefix
        then (run (TokenRow × TokenUser)
              (λ c. found (token_with_user (hash_api_token_secret (trim_space secret)) c) c)
            >>= usable_only now)
        else raise not_found

    abbrev pub used : ℕ → TokenRow → TokenRow
    used now row = record row { last_used_at = some now }

    unfoldable pub touch_last_used : ℕ → ℤ → Action State (Unit {0})
    touch_last_used now id =
        run (Unit {0})
          λ c. (ok tt, record c { tokens = update (has_token_id id) (used now) c.tokens })

    abbrev pub revocable_token : ℤ → ℤ → TokenRow → Bool
    revocable_token user_id id row =
        has_token_id id row && eq_ℤ row.user_id user_id && is_null row.revoked_at

    abbrev pub revoked_token : ℕ → TokenRow → TokenRow
    revoked_token now row = record row { revoked_at = some now }

    unfoldable pub revoke_token_rows : ℕ → ℤ → ℤ → TokenTables → Result ℕ × TokenTables
    revoke_token_rows now user_id id c = (
      ok (count (revocable_token user_id id) c.tokens),
      record c { tokens = update (revocable_token user_id id) (revoked_token now) c.tokens },
    )

    abbrev some_affected : ℕ → Action State (Unit {0})
    some_affected affected = if affected == 0 then raise not_found else pure tt

    unfoldable pub revoke_token : ℕ → ℤ → ℤ → Action State (Unit {0})
    revoke_token now user_id id = run ℕ (revoke_token_rows now user_id id) >>= some_affected

    module _ (to_json : List Text → Text) where
      abbrev pub inserted_row : ApiTokenCreateInput → Text → ℕ → TokenRow
      inserted_row input body now = record {
        id = pos 0;
        user_id = input.user_id;
        name = trim_space input.name;
        token_prefix = shown_prefix body;
        token_hash = hash_api_token_secret (token_secret body);
        scopes = to_json (normalize_scopes input.scopes);
        expires_at = input.expires_at;
        last_used_at = none;
        created_at = now;
        revoked_at = none;
      }

      abbrev pub created_token : ApiTokenCreateInput → Text → ℕ → ℕ → ApiToken
      created_token input body now id = record {
        id = pos id;
        user_id = input.user_id;
        name = trim_space input.name;
        token_prefix = shown_prefix body;
        scopes = normalize_scopes input.scopes;
        expires_at = input.expires_at;
        last_used_at = none;
        created_at = now;
        revoked_at = none;
      }

      abbrev insert_and_answer : Text → ℕ → ApiTokenCreateInput → Action State (ApiToken × Text)
      insert_and_answer body now input = do
        id ← run ℕ (insert_token (inserted_row input body now))
        pure (created_token input body now id, token_secret body)

      abbrev with_body : Result Text → ℕ → ApiTokenCreateInput → Action State (ApiToken × Text)
      with_body (ok body) now input = insert_and_answer body now input
      with_body (err e) now input = raise e

      -- `drawn` is the hexadecimal text of the random bytes, or the reader's error.
      unfoldable pub create_token :
          Result Text → ℕ → ApiTokenCreateInput → Action State (ApiToken × Text)
      create_token drawn now input =
          if trim_space input.name is []
          then raise invalid
          else if positive input.user_id
          then with_body drawn now input
          else raise invalid
