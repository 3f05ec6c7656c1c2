-- ===== src/Store/UserMfa.antt =====
-- internal/store/user_mfa.go: TOTP secrets, the last accepted step and recovery codes, in the tables
-- `users` and `user_recovery_codes`. SHA-256 in hexadecimal, the random bytes and base32 are parameters.
pub mod Codes
pub mod Replay
pub mod Asked
use dorian_back_end.Prelude.{
  ℕ, ◌≡◌, Bool, true, false, not, ◌&&◌, Option, none, some, List, [], ◌∷◌, ◌++◌, map, take, drop,
  keep, ◌==◌, if◌then◌else◌, ℤ, pos, eq_ℤ, ltb_ℤ,
}
use dorian_back_end.Text.{Text, codes, ◌is◌, trim_space, to_lower, remove_all}
use dorian_back_end.Action.{
  Action, Result, ok, err, no_schema, unavailable, pure, raise, ◌>>=◌, ◌>>◌,
}
use dorian_back_end.Store.Database.{Database, update, count, find, found}

-- The columns of `users` that two-factor sign-in uses.
pub record MfaUser : Type 0 where
  pub id : ℤ
  pub totp_secret : Option Text
  pub totp_pending_secret : Option Text
  pub totp_enabled_at : Option ℕ
  pub totp_last_step : ℤ

pub record RecoveryCode : Type 0 where
  pub user_id : ℤ
  pub code_hash : Text
  pub used_at : Option ℕ

pub record MfaTables : Type 0 where
  pub users : List MfaUser
  pub recovery_codes : List RecoveryCode

pub record MfaStatus : Type 0 where
  pub enabled : Bool
  pub recovery_codes_remaining : ℕ

abbrev pub recovery_code_count : ℕ
recovery_code_count = 10

-- A NULL column reads as the empty text.
abbrev pub string_of : Option Text → Text
string_of none = []
string_of (some s) = s

abbrev pub unused : RecoveryCode → Bool
unused row = elim row.used_at [ none ↦ true | some t ↦ false ]

unfoldable pub normalize_recovery_code : Text → Text
normalize_recovery_code code = remove_all b' ' (remove_all b'-' (to_lower (trim_space code)))

-- `strings.ToLower(…)[:10]` of the encoded random bytes.
unfoldable pub recovery_raw : Text → Text
recovery_raw encoded = take 10 (to_lower encoded)

-- `raw[:5] + "-" + raw[5:]`.
unfoldable pub display_code : Text → Text
display_code raw = take 5 raw ++ (b'-' ∷ drop 5 raw)

module _ (d : Database MfaTables) (digest : Text → Text) where
  open d use {State, content, collates, run}

  abbrev pub wrap_mfa_err : {A : Type 0} → Result A × State → Result A × State
  wrap_mfa_err (ok a, s) = (ok a, s)
  wrap_mfa_err (err no_schema, s) = (err unavailable, s)
  wrap_mfa_err (err e, s) = (err e, s)

  -- A statement, or a transaction, with its error wrapped.
  unfoldable pub ask : (A : Type 0) → (MfaTables → Result A × MfaTables) → Action State A
  ask A f s = wrap_mfa_err (run A f s)

  abbrev pub is_user : ℤ → MfaUser → Bool
  is_user id row = eq_ℤ row.id id

  abbrev pub codes_of : ℤ → RecoveryCode → Bool
  codes_of id row = eq_ℤ row.user_id id

  abbrev pub remaining_codes : ℤ → MfaTables → Result ℕ × MfaTables
  remaining_codes id c = (ok (count (λ row. codes_of id row && unused row) c.recovery_codes), c)

  abbrev pub finish_status : ℤ → MfaUser → Action State MfaStatus
  finish_status id user =
      if string_of user.totp_secret is []
      then pure (record { enabled = false; recovery_codes_remaining = 0 })
      else (do
        n ← ask ℕ (remaining_codes id)
        pure (record { enabled = true; recovery_codes_remaining = n }))

  abbrev pub select_user : ℤ → MfaTables → Result MfaUser × MfaTables
  select_user id c = found (find (is_user id) c.users) c

  unfoldable pub status : ℤ → Action State MfaStatus
  status id = ask MfaUser (select_user id) >>= finish_status id

  unfoldable pub secret : ℤ → Action State (Text × ℤ)
  secret id = do
    user ← ask MfaUser (select_user id)
    pure (string_of user.totp_secret, user.totp_last_step)

  abbrev pub write_users : (MfaUser → Bool) → (MfaUser → MfaUser) → MfaTables → MfaTables
  write_users p f c = record c { users = update p f c.users }

  unfoldable pub set_pending_secret : ℤ → Text → Action State (Unit {0})
  set_pending_secret id text = ask (Unit {0}) λ c.
      (ok tt, write_users (is_user id) (λ row. record row { totp_pending_secret = some text }) c)

  unfoldable pub pending_secret : ℤ → Action State Text
  pending_secret id = do
    user ← ask MfaUser (select_user id)
    pure (string_of user.totp_pending_secret)

  -- `replaceRecoveryCodes`: DELETE all of the user, then INSERT each hash.
  unfoldable pub replace_recovery_codes : ℤ → List Text → MfaTables → MfaTables
  replace_recovery_codes id hashes c = record c {
    recovery_codes =
        map (λ hash. record { user_id = id; code_hash = hash; used_at = none }) hashes
        ++ keep (λ row. not (codes_of id row)) c.recovery_codes;
  }

  abbrev pub enabled_with : ℕ → Text → ℤ → MfaUser → MfaUser
  enabled_with now text step row = record row {
    totp_secret = some text;
    totp_pending_secret = none;
    totp_enabled_at = some now;
    totp_last_step = step;
  }

  abbrev pub generated : List Text → List Text
  generated raws = map display_code raws

  abbrev pub hashes_of : List Text → List Text
  hashes_of raws = map digest raws

  -- `raws` is what `generateRecoveryCodes` drew, before display and hashing.
  unfoldable pub enable : Result (List Text) → ℕ → ℤ → Text → ℤ → Action State (List Text)
  enable (err e) now id text step = raise e
  enable (ok raws) now id text step = do
    ask (Unit {0}) (λ c. (
      ok tt,
      replace_recovery_codes id (hashes_of raws)
          (write_users (is_user id) (enabled_with now text step) c),
    ))
    pure (generated raws)

  abbrev pub disabled : MfaUser → MfaUser
  disabled row = record row {
    totp_secret = none;
    totp_pending_secret = none;
    totp_enabled_at = none;
    totp_last_step = pos 0;
  }

  unfoldable pub disable : ℤ → Action State (Unit {0})
  disable id =
      ask (Unit {0})
        λ c. (ok tt, replace_recovery_codes id [] (write_users (is_user id) disabled c))

  -- WHERE id = ? AND totp_last_step < ?
  abbrev pub behind : ℤ → ℤ → MfaUser → Bool
  behind id step row = is_user id row && ltb_ℤ row.totp_last_step step

  abbrev pub stepped : ℤ → MfaUser → MfaUser
  stepped step row = record row { totp_last_step = step }

  unfoldable pub advance_rows : ℤ → ℤ → MfaTables → Result ℕ × MfaTables
  advance_rows id step c =
      (ok (count (behind id step) c.users), write_users (behind id step) (stepped step) c)

  unfoldable pub advance_step : ℤ → ℤ → Action State Bool
  advance_step id step = do affected ← ask ℕ (advance_rows id step); pure (affected == 1)

  abbrev pub redeemable : ℤ → Text → RecoveryCode → Bool
  redeemable id hash row = codes_of id row && collates row.code_hash hash && unused row

  abbrev pub redeemed : ℕ → RecoveryCode → RecoveryCode
  redeemed now row = record row { used_at = some now }

  unfoldable pub redeem_rows : ℕ → ℤ → Text → MfaTables → Result ℕ × MfaTables
  redeem_rows now id hash c = (
    ok (count (redeemable id hash) c.recovery_codes),
    record c { recovery_codes = update (redeemable id hash) (redeemed now) c.recovery_codes },
  )

  unfoldable pub redeem : ℕ → ℤ → Text → Action State Bool
  redeem now id hash = do affected ← ask ℕ (redeem_rows now id hash); pure (affected == 1)

  unfoldable pub consume_recovery_code : ℕ → ℤ → Text → Action State Bool
  consume_recovery_code now id code =
      if normalize_recovery_code code is []
      then pure false
      else redeem now id (digest (normalize_recovery_code code))

  unfoldable pub regenerate_recovery_codes : Result (List Text) → ℤ → Action State (List Text)
  regenerate_recovery_codes (err e) id = raise e
  regenerate_recovery_codes (ok raws) id = do
    ask (Unit {0}) (λ c. (ok tt, replace_recovery_codes id (hashes_of raws) c))
    pure (generated raws)
