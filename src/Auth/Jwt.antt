-- ===== src/Auth/Jwt.antt =====
-- internal/auth/jwt.go: the claims of signed tokens. `jwt.NewWithClaims(…).SignedString` and
-- `jwt.ParseWithClaims` with its check of the signing method are parameters. Times are seconds.
pub mod Typed
use dorian_back_end.Prelude.{
  ℕ, ◌+◌, ◌≡◌, Bool, true, false, not, ◌&&◌, ◌||◌, Option, none, some, List, [], ◌∷◌, if◌then◌else◌,
  ℤ, pos, pos_part, positive, ◌+ℤ◌,
}
use dorian_back_end.Text.{Text, codes, ◌is◌, trim_space, parse_int, format_int}
use dorian_back_end.Action.{Result, Error, ok, err, invalid, expired}

abbrev pub token_type_user : Text
token_type_user = codes "user"

abbrev pub token_type_mfa_challenge : Text
token_type_mfa_challenge = codes "mfa_challenge"

-- `UserClaims` with the registered claims that are set: `jti`, `sub`, `iat`, `nbf` and `exp`.
pub record UserClaims : Type 0 where
  pub user_id : ℤ
  pub email : Text
  pub name : Text
  pub role : Text
  pub typ : Text
  pub remember : Bool
  pub method : Text
  pub id : Text
  pub subject : Text
  pub issued_at : ℕ
  pub not_before : ℕ
  pub expires_at : ℤ

pub record UserIdentity : Type 0 where
  pub id : ℤ
  pub email : Text
  pub name : Text
  pub role : Text
  pub session_id : Text

pub record MfaChallenge : Type 0 where
  pub user_id : ℤ
  pub remember : Bool
  pub method : Text

-- The outcome of `jwt.ParseWithClaims`: claims of a token that is valid, an expired one, or any other error.
pub data Parsed : Type 0 where
  valid : UserClaims → Parsed
  out_of_date : Parsed
  broken : Parsed

abbrev pub token_ttl : ℤ → ℕ
token_ttl ttl = if positive ttl then pos_part ttl else 86400

abbrev pub claims_of_user : UserIdentity → ℕ → ℤ → UserClaims
claims_of_user user now ttl = record {
  user_id = user.id;
  email = trim_space user.email;
  name = trim_space user.name;
  role = trim_space user.role;
  typ = token_type_user;
  remember = false;
  method = [];
  id = trim_space user.session_id;
  subject = format_int user.id;
  issued_at = now;
  not_before = now;
  expires_at = pos (now + token_ttl ttl);
}

abbrev pub claims_of_challenge : MfaChallenge → ℕ → ℤ → UserClaims
claims_of_challenge challenge now ttl = record {
  user_id = challenge.user_id;
  email = [];
  name = [];
  role = [];
  typ = token_type_mfa_challenge;
  remember = challenge.remember;
  method = trim_space challenge.method;
  id = [];
  subject = format_int challenge.user_id;
  issued_at = now;
  not_before = now;
  expires_at = pos now +ℤ ttl;
}

module _ (sign : Text → UserClaims → Result Text) (parse_with_claims : Text → Text → Parsed) where
  unfoldable pub issue_user_token : UserIdentity → Text → ℕ → ℤ → Result Text
  issue_user_token user secret now ttl =
      if trim_space secret is []
      then err invalid
      else if positive user.id
      then sign (trim_space secret) (claims_of_user user now ttl)
      else err invalid

  unfoldable pub issue_mfa_challenge : MfaChallenge → Text → ℕ → ℤ → Result Text
  issue_mfa_challenge challenge secret now ttl =
      if trim_space secret is []
      then err invalid
      else if positive challenge.user_id
      then sign (trim_space secret) (claims_of_challenge challenge now ttl)
      else err invalid

  abbrev pub challenge_of : Parsed → Result MfaChallenge
  challenge_of out_of_date = err expired
  challenge_of broken = err invalid
  challenge_of (valid claims) =
      if not (claims.typ is token_type_mfa_challenge) || not (positive claims.user_id)
      then err invalid
      else ok
          (record { user_id = claims.user_id; remember = claims.remember; method = claims.method })

  unfoldable pub parse_mfa_challenge : Text → Text → Result MfaChallenge
  parse_mfa_challenge token secret =
      if (trim_space token is []) || (trim_space secret is [])
      then err invalid
      else challenge_of (parse_with_claims (trim_space secret) (trim_space token))

  abbrev pub positive_or : ℤ → Option ℤ → ℤ
  positive_or id none = id
  positive_or id (some parsed) = if positive parsed then parsed else id

  -- `claims.UserID`, or the subject where that is not positive.
  unfoldable pub user_id_of : UserClaims → ℤ
  user_id_of claims =
      if positive claims.user_id
      then claims.user_id
      else if claims.subject is []
      then claims.user_id
      else positive_or claims.user_id (parse_int claims.subject)

  abbrev pub user_claims_of : Parsed → Result UserClaims
  user_claims_of out_of_date = err expired
  user_claims_of broken = err invalid
  user_claims_of (valid claims) =
      if not (claims.typ is []) && not (claims.typ is token_type_user)
      then err invalid
      else if positive (user_id_of claims)
      then ok (record claims { user_id = user_id_of claims })
      else err invalid

  unfoldable pub parse_user_token : Text → Text → Result UserClaims
  parse_user_token token secret =
      if (trim_space token is []) || (trim_space secret is [])
      then err invalid
      else user_claims_of (parse_with_claims (trim_space secret) (trim_space token))
