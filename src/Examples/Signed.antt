-- ===== src/Examples/Signed.antt =====
-- A session token and a challenge, under a toy signature.
use dorian_back_end.Prelude.{◌≡◌, ◌≢◌, refl, false, pos}
use dorian_back_end.Text.{Text, codes, ◌is◌}
use dorian_back_end.Action.{Result, ok}
use dorian_back_end.Auth.Jwt.{
  UserClaims, UserIdentity, MfaChallenge, Parsed, valid, claims_of_user, parse_user_token,
  parse_mfa_challenge,
}
use dorian_back_end.Auth.Jwt.Typed.{challenge_is_no_session}

abbrev ann : UserIdentity
ann = record {
  id = pos 7;
  email = codes " ann@example.org";
  name = codes "Ann";
  role = codes "Admin";
  session_id = codes "a1";
}

abbrev sign : Text → UserClaims → Result Text
sign key claims = ok (codes "T")

abbrev parse : Text → Text → Parsed
parse key token = valid (claims_of_user ann 1000 (pos 60))

accepted :
    parse_user_token sign parse (codes "T") (codes "k") ≡ ok (claims_of_user ann 1000 (pos 60))
unfolding parse_user_token ◌is◌ dorian_back_end.Text.trim_space dorian_back_end.Auth.Jwt.user_id_of
accepted = refl

abbrev challenge : MfaChallenge
challenge = record { user_id = pos 7; remember = false; method = codes "password" }

challenge_is_no_session_example :
    parse_mfa_challenge sign parse (codes "T") (codes "k") ≢ ok challenge
challenge_is_no_session_example =
    challenge_is_no_session sign parse (codes "T") (codes "k") (claims_of_user ann 1000 (pos 60))
      challenge accepted
