-- ===== src/Auth/Jwt/Typed.antt =====
-- The types of tokens.
use dorian_back_end.Prelude.{
  ℕ, ◌≡◌, refl, ◌≢◌, true, false, ◌||◌, [], arith, ℤ, positive, Bool-cases, inl, inr,
}
use dorian_back_end.Text.{Text, ◌is◌, is_iff, trim_space}
use dorian_back_end.Action.{Result, ok}
use dorian_back_end.Auth.Jwt.{
  UserIdentity, claims_of_user, issue_user_token, UserClaims, MfaChallenge, Parsed, valid,
  out_of_date, broken, token_type_user, token_type_mfa_challenge, challenge_of, user_claims_of,
  parse_mfa_challenge, parse_user_token, user_id_of,
}

types_differ :
    (typ : Text)
    → (typ is token_type_mfa_challenge) ≡ true
    → ((typ is []) || (typ is token_type_user)) ≡ false
unfolding ◌is◌
types_differ typ h = rw ((is_iff typ token_type_mfa_challenge).0 h) refl

module _ (sign : Text → UserClaims → Result Text) (parse_with_claims : Text → Text → Parsed) where
  both_of :
      (p : Parsed) (claims : UserClaims) (challenge : MfaChallenge)
      → user_claims_of sign parse_with_claims p ≡ ok claims
      → challenge_of sign parse_with_claims p ≢ ok challenge
  both_of out_of_date claims challenge h g = ground arith
  both_of broken claims challenge h g = ground arith
  both_of (valid c) claims challenge h g = ground (arith, types_differ c.typ)

  -- No token under one secret is accepted both as a session and as a challenge of the second factor.
  pub challenge_is_no_session :
      (token secret : Text) (claims : UserClaims) (challenge : MfaChallenge)
      → parse_user_token sign parse_with_claims token secret ≡ ok claims
      → parse_mfa_challenge sign parse_with_claims token secret ≢ ok challenge
  unfolding parse_user_token parse_mfa_challenge
  challenge_is_no_session token secret claims challenge h g =
      elim (Bool-cases ((trim_space token is []) || (trim_space secret is []))) [
        | inl e ↦ ground arith
        | inr e ↦
            both_of (parse_with_claims (trim_space secret) (trim_space token)) claims challenge
              (rw e at h) (rw e at g)
      ]

  -- A token with more than spaces that `IssueUserToken` signed, and that the library reads back with its
  -- claims, is accepted as a session with these claims.
  issued_token_accepted :
      (user : UserIdentity) (secret token : Text) (now : ℕ) (ttl : ℤ)
      → issue_user_token sign parse_with_claims user secret now ttl ≡ ok token
      → parse_with_claims (trim_space secret) (trim_space token)
        ≡ valid (claims_of_user user now ttl)
      → (trim_space token is []) ≡ false
      → parse_user_token sign parse_with_claims token secret ≡ ok (claims_of_user user now ttl)
  unfolding issue_user_token parse_user_token user_id_of ◌is◌
  issued_token_accepted user secret token now ttl h reads there =
      elim (Bool-cases (trim_space secret is [])) [
        | inl e ↦ absurd (ground arith)
        | inr e ↦
            let owned : positive user.id ≡ true = ground arith in
            rw (there, e, reads, owned) (rw owned refl)
      ]
