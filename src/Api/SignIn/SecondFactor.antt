-- ===== src/Api/SignIn/SecondFactor.antt =====
-- internal/api/mfa_handlers.go: whether a user must pass a second factor, and the check of a code.
use dorian_back_end.Prelude.{
  ℕ, Bool, false, ◌&&◌, Option, none, some, [], ◌∷◌, reverse, leb, ◌==◌, if◌then◌else◌, ℤ,
}
use dorian_back_end.Text.{Text, codes, ◌is◌, trim_space, remove_all, byte_length}
use dorian_back_end.Action.{Result, ok, err, unavailable}
use dorian_back_end.Store.UserMfa.{MfaStatus}
use dorian_back_end.Api.SignIn.{MfaAccess}

abbrev pub is_digit : ℕ → Bool
is_digit c = leb b'0' c && leb c b'9'

unfoldable pub trim_left_digits : Text → Text
trim_left_digits [] = []
trim_left_digits (c ∷ s) = if is_digit c then trim_left_digits s else c ∷ s

-- `strings.Trim(s, "0123456789")`.
unfoldable pub trim_digits : Text → Text
trim_digits s = reverse (trim_left_digits (reverse (trim_left_digits s)))

module _ {S : Type 0} where
  abbrev pub status_seen : Result MfaStatus × S → Result Bool × S
  status_seen (ok status, s) = (ok status.enabled, s)
  status_seen (err unavailable, s) = (ok false, s)
  status_seen (err e, s) = (err e, s)

  unfoldable pub mfa_required_for_user : Option (MfaAccess S) → ℤ → S → Result Bool × S
  mfa_required_for_user none user_id s = (ok false, s)
  mfa_required_for_user (some mfa) user_id s = status_seen (mfa.status user_id s)

module _ {S : Type 0} (mfa : MfaAccess S) (validate : Text → Text → ℤ → Option ℤ) where
  abbrev pub advance_to : ℤ → Option ℤ → S → (Result Bool × Text) × S
  advance_to user_id none s = ((ok false, []), s)
  advance_to user_id (some step) s =
      let (advanced, t) = mfa.advance_step user_id step s in
      ((advanced, codes "authenticator code"), t)

  abbrev pub check_code : ℤ → Text → Result (Text × ℤ) × S → (Result Bool × Text) × S
  check_code user_id compact (err e, s) = ((err e, []), s)
  check_code user_id compact (ok (secret, last_step), s) =
      if secret is []
      then ((ok false, []), s)
      else advance_to user_id (validate secret compact last_step) s

  abbrev pub is_code : Text → Bool
  is_code compact = (byte_length compact == 6) && (trim_digits compact is [])

  abbrev pub check_recovery_code : ℤ → Text → S → (Result Bool × Text) × S
  check_recovery_code user_id code s =
      let (used, t) = mfa.consume_recovery_code user_id code s in ((used, codes "recovery code"), t)

  -- `validate` is `auth.ValidateTOTP` at the time of the call. With the answer comes how the code was
  -- checked.
  unfoldable pub verify_second_factor : ℤ → Text → S → (Result Bool × Text) × S
  verify_second_factor user_id raw s =
      let code = trim_space raw in
      let compact = remove_all b' ' code in
      if code is []
      then ((ok false, []), s)
      else if is_code compact
      then check_code user_id compact (mfa.secret user_id s)
      else check_recovery_code user_id code s
