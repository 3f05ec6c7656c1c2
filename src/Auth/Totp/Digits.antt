-- ===== src/Auth/Totp/Digits.antt =====
-- The digits of a code.
use dorian_back_end.Prelude.{
  ℕ, ◌%◌, ◌≤◌, ◌<◌, ◌≡◌, refl, List, [], ◌∷◌, some, arith, ℤ, length, All,
}
use dorian_back_end.Text.{Text, digits_value, byte_length}
use dorian_back_end.Auth.Totp.{totp_digits, big_endian, to_uint64, truncated, six_digits, totp_code}

abbrev pub IsDigit : ℕ → Type 0
IsDigit c = (b'0' ≤ c) × (c ≤ b'9')

six_digits_value : (v : ℕ) → v < 1000000 → digits_value 0 (six_digits v) ≡ some v
unfolding six_digits digits_value
six_digits_value v h = ground arith

six_digits-IsDigit : (v : ℕ) → All IsDigit (six_digits v)
unfolding six_digits
six_digits-IsDigit v = omega arith

-- Every code has the six characters that `ValidateTOTP` insists on, all of them decimal digits, and
-- spells the truncated MAC of the step modulo a million.
pub totp_code_digits :
    (mac : List ℕ → List ℕ → List ℕ) (key : List ℕ) (step : ℤ)
    → (length (totp_code mac key step) ≡ totp_digits)
      × All IsDigit (totp_code mac key step)
      × (digits_value 0 (totp_code mac key step)
          ≡ some (truncated (mac key (big_endian (to_uint64 step))) % 1000000))
unfolding totp_code
totp_code_digits mac key step = (refl, six_digits-IsDigit _, six_digits_value _ (omega arith))

-- Decimal digits take a byte each.
byte_length-All : (s : Text) → All IsDigit s → byte_length s ≡ length s
unfolding byte_length
byte_length-All [] h = refl
byte_length-All (c ∷ s) (digit, rest) = ground (arith, byte_length-All s rest)

pub byte_length-totp_code :
    (mac : List ℕ → List ℕ → List ℕ) (key : List ℕ) (step : ℤ)
    → byte_length (totp_code mac key step) ≡ 6
unfolding totp_code
byte_length-totp_code mac key step = byte_length-All _ (six_digits-IsDigit _)
