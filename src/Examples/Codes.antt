-- ===== src/Examples/Codes.antt =====
-- A one-time code that a toy MAC makes, in the second after its step began.
use dorian_back_end.Prelude.{
  ◌≡◌, ◌≢◌, refl, ◌+◌, ◌%◌, ◌/◌, some, Option, List, [], ◌∷◌, ℕ, pos, negsuc, ◌<ℤ◌, All, length,
}
use dorian_back_end.Text.{Text, codes, to_upper, trim_space, remove_all, byte_length, digits_value}
use dorian_back_end.Auth.Totp.{
  totp_code, validate_totp, totp_digits, totp_period, offsets, truncated, big_endian, to_uint64,
}
use dorian_back_end.Auth.Totp.Accept.{IsNear, validate_totp_sound}

-- Twenty bytes that depend on the key and on the last two bytes of the counter.
abbrev toy_mac : List ℕ → List ℕ → List ℕ
toy_mac key (a ∷ b ∷ c ∷ d ∷ e ∷ f ∷ g ∷ h ∷ []) = h ∷ g ∷ h ∷ g ∷ h ∷ g ∷ key
toy_mac key bytes = key

abbrev key : List ℕ
key = 9 ∷ 8 ∷ 7 ∷ 6 ∷ 5 ∷ 4 ∷ 3 ∷ 2 ∷ 1 ∷ 9 ∷ 8 ∷ 7 ∷ 6 ∷ 0 ∷ []

abbrev decoder : Text → Option (List ℕ)
decoder s = some key

abbrev entered : Text
entered = totp_code toy_mac key (pos 33)

validate_totp_sound_example :
    (k : List ℕ) × (decoder (to_upper (trim_space (codes "k"))) ≡ some k)
    × (k ≢ [])
    × (byte_length (remove_all b' ' (trim_space entered)) ≡ totp_digits)
    × (pos 32 <ℤ pos 33)
    × (totp_code toy_mac k (pos 33) ≡ remove_all b' ' (trim_space entered))
    × IsNear toy_mac (1001 / 30) (pos 33)
unfolding validate_totp byte_length remove_all trim_space totp_code
    dorian_back_end.Auth.Totp.usable_key dorian_back_end.Auth.Totp.matching_step
    dorian_back_end.Prelude.◌+ℤ◌ dorian_back_end.Text.◌is◌
validate_totp_sound_example =
    validate_totp_sound toy_mac decoder (codes "k") entered 1001 (pos 32) (pos 33) refl
