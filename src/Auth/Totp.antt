-- ===== src/Auth/Totp.antt =====
-- internal/auth/totp.go: time-based one-time codes. Base32 and HMAC-SHA1 are parameters; a key and a
-- MAC are lists of bytes. `none` is Go's `(0, false)`.
pub mod Accept
pub mod Digits
use dorian_back_end.Prelude.{
  ℕ, zero, suc, ◌+◌, ◌-◌, ◌*◌, ◌/◌, ◌%◌, ◌^◌, Bool, not, ◌||◌, Option, none, some, List, [], ◌∷◌,
  ◌==◌, if◌then◌else◌, ℤ, pos, negsuc, ◌+ℤ◌, leb_ℤ,
}
use dorian_back_end.Text.{Text, ◌is◌, trim_space, remove_all, byte_length, to_upper}

abbrev pub totp_period : ℕ
totp_period = 30

abbrev pub totp_digits : ℕ
totp_digits = 6

-- From `-totpSkew` to `totpSkew`.
abbrev pub offsets : List ℤ
offsets = negsuc 0 ∷ pos 0 ∷ pos 1 ∷ []

-- `uint64(step)`.
unfoldable pub to_uint64 : ℤ → ℕ
to_uint64 (pos n) = n % 2 ^ 64
to_uint64 (negsuc n) = (2 ^ 64 - suc n % 2 ^ 64) % 2 ^ 64

-- `binary.BigEndian.PutUint64`.
unfoldable pub big_endian : ℕ → List ℕ
big_endian n =
    n / 2 ^ 56 % 256
    ∷ n / 2 ^ 48 % 256
    ∷ n / 2 ^ 40 % 256
    ∷ n / 2 ^ 32 % 256
    ∷ n / 2 ^ 24 % 256
    ∷ n / 2 ^ 16 % 256
    ∷ n / 2 ^ 8 % 256
    ∷ n % 256
    ∷ []

-- The byte at an index; a SHA-1 sum has 20, and the indices in use are below 20.
unfoldable pub byte_at : List ℕ → ℕ → ℕ
byte_at [] i = 0
byte_at (b ∷ bs) zero = b
byte_at (b ∷ bs) (suc i) = byte_at bs i

unfoldable pub last_byte : List ℕ → ℕ
last_byte [] = 0
last_byte (b ∷ []) = b
last_byte (b ∷ c ∷ bs) = last_byte (c ∷ bs)

-- `binary.BigEndian.Uint32(sum[offset:offset+4]) & 0x7fffffff`.
unfoldable pub truncated : List ℕ → ℕ
unfolding byte_at last_byte
truncated sum =
    let o = last_byte sum % 16 in
    (byte_at sum o * 2 ^ 24
      + byte_at sum (o + 1) * 2 ^ 16
      + byte_at sum (o + 2) * 2 ^ 8
      + byte_at sum (o + 3))
    % 2 ^ 31

-- `fmt.Sprintf("%0*d", totpDigits, value%1_000_000)`.
unfoldable pub six_digits : ℕ → Text
six_digits v =
    (b'0' + v / 100000 % 10)
    ∷ (b'0' + v / 10000 % 10)
    ∷ (b'0' + v / 1000 % 10)
    ∷ (b'0' + v / 100 % 10)
    ∷ (b'0' + v / 10 % 10)
    ∷ (b'0' + v % 10)
    ∷ []

-- `err != nil || len(key) == 0`.
unfoldable pub usable_key : Option (List ℕ) → Option (List ℕ)
usable_key none = none
usable_key (some []) = none
usable_key (some (b ∷ key)) = some (b ∷ key)

module _ (mac : List ℕ → List ℕ → List ℕ) where
  unfoldable pub totp_code : List ℕ → ℤ → Text
  unfolding to_uint64 big_endian truncated six_digits
  totp_code key step = six_digits (truncated (mac key (big_endian (to_uint64 step))) % 1000000)

  -- The loop over the offsets; `continue` at a step that is not behind `last_step`.
  unfoldable pub matching_step : List ℕ → Text → ℕ → ℤ → List ℤ → Option ℤ
  matching_step key code current last_step [] = none
  matching_step key code current last_step (offset ∷ rest) =
      let step = pos current +ℤ offset in
      let later = matching_step key code current last_step rest in
      if leb_ℤ step last_step
      then later
      else if totp_code key step is code
      then some step
      else later

  -- `decode` is the base32 decoder; `now` is in seconds.
  unfoldable pub validate_totp : (Text → Option (List ℕ)) → Text → Text → ℕ → ℤ → Option ℤ
  validate_totp decode secret code now last_step =
      let digits = remove_all b' ' (trim_space code) in
      if not (byte_length digits == totp_digits)
      then none
      else elim (usable_key (decode (to_upper (trim_space secret)))) [
        | none ↦ none
        | some key ↦ matching_step key digits (now / totp_period) last_step offsets
      ]
