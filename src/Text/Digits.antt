-- ===== src/Text/Digits.antt =====
-- Decimal prints and `ParseInt`.
use dorian_back_end.Prelude.{
  ℕ, zero, suc, ◌+◌, ◌/◌, ◌%◌, ◌≤◌, ◌<◌, ◌≡◌, refl, false, some, [], ◌∷◌, arith, pos, ltb, inl, inr,
  Bool-cases,
}
use dorian_back_end.Text.Equal.{Text}
use dorian_back_end.Text.Split.{contains}
use dorian_back_end.Text.Decimal.{
  max_int64, digits_value, unsigned, parse_int, digits_onto, format_nat,
}

-- Reading the digits of `n` from 0 gives `n`, whatever follows.
digits_value-digits_onto :
    (f n : ℕ) (out : Text) → n < f → digits_value 0 (digits_onto f n out) ≡ digits_value n out
unfolding digits_onto
digits_value-digits_onto zero n out h = absurd (omega arith)
digits_value-digits_onto (suc f) n out h = elim (Bool-cases (ltb n 10)) [
  | inl e ↦ rw e (unfold digits_value in ground arith)
  | inr e ↦ rw e (
      rw (digits_value-digits_onto f (n / 10) ((b'0' + n % 10) ∷ out) (ground arith))
        (unfold digits_value in ground arith))
]

-- The first character is a digit.
digits_onto_head :
    (f n : ℕ) (out : Text)
    → n < f
    → (c : ℕ) × (s : Text) × (digits_onto f n out ≡ c ∷ s) × (b'0' ≤ c) × (c ≤ b'9')
unfolding digits_onto
digits_onto_head zero n out h = absurd (omega arith)
digits_onto_head (suc f) n out h = elim (Bool-cases (ltb n 10)) [
  | inl e ↦ (b'0' + n, out, rw e, omega arith, ground arith)
  | inr e ↦ rw e (digits_onto_head f (n / 10) ((b'0' + n % 10) ∷ out) (ground arith))
]

contains-digits_onto :
    (f n : ℕ) (out : Text) → contains (digits_onto f n out) b'/' ≡ contains out b'/'
unfolding digits_onto
contains-digits_onto zero n out = refl
contains-digits_onto (suc f) n out = elim (Bool-cases (ltb n 10)) [
  | inl e ↦ rw e (unfold contains in ground arith)
  | inr e ↦ rw e (
      rw (contains-digits_onto f (n / 10) ((b'0' + n % 10) ∷ out))
        (unfold contains in ground arith))
]

-- A decimal print has no slash, and is not empty.
pub contains-format_nat : (n : ℕ) → contains (format_nat n) b'/' ≡ false
unfolding format_nat
contains-format_nat n = rw (contains-digits_onto (suc n) n []) (unfold contains in refl)

pub format_nat_head :
    (n : ℕ) → (c : ℕ) × (s : Text) × (format_nat n ≡ c ∷ s) × (b'0' ≤ c) × (c ≤ b'9')
unfolding format_nat
format_nat_head n = digits_onto_head (suc n) n [] (omega arith)

unsigned-cons : (c : ℕ) (s : Text) → unsigned (c ∷ s) ≡ digits_value 0 (c ∷ s)
unfolding unsigned
unsigned-cons c s = refl

-- `FormatInt` then `ParseInt` is the identity on the numbers that an `int64` holds.
pub parse_int-format_nat : (n : ℕ) → n ≤ max_int64 → parse_int (format_nat n) ≡ some (pos n)
parse_int-format_nat n fits =
    let (c, s, e, lo, hi) = format_nat_head n in
    let value : digits_value 0 (format_nat n) ≡ some n =
      unfold format_nat digits_value in digits_value-digits_onto (suc n) n [] (omega arith) in
    rw e (unfold parse_int in ground (arith, unsigned-cons c s, value, e))
