-- ===== src/Text/Equal.antt =====
-- Texts, their equality, letter case and byte length.
use Prim.Native.Char.{code}
use Prim.Native.String.{String}
use dorian_back_end.Prelude.{
  ℕ, ◌+◌, ◌-◌, ◌≡◌, refl, ◌↔◌, Bool, true, false, ◌&&◌, ◌||◌, List, [], ◌∷◌, map, arith, ltb, leb,
  ◌==◌, if◌then◌else◌,
}

abbrev pub Text : Type 0
Text = List ℕ

-- The code points of a literal. `String` has its own `[]` and `∷`.
abbrev pub codes : String → Text
codes String.[] = []
codes (String.◌∷◌ c s) = code c ∷ codes s

infix 50 ◌is◌
-- Go's `==` on strings.
unfoldable pub ◌is◌ : Text → Text → Bool
[] is [] = true
[] is (c ∷ t) = false
(a ∷ s) is [] = false
(a ∷ s) is (c ∷ t) = a == c && (s is t)

pub is_iff : (s t : Text) → ((s is t) ≡ true) ↔ (s ≡ t)
unfolding ◌is◌
is_iff [] [] = ground arith
is_iff [] (c ∷ t) = ground arith
is_iff (a ∷ s) [] = ground arith
is_iff (a ∷ s) (c ∷ t) = ground (arith, is_iff s t)

pub is_refl : (s : Text) → (s is s) ≡ true
is_refl s = (is_iff s s).1 refl

-- Whether a text is in a list of texts (a `case` with several constants, a set of strings).
unfoldable pub member : Text → List Text → Bool
member s [] = false
member s (t ∷ ts) = (s is t) || member s ts

-- `strings.ToLower` on ASCII letters; no other letter is changed.
unfoldable pub lower_char : ℕ → ℕ
lower_char c = if leb b'A' c && leb c b'Z' then c + 32 else c

unfoldable pub to_lower : Text → Text
unfolding lower_char
to_lower = map lower_char

-- The fold of a code point whose orbit under `unicode.SimpleFold` meets ASCII: besides the two cases
-- of a letter, that is the long s and the Kelvin sign.
unfoldable pub fold_char : ℕ → ℕ
unfolding lower_char
fold_char c = if c == 0x17f then b's' else if c == 0x212a then b'k' else lower_char c

-- `strings.EqualFold`, exact where one of the texts is ASCII.
unfoldable pub equal_fold : Text → Text → Bool
unfolding fold_char
equal_fold s t = map fold_char s is map fold_char t

-- The number of bytes of a code point in UTF-8.
unfoldable pub char_width : ℕ → ℕ
char_width c = if ltb c 0x80 then 1 else if ltb c 0x800 then 2 else if ltb c 0x10000 then 3 else 4

-- `len(s)`.
unfoldable pub byte_length : Text → ℕ
unfolding char_width
byte_length [] = 0
byte_length (c ∷ s) = char_width c + byte_length s

-- `strings.ToUpper` on ASCII letters.
unfoldable pub upper_char : ℕ → ℕ
upper_char c = if leb b'a' c && leb c b'z' then c - 32 else c

unfoldable pub to_upper : Text → Text
unfolding upper_char
to_upper = map upper_char
