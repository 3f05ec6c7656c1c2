-- ===== src/Text/Split.antt =====
-- `strings.Contains` and `strings.Split` at a character, and `strings.SplitN(s, sep, 2)`.
use dorian_back_end.Text.Equal.{Text, ◌is◌}
use dorian_back_end.Prelude.{
  ℕ, ◌≡◌, refl, Bool, false, ◌||◌, Option, none, some, List, [], ◌∷◌, ◌++◌, arith, ◌==◌,
  if◌then◌else◌,
}

unfoldable pub contains : Text → ℕ → Bool
contains [] c = false
contains (d ∷ s) c = d == c || contains s c

abbrev onto_first : ℕ → List Text → List Text
onto_first d [] = (d ∷ []) ∷ []
onto_first d (p ∷ ps) = (d ∷ p) ∷ ps

-- All parts between the separators; a text without one is a single part.
unfoldable pub split : Text → ℕ → List Text
split [] c = [] ∷ []
split (d ∷ s) c = let rest = split s c in if d == c then [] ∷ rest else onto_first d rest

-- The two parts at the first separator; `none` where `SplitN(s, sep, 2)` has one part.
unfoldable pub split2 : Text → ℕ → Option (Text × Text)
split2 [] c = none
split2 (d ∷ s) c =
    let rest = split2 s c in
    if d == c then some ([], s) else elim rest [ none ↦ none | some (a, b) ↦ some (d ∷ a, b) ]

-- `parts[len(parts)-1]` of a split text.
unfoldable pub last_part : List Text → Text
last_part [] = []
last_part (p ∷ []) = p
last_part (p ∷ q ∷ ps) = last_part (q ∷ ps)

pub contains-append : (s t : Text) (c : ℕ) → contains (s ++ t) c ≡ (contains s c || contains t c)
unfolding contains
contains-append [] t c = refl
contains-append (d ∷ s) t c = ground (arith, contains-append s t c)

-- What stands before the first separator of a text, and what stands behind it.
pub split2_sound :
    (s : Text) (c : ℕ) (a b : Text)
    → split2 s c ≡ some (a, b)
    → (s ≡ a ++ c ∷ b) × (contains a c ≡ false)
unfolding split2 contains
split2_sound [] c a b h = ground arith
split2_sound (d ∷ s) c [] b h = ground arith
split2_sound (d ∷ s) c (x ∷ a) b h = ground (arith, split2_sound s c a b)

pub split2-append :
    (a b : Text) (c : ℕ) → contains a c ≡ false → split2 (a ++ c ∷ b) c ≡ some (a, b)
unfolding split2 contains
split2-append [] b c h = ground arith
split2-append (x ∷ a) b c h = ground (arith, split2-append a b c)

-- A text with a character in it is not empty.
pub append_is_nil : (s t : Text) (c : ℕ) → (s ++ (c ∷ t) is []) ≡ false
unfolding ◌is◌
append_is_nil [] t c = refl
append_is_nil (d ∷ s) t c = refl

-- A text without a separator is one part, and the first separator ends the first part.
pub split-flat : (s : Text) (c : ℕ) → contains s c ≡ false → split s c ≡ s ∷ []
unfolding split contains
split-flat [] c h = refl
split-flat (d ∷ s) c h = ground (arith, split-flat s c)

pub split-append :
    (s t : Text) (c : ℕ) → contains s c ≡ false → split (s ++ (c ∷ t)) c ≡ s ∷ split t c
unfolding split contains
split-append [] t c h = ground arith
split-append (d ∷ s) t c h = ground (arith, split-append s t c)
