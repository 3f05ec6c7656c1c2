-- ===== src/Text/Affix.antt =====
-- Prefixes and suffixes: `strings.HasPrefix`, `TrimPrefix`, `HasSuffix`, `TrimSuffix`.
use mathlib.Core.List.{reverse-reverse, reverse-append}
use mathlib.Core.Path.{◌≡⟨◌⟩◌, ◌∎}
use dorian_back_end.Prelude.{
  ◌≡◌, refl, sym, ap, ◌⊎◌, Bool, true, false, Option, none, some, [], ◌∷◌, ◌++◌, reverse, arith,
  ◌==◌, if◌then◌else◌, inl, inr, Option-cases,
}
use dorian_back_end.Text.Equal.{Text}

-- The rest of a text behind a prefix, if it has that prefix.
unfoldable pub strip : Text → Text → Option Text
strip s [] = some s
strip [] (p ∷ ps) = none
strip (c ∷ s) (p ∷ ps) = if c == p then strip s ps else none

unfoldable pub has_prefix : Text → Text → Bool
has_prefix s p = elim (strip s p) [ none ↦ false | some r ↦ true ]

unfoldable pub trim_prefix : Text → Text → Text
trim_prefix s p = elim (strip s p) [ none ↦ s | some r ↦ r ]

unfoldable pub has_suffix : Text → Text → Bool
unfolding has_prefix
has_suffix s p = has_prefix (reverse s) (reverse p)

unfoldable pub trim_suffix : Text → Text → Text
unfolding trim_prefix
trim_suffix s p = elim (strip (reverse s) (reverse p)) [ none ↦ s | some r ↦ reverse r ]

-- What is stripped was there.
pub strip_sound : (s p : Text) {r : Text} → strip s p ≡ some r → s ≡ p ++ r
unfolding strip
strip_sound s [] h = ground arith
strip_sound [] (p ∷ ps) h = ground arith
strip_sound (c ∷ s) (p ∷ ps) {r} h = ground (arith, strip_sound s ps {r = r})

-- A prefix is stripped.
pub strip-append : (p r : Text) → strip (p ++ r) p ≡ some r
unfolding strip
strip-append [] r = refl
strip-append (c ∷ p) r = ground (arith, strip-append p r)

pub has_prefix-append : (p r : Text) → has_prefix (p ++ r) p ≡ true
unfolding has_prefix
has_prefix-append p r = rw (strip-append p r, has_prefix)

pub trim_prefix-append : (p r : Text) → trim_prefix (p ++ r) p ≡ r
unfolding trim_prefix
trim_prefix-append p r = rw (strip-append p r, trim_prefix)

-- A text with a prefix is the prefix and the trimmed rest.
pub has_prefix_split : (s p : Text) → has_prefix s p ≡ true → s ≡ p ++ trim_prefix s p
unfolding has_prefix trim_prefix
has_prefix_split s p h = elim (Option-cases (strip s p)) [
  | inl e ↦ absurd (ground arith)
  | inr (r, e) ↦ rw (e, trim_prefix) (strip_sound s p e)
]

pub has_suffix-append : (p r : Text) → has_suffix (r ++ p) p ≡ true
unfolding has_suffix
has_suffix-append p r = rw (reverse-append r p) (has_prefix-append (reverse p) (reverse r))

pub trim_suffix-append : (p r : Text) → trim_suffix (r ++ p) p ≡ r
unfolding trim_suffix
trim_suffix-append p r =
    rw (reverse-append r p, trim_suffix)
      (rw (strip-append (reverse p) (reverse r), trim_suffix) (reverse-reverse r))

suffix_sound : (s p : Text) {r : Text} → strip (reverse s) (reverse p) ≡ some r → s ≡ reverse r ++ p
suffix_sound s p {r = r} e =
    s
    ≡⟨ sym (reverse-reverse s) ⟩ reverse (reverse s)
    ≡⟨ ap reverse (strip_sound (reverse s) (reverse p) e) ⟩ reverse (reverse p ++ r)
    ≡⟨ reverse-append (reverse p) r ⟩ reverse r ++ reverse (reverse p)
    ≡⟨ ap (λ (t : Text). reverse r ++ t) (reverse-reverse p) ⟩ reverse r ++ p ∎

-- A suffix is taken off, or the text is left as it is.
pub trim_suffix_cases : (s p : Text) → (trim_suffix s p ≡ s) ⊎ (s ≡ trim_suffix s p ++ p)
unfolding trim_suffix
trim_suffix_cases s p = elim (Option-cases (strip (reverse s) (reverse p))) [
  | inl e ↦ inl (rw (e, trim_suffix) refl)
  | inr (r, e) ↦ inr (rw (e, trim_suffix) (suffix_sound s p e))
]

-- A text with a suffix loses it.
pub has_suffix_split : (s p : Text) → has_suffix s p ≡ true → s ≡ trim_suffix s p ++ p
unfolding has_suffix has_prefix trim_suffix
has_suffix_split s p h = elim (Option-cases (strip (reverse s) (reverse p))) [
  | inl e ↦ absurd (ground arith)
  | inr (r, e) ↦ rw (e, trim_suffix) (suffix_sound s p e)
]
