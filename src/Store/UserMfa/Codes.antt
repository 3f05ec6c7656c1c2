-- ===== src/Store/UserMfa/Codes.antt =====
-- A recovery code as it is shown, with its dash, and as it is hashed.
use mathlib.Core.List.{reverse_aux, reverse-reverse}
use dorian_back_end.Prelude.{
  ℕ, zero, suc, All-weaken, ◌≡◌, refl, ap, ap₂, true, false, ◌&&◌, ◌||◌, [], ◌∷◌, ◌++◌, reverse,
  take, drop, All, arith, leb, ◌==◌,
}
use dorian_back_end.Text.{Text, to_lower, trim_space, remove_all}
use dorian_back_end.Text.Equal.{lower_char}
use dorian_back_end.Text.Space.{is_space, trim_left}
use dorian_back_end.Store.UserMfa.{normalize_recovery_code, display_code}

-- The alphabet of base32 in lower case.
abbrev pub IsBase32 : ℕ → Type 0
IsBase32 c = (leb b'a' c && leb c b'z' || leb b'2' c && leb c b'7') ≡ true

-- A character that trimming and lowering leave alone.
abbrev IsPlain : ℕ → Type 0
IsPlain c = (is_space c ≡ false) × (lower_char c ≡ c)

IsPlain-IsBase32 : (c : ℕ) → IsBase32 c → IsPlain c
unfolding is_space lower_char
IsPlain-IsBase32 c h = (ground arith, ground arith)

to_lower-IsPlain : (s : Text) → All IsPlain s → to_lower s ≡ s
unfolding to_lower
to_lower-IsPlain [] h = refl
to_lower-IsPlain (c ∷ s) (plain, rest) = ap₂ (λ x y. x ∷ y) plain.1 (to_lower-IsPlain s rest)

trim_left-IsPlain : (s : Text) → All IsPlain s → trim_left s ≡ s
unfolding trim_left
trim_left-IsPlain [] h = refl
trim_left-IsPlain (c ∷ s) (plain, rest) = rw plain.0 refl

All-reverse_aux : (s acc : Text) → All IsPlain s → All IsPlain acc → All IsPlain (reverse_aux s acc)
All-reverse_aux [] acc h k = k
All-reverse_aux (c ∷ s) acc (plain, rest) k = All-reverse_aux s (c ∷ acc) rest (plain, k)

trim_space-IsPlain : (s : Text) → All IsPlain s → trim_space s ≡ s
unfolding trim_space
trim_space-IsPlain s h =
    rw (trim_left-IsPlain s h, trim_left-IsPlain (reverse s) (All-reverse_aux s [] h tt))
      (reverse-reverse s)

remove_all-absent : (c : ℕ) (s : Text) → All (λ x. (x == c) ≡ false) s → remove_all c s ≡ s
unfolding remove_all
remove_all-absent c [] h = refl
remove_all-absent c (d ∷ s) (other, rest) = ground (arith, other, remove_all-absent c s rest)

remove_all-middle :
    (c : ℕ) (s t : Text) → remove_all c (s ++ (c ∷ t)) ≡ remove_all c s ++ remove_all c t
unfolding remove_all
remove_all-middle c [] t = ground arith
remove_all-middle c (d ∷ s) t = ground (arith, remove_all-middle c s t)

take-append-drop : (n : ℕ) (s : Text) → take n s ++ drop n s ≡ s
take-append-drop zero s = refl
take-append-drop (suc n) [] = refl
take-append-drop (suc n) (c ∷ s) = ap (λ x. c ∷ x) (take-append-drop n s)

All-take : (P : ℕ → Type 0) (n : ℕ) (s : Text) → All P s → All P (take n s)
All-take P zero s h = tt
All-take P (suc n) [] h = tt
All-take P (suc n) (c ∷ s) h = (h.0, All-take P n s h.1)

All-drop : (P : ℕ → Type 0) (n : ℕ) (s : Text) → All P s → All P (drop n s)
All-drop P zero s h = h
All-drop P (suc n) [] h = tt
All-drop P (suc n) (c ∷ s) h = All-drop P n s h.1

All-insert : (P : ℕ → Type 0) (c : ℕ) (s t : Text) → P c → All P s → All P t → All P (s ++ (c ∷ t))
All-insert P c [] t p h k = (p, k)
All-insert P c (d ∷ s) t p h k = (h.0, All-insert P c s t p h.1 k)

no_dash : (c : ℕ) → IsBase32 c → (c == b'-') ≡ false
no_dash c h = ground arith

no_blank : (c : ℕ) → IsBase32 c → (c == b' ') ≡ false
no_blank c h = ground arith

dash-IsPlain : IsPlain b'-'
unfolding is_space lower_char
dash-IsPlain = (refl, refl)

-- A recovery code as it is shown normalises to the base32 text that was drawn and hashed.
pub normalize_recovery_code-display_code :
    (raw : Text) → All IsBase32 raw → normalize_recovery_code (display_code raw) ≡ raw
unfolding normalize_recovery_code display_code
normalize_recovery_code-display_code raw h =
    let plain = All-weaken IsBase32 IsPlain raw IsPlain-IsBase32 h in
    let shown =
      All-insert IsPlain b'-' (take 5 raw) (drop 5 raw) dash-IsPlain (All-take IsPlain 5 raw plain)
        (All-drop IsPlain 5 raw plain) in
    let undashed = All-weaken IsBase32 (λ c. (c == b'-') ≡ false) raw no_dash h in
    let unspaced = All-weaken IsBase32 (λ c. (c == b' ') ≡ false) raw no_blank h in
    rw
      (
        trim_space-IsPlain (take 5 raw ++ (b'-' ∷ drop 5 raw)) shown,
        to_lower-IsPlain (take 5 raw ++ (b'-' ∷ drop 5 raw)) shown,
        remove_all-middle b'-' (take 5 raw) (drop 5 raw),
        remove_all-absent b'-' (take 5 raw) (All-take _ 5 raw undashed),
        remove_all-absent b'-' (drop 5 raw) (All-drop _ 5 raw undashed),
        take-append-drop 5 raw,
      )
      (remove_all-absent b' ' raw unspaced)
