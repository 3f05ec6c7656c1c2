-- ===== src/Api/Params/Laws.antt =====
-- What `parseID` and `parseIDWithSuffix` accept, and the ids that they return.
use mathlib.Core.List.{append_assoc}
use dorian_back_end.Text.Split.{contains-append}
use dorian_back_end.Prelude.{
  ℕ, ◌≤◌, ◌<◌, ◌≡◌, refl, ap, ◌∙◌, true, false, some, [], ◌++◌, arith, pos, negsuc, ℤ, inl, inr,
  Bool-cases, ◌⊎◌,
}
use dorian_back_end.Text.{
  Text, ◌is◌, max_int64, parse_int, format_nat, contains, contains-format_nat, format_nat_head,
  parse_int-format_nat, has_prefix, trim_prefix, has_suffix, trim_suffix,
}
use dorian_back_end.Text.Affix.{
  has_prefix-append, trim_prefix-append, has_prefix_split, trim_suffix-append, trim_suffix_cases,
  has_suffix-append,
}
use dorian_back_end.Text.Decimal.{parse_int_range}
use dorian_back_end.Api.Params.{slash, id_of_raw, parse_id, parse_id_with_suffix}

-- A decimal print is not empty.
format_nat_is_nil : (n : ℕ) → (format_nat n is []) ≡ false
format_nat_is_nil n = let (c, s, e, lo, hi) = format_nat_head n in rw e (unfold ◌is◌ in refl)

-- The part between the affixes is read back from a decimal print.
id_of_raw-format_nat : (n : ℕ) → 0 < n → n ≤ max_int64 → id_of_raw (format_nat n) ≡ some (pos n)
unfolding id_of_raw
id_of_raw-format_nat n low fits =
    ground (arith, format_nat_is_nil n, contains-format_nat n, parse_int-format_nat n fits)

-- An accepted part has no slash, and gives a positive id that an `int64` holds.
pub id_of_raw_sound :
    (raw : Text) {id : ℤ}
    → id_of_raw raw ≡ some id
    → (n : ℕ) × (id ≡ pos n)
      × (0 < n)
      × (n ≤ max_int64)
      × (contains raw b'/' ≡ false)
      × (parse_int raw ≡ some id)
unfolding id_of_raw
id_of_raw_sound raw {id = pos n} h =
    (n, refl, ground arith, parse_int_range raw n (ground arith), ground arith, ground arith)
id_of_raw_sound raw {id = negsuc n} h = absurd (ground arith)

-- A path with the prefix is the prefix, the part that is read, and at most one slash.
path_of_raw :
    (path prefix : Text)
    → has_prefix path prefix ≡ true
    → let raw = trim_suffix (trim_prefix path prefix) slash in
      (path ≡ prefix ++ raw) ⊎ (path ≡ prefix ++ (raw ++ slash))
path_of_raw path prefix e =
    let rest = trim_prefix path prefix in
    let whole = has_prefix_split path prefix e in
    elim (trim_suffix_cases rest slash) [
      | inl same ↦ inl (rw same whole)
      | inr cut ↦ inr (whole ∙ ap (λ (t : Text). prefix ++ t) cut)
    ]

-- An id that `parseID` accepts is positive and fits in an `int64`; the path is the prefix, a
-- text without a slash that parses to the id, and at most one slash at the end.
pub parse_id_sound :
    (path prefix : Text) {id : ℤ}
    → parse_id path prefix ≡ some id
    → (n : ℕ) × (raw : Text) × (id ≡ pos n)
      × (0 < n)
      × (n ≤ max_int64)
      × (parse_int raw ≡ some id)
      × (contains raw b'/' ≡ false)
      × ((path ≡ prefix ++ raw) ⊎ (path ≡ prefix ++ (raw ++ slash)))
unfolding parse_id
parse_id_sound path prefix h = elim (Bool-cases (has_prefix path prefix)) [
  | inl e ↦
      let raw = trim_suffix (trim_prefix path prefix) slash in
      let (n, eq, low, fits, flat, parsed) = id_of_raw_sound raw (rw (e, parse_id) at h) in
      (n, raw, eq, low, fits, parsed, flat, path_of_raw path prefix e)
  | inr e ↦ absurd (ground arith)
]

slash-contains : contains slash b'/' ≡ true
unfolding contains
slash-contains = refl

trim_suffix_flat : (s : Text) → contains s b'/' ≡ false → trim_suffix s slash ≡ s
trim_suffix_flat s flat = elim (trim_suffix_cases s slash) [
  | inl same ↦ same
  | inr cut ↦ absurd (
      ground (
        arith,
        flat,
        ap (λ (t : Text). contains t b'/') cut,
        contains-append (trim_suffix s slash) slash b'/',
        slash-contains,
      ))
]

parse_id-append :
    (prefix r : Text) → parse_id (prefix ++ r) prefix ≡ id_of_raw (trim_suffix r slash)
unfolding parse_id
parse_id-append prefix r = simp (has_prefix-append, trim_prefix-append)

-- A positive id that an `int64` holds, printed behind the prefix, is read back, with or without one
-- slash at the end.
pub parse_id-format :
    (prefix : Text) (n : ℕ)
    → 0 < n
    → n ≤ max_int64
    → (parse_id (prefix ++ format_nat n) prefix ≡ some (pos n))
      × (parse_id (prefix ++ (format_nat n ++ slash)) prefix ≡ some (pos n))
unfolding parse_id
parse_id-format prefix n low fits = (
  rw (parse_id-append, trim_suffix_flat (format_nat n) (contains-format_nat n))
      (id_of_raw-format_nat n low fits),
  rw (parse_id-append, trim_suffix-append) (id_of_raw-format_nat n low fits),
)

-- `parseIDWithSuffix` reads a positive id back from between its affixes.
pub parse_id_with_suffix-format :
    (prefix suffix : Text) (n : ℕ)
    → 0 < n
    → n ≤ max_int64
    → parse_id_with_suffix (prefix ++ (format_nat n ++ suffix)) prefix suffix ≡ some (pos n)
unfolding parse_id_with_suffix
parse_id_with_suffix-format prefix suffix n low fits =
    simp (has_prefix-append, trim_prefix-append, trim_suffix-append, suffixed)
      (id_of_raw-format_nat n low fits)
  where
    suffixed : has_suffix (prefix ++ (format_nat n ++ suffix)) suffix ≡ true
    suffixed =
        rw (← append_assoc prefix (format_nat n) suffix)
          (has_suffix-append suffix (prefix ++ format_nat n))
