-- ===== src/Api/Params.antt =====
-- internal/api/params.go: ids in request paths. `none` is Go's `(0, false)`.
pub mod Laws
use dorian_back_end.Prelude.{
  Bool, not, ◌||◌, Option, none, some, [], ◌∷◌, if◌then◌else◌, ℤ, positive,
}
use dorian_back_end.Text.{
  Text, ◌is◌, has_prefix, trim_prefix, has_suffix, trim_suffix, contains, parse_int,
}

abbrev pub slash : Text
slash = b'/' ∷ []

-- `err != nil || id <= 0` gives `(0, false)`.
unfoldable pub parse_positive_int : Text → Option ℤ
parse_positive_int value = elim (parse_int value) [
  | none ↦ none
  | some parsed ↦ if positive parsed then some parsed else none
]

-- The checks that `parseID` and `parseIDWithSuffix` share, on the part between the affixes.
unfoldable pub id_of_raw : Text → Option ℤ
unfolding parse_positive_int
id_of_raw raw = if (raw is []) || contains raw b'/' then none else parse_positive_int raw

unfoldable pub parse_id : Text → Text → Option ℤ
parse_id path prefix =
    if not (has_prefix path prefix)
    then none
    else id_of_raw (trim_suffix (trim_prefix path prefix) slash)

unfoldable pub parse_id_with_suffix : Text → Text → Text → Option ℤ
parse_id_with_suffix path prefix suffix =
    if not (has_prefix path prefix) || not (has_suffix path suffix)
    then none
    else id_of_raw (trim_suffix (trim_prefix path prefix) suffix)
