-- ===== src/Text.antt =====
-- Go strings, and the functions of packages `strings` and `strconv` that the source calls.
-- A string is the list of its code points (valid UTF-8); `byte_length` is Go's `len`.
pub mod Equal
pub mod Affix
pub mod Space
pub mod Split
pub mod Decimal
pub mod Digits
pub use Equal.{Text, codes, is_iff, is_refl}
unfoldable pub use Equal.{◌is◌, member, equal_fold, to_lower, to_upper, byte_length}
unfoldable pub use Affix.{strip, has_prefix, trim_prefix, has_suffix, trim_suffix}
unfoldable pub use Space.{is_space, trim_left, trim_space, remove_all}
unfoldable pub use Split.{contains, split, split2, last_part}
pub use Decimal.{max_int64}
unfoldable pub use Decimal.{unsigned, digits_value, parse_int, format_nat, format_int}
pub use Digits.{contains-format_nat, format_nat_head, parse_int-format_nat}
