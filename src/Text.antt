-- ===== src/Text.antt =====
-- The functions of Go's `strings` and `strconv` that the server calls, on the bytes of a string.
-- Case and white space are those of ASCII; a byte from 128 on is neither a letter in lower case
-- nor a space.
mod Case
mod Search
mod Split
mod Number
pub mod Laws
pub mod Decimal
pub mod Lines
unfoldable pub use Case.{is_space, is_lower, is_upper, lower, upper, to_lower, to_upper, title}
unfoldable pub use Search.{
  strip_prefix, has_prefix, trim_prefix, index, contains, trim_left, trim_right, trim, trim_space,
}
unfoldable pub use Split.{
  Parts, all_parts, new_part, add_byte, split_where, split, split_lines_from, split_lines, cut,
  before, fields,
}
unfoldable pub use Number.{number, atoi, atoi_value, digits_of, itoa}
pub use Laws.*
pub use Decimal.*
