-- ===== src/Prelude/Strings.antt =====
-- Go strings as lists of bytes, and what the program uses of Go's `strings` package.
mod Defs
pub mod Split
pub mod Index
pub use Defs.{Bytes, codes, beq→eq, beq_refl, beq_iff, is_empty, prepend}
unfoldable pub use Defs.{
  beq, has_prefix, contains_byte, split, drop_empty, join, split_non_empty, last_index,
  replace_byte, trim_prefix, ends_with,
}
