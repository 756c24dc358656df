-- ===== src/Text.antt =====
-- JavaScript strings as lists of UTF-16 code units, with the string functions and the regular
-- expressions that the modelled code applies.
mod Basic
pub mod Patterns
pub mod Naturals
unfoldable pub use Basic.*
