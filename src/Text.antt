-- ===== src/Text.antt =====
-- Python's `str` as the list of its code points, and the methods of it that the program calls.
-- White space is that of `str.isspace`, which `strip`, `split` and the `\s` of `re` share.
mod Space
mod Search
pub mod Laws
pub mod Number
unfoldable pub use Space.*
unfoldable pub use Search.*
