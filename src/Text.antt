-- ===== src/Text.antt =====
-- Python's `str`, as the list of its code points, with the methods that the scripts call.
mod Defs
pub mod Equality
pub mod Pieces
pub mod Words
pub mod Numbers
unfoldable pub use Defs.*
