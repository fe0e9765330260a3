-- ===== src/Smack.antt =====
-- lib/oeqa/runtime/cases/smack.py: the class `SmackBasicTest`.
pub mod Defs
pub mod Labels
pub mod Pieces
pub mod RoundTrip
pub mod Fields
pub mod Table
pub mod Files
pub mod Rules
pub mod Settings
pub mod Tests
