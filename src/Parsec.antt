-- ===== src/Parsec.antt =====
-- meta-parsec/lib/oeqa/runtime/cases/parsec.py: the class `ParsecTest`.
pub mod Defs
pub mod Providers
pub mod Fallback
pub mod Verdicts
pub mod Restored
pub mod Unnamed
pub mod Tests
