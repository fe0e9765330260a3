-- ===== src/Cve.antt =====
-- The CVE checker selftest of lib/oeqa/selftest/cases/cvechecker.py.
pub mod Defs
pub mod Config
mod Tests
