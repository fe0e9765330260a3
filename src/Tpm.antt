-- ===== src/Tpm.antt =====
-- meta-tpm/lib/oeqa/runtime/cases: the classes `Tpm2Test` and `SwTpmTest`.
pub mod Endlines
pub mod Cases
pub mod Tests
