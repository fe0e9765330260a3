-- ===== src/Ima.antt =====
-- meta-integrity/lib/oeqa/runtime/cases/ima.py: the class `IMACheck`.
pub mod Defs
pub mod Counting
pub mod Order
pub mod Hash
pub mod Sends
pub mod Tests
