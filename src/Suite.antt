-- ===== src/Suite.antt =====
-- The decorators of the runtime tests, and the order in which OEQA may run them.
pub mod Defs
pub mod Services
pub mod Monitors
pub mod SmackTests
pub mod Platform
pub mod Order
pub mod Tests
