-- ===== src/Services.antt =====
-- The test cases of lib/oeqa/runtime/cases that run the commands of one package.
pub mod Aide
pub mod Apparmor
pub mod Checksec
pub mod Firejail
pub mod Sssd
pub mod Resolv
pub mod Clamav
pub mod Suricata
pub mod Samhain
pub mod Tripwire
pub mod Contract
pub mod Unnamed
pub mod Tests
