-- ===== src/Notroot.antt =====
-- recipes-mac/smack/smack-test/notroot.py: a program that is run with another label, user and group.
pub mod Defs
pub mod Safety
pub mod Ends
pub mod Status
pub mod Root
pub mod Unlabelled
pub mod Tests
