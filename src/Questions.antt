-- ===== src/Questions.antt =====
-- dynamic-layers/meta-perl/recipes-security/bastille/files/set_required_questions.py
pub mod Lines
pub mod Files
pub mod Script
pub mod Amend
pub mod Grows
pub mod Loops
pub mod Distros
pub mod Keep
pub mod Require
pub mod View
pub mod Refines
pub mod Insert
pub mod Newlines
pub mod Replace
pub mod Faults
pub mod Lost
pub mod Transform
pub mod Satisfied
pub mod Run
pub mod Shelf
pub mod Order
pub mod Config
pub mod Shape
pub mod Tests
