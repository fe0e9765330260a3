-- ===== src/Questions/Tests.antt =====
-- Runs of set_required_questions.py, and its theorems at concrete files.
mod Data
mod Lines
mod Files
mod Views
