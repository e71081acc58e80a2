-- ===== src/Checks.antt =====
-- The checks on texts that the planner and the journal share: percent decoding as
-- `urllib.parse.unquote` does it, and the regular expressions of `planning.py` and `journal.py`.
pub mod Unquote
pub mod Patterns
pub mod Kept
