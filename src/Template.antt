-- ===== src/Template.antt =====
-- The ownership journal of stable templates: scripts/control-plane/template-publication-state.py.
pub mod Record
pub mod Operations
pub mod Steps
pub mod Laws
pub mod Repeat
mod Tests
