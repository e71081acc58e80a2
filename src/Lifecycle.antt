-- ===== src/Lifecycle.antt =====
-- The runner of lifecycle operations: src/kitdev_sandboxes/lifecycle.py.
pub mod Status
pub mod Run
pub mod Shown
pub mod Start
pub mod Laws
mod Tests
