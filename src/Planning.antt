-- ===== src/Planning.antt =====
-- The host-change planner: src/kitdev_sandboxes/planning.py.
pub mod Types
pub mod Checked
pub mod Paths
pub mod Lifecycle
pub mod Facts
pub mod Directory
pub mod Build
pub mod Observed
pub mod Outcome
pub mod Loop
pub mod Built
pub mod Safety
mod Tests
