-- ===== src/Preflight.antt =====
-- The read-only host evaluation of `doctor`: src/kitdev_sandboxes/preflight.py. Facts are given;
-- their collection from the host is not modelled here.
pub mod Checks
pub mod Evaluate
pub mod Laws
mod Tests
