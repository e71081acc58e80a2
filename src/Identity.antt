-- ===== src/Identity.antt =====
-- The plan of the service accounts: src/kitdev_sandboxes/identity.py.
pub mod Types
pub mod Inputs
pub mod Mapping
pub mod Services
pub mod Actions
pub mod Build
pub mod Allocation
pub mod Reuse
pub mod Laws
mod Tests
