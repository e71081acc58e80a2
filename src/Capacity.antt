-- ===== src/Capacity.antt =====
-- The request for huge pages: ansible/files/validate_host_capacity.py.
pub mod Pool
pub mod Bounds
pub mod Accepted
mod Tests
