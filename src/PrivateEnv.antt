-- ===== src/PrivateEnv.antt =====
-- The control plane's private environment file: scripts/control-plane/private_env.py.
pub mod Document
pub mod Operations
pub mod Written
pub mod Lines
pub mod Keys
pub mod Laws
pub mod Token
pub mod Fresh
pub mod Curl
pub mod Attempts
pub mod Restored
mod Tests
