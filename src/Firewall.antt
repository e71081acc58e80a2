-- ===== src/Firewall.antt =====
-- The HTTPS source allowlist: scripts/ingress/firewall_source_state.py, which keeps the manifest, and
-- src/kitdev_sandboxes/firewall_sources.py, which asks for changes and checks the answers.
pub mod Networks
pub mod Manifest
pub mod State
pub mod Client
pub mod Valid
pub mod Reads
pub mod Changes
pub mod Agree
mod Tests
