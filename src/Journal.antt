-- ===== src/Journal.antt =====
-- The write-ahead journal of an installation: src/kitdev_sandboxes/journal.py.
pub mod Texts
pub mod Record
pub mod Json
pub mod Policy
pub mod Directory
pub mod Codec
pub mod Files
pub mod Store
pub mod Session
pub mod Chains
pub mod Entries
pub mod Holds
pub mod Temps
pub mod Replace
pub mod Transition
pub mod Listing
pub mod Progress
pub mod Create
pub mod Crash
pub mod History
pub mod Walk
mod Sample
mod Tests
mod Examples
pub mod Shared
pub mod Roundtrip
