-- ===== src/Tests.antt =====
-- The theorems at concrete inputs.
pub mod Data
pub mod Mesh
pub mod Stores
pub mod Gossip
pub mod Bundles
pub mod Polls
pub mod Accounts
pub mod Pages
pub mod Local
pub mod Network
pub mod Streams
