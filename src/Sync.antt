-- ===== src/Sync.antt =====
-- hub/internal/syncengine: the gossip between hubs.
pub mod Wire
pub mod Outgoing
pub mod Incoming
