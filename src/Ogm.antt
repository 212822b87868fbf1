-- ===== src/Ogm.antt =====
-- hub/internal/ogmengine: originator messages between hubs, and the routes learnt from them.
pub mod State
pub mod Flood
pub mod Choice
pub mod Receive
pub mod Stale
