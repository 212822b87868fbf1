-- ===== src/Monitor.antt =====
-- monitor: the parts of the monitor that keep a state.
pub mod Auth
pub mod Feed
pub mod Client
pub mod Server
pub mod Banning
