-- ===== src/Registry.antt =====
-- hub/internal/registry: the node, route, hub and relay tables of a hub.
pub mod Nodes
pub mod Routes
pub mod Hubs
pub mod Relays
