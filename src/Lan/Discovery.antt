-- ===== src/Lan/Discovery.antt =====
-- hub/internal/landiscovery/landiscovery.go: a hub that announces itself on its local network, and takes
-- in the nodes that do. Sockets, timers and the detection of the network are left out: what was
-- detected is an argument, and so are the clock and the socket's address.
pub mod Joined
use quake_mesh.Base.{
  ℕ, Bool, true, false, not, ◌&&◌, ◌||◌, Option, none, some, List, [], ◌∷◌, ◌++◌, take, leb, ◌==◌,
  if◌then◌else◌,
}
use quake_mesh.Base.Float.{FloatOps}
use quake_mesh.Base.Text.{Text, codes, text_eq}
use quake_mesh.Storage.{NodeId, Millis, Db, Result, ok, err}
use quake_mesh.Registry.Nodes.{online, update_profile}
use quake_mesh.Registry.Hubs.{upsert_hub_seen}
use quake_mesh.Daemon.{Codec}
use quake_mesh.Lan.{Context, Library, valid}
use quake_mesh.Lan.Segments.{entity_hub, entity_node, record_membership}
use quake_mesh.Lan.Heartbeat
use quake_mesh.Lan.Heartbeat.{ignoring, parse_node_id, register_presence}
use quake_mesh.Lan.Beacon.{
  Decoded, Json, Message, decode, decoded, hub_beacon, kind_node, malformed, no_beacon,
}

-- Ports below zero are 0 here; `notifier` is the configuration of the package nodeheartbeat that has
-- the same notifier.
pub record Config : Type 0 where
  pub hub_node_id : NodeId
  pub heartbeat_port : ℕ
  pub ogm_port : ℕ
  pub has_registry : Bool
  pub has_hub_notifier : Bool
  pub has_segments : Bool
  pub notifier : Heartbeat.Config

-- The database and the notices of nodes, the notices of hubs, and the beacons that were sent.
pub record Engine : Type 0 where
  pub server : Heartbeat.Server
  pub hub_notices : List (NodeId × Text)
  pub sent : List Text

abbrev pub on_server : (Heartbeat.Server → Heartbeat.Server) → Engine → Engine
on_server f e = record e { server = f e.server }

abbrev pub local_ip_of : Option Context → Text
local_ip_of none = []
local_ip_of (some c) = c.local_ip

-- The address that the hub gives for itself: the network's, the socket's, or none.
unfoldable pub liveness_ip : Option Context → Option Text → Text
liveness_ip lan none = if local_ip_of lan == [] then codes "0.0.0.0" else local_ip_of lan
liveness_ip lan (some socket) =
    if not (local_ip_of lan == [])
    then local_ip_of lan
    else if not (socket == [])
    then socket
    else codes "0.0.0.0"

abbrev pub buffer_size : ℕ
buffer_size = 2048

module _ (f : FloatOps) (lib : Library) (json : Json) (codec : Codec) (cfg : Config) where
  unfoldable pub liveness_stored : Engine → Result Bool × Db → Engine
  liveness_stored e (err x, db) = on_server (λ s. record s { db = db }) e
  liveness_stored e (ok changed, db) =
      let e₁ = on_server (λ s. record s { db = db }) e in
      if changed && cfg.has_hub_notifier
      then record e₁ { hub_notices = e₁.hub_notices ++ (cfg.hub_node_id, online) ∷ [] }
      else e₁

  unfoldable pub refresh_hub_liveness : Option Context → Option Text → Millis → Engine → Engine
  unfolding liveness_stored liveness_ip
  refresh_hub_liveness lan socket at e =
      if not cfg.has_registry || leb cfg.ogm_port 0
      then e
      else liveness_stored e
          (upsert_hub_seen cfg.hub_node_id (liveness_ip lan socket) cfg.ogm_port at e.server.db)

  abbrev pub send : Option Text → Engine → Engine
  send none e = e
  send (some payload) e = record e { sent = e.sent ++ payload ∷ [] }

  abbrev pub if_valid : Context → Option Context
  if_valid c = if valid c then some c else none

  unfoldable pub store_own_membership : Option Context → Millis → Engine → Engine
  store_own_membership none now e = e
  store_own_membership (some c) now e =
      if cfg.has_segments
      then on_server (ignoring (record_membership f lib entity_hub cfg.hub_node_id c now)) e
      else e

  -- `detected` is what `lancontext.Detect` gives.
  unfoldable pub send_hub_beacon : Context → Option Text → Millis → Engine → Engine
  unfolding store_own_membership refresh_hub_liveness
  send_hub_beacon detected socket now e =
      let lan = if_valid detected in
      send (hub_beacon json (codec.node_string cfg.hub_node_id) cfg.heartbeat_port cfg.ogm_port lan)
        (refresh_hub_liveness lan socket now (store_own_membership lan now e))

  abbrev pub handle_of : Text → Option Text
  handle_of [] = none
  handle_of (c ∷ t) = some (c ∷ t)

  unfoldable pub store_beacon_membership : NodeId → Option Context → Millis → Engine → Engine
  store_beacon_membership id none now e = e
  store_beacon_membership id (some c) now e =
      if cfg.has_segments
      then on_server (ignoring (record_membership f lib entity_node id c now)) e
      else e

  unfoldable pub node_registered :
      NodeId → Message → Millis → Engine → Result Bool × Heartbeat.Server → Engine
  unfolding store_beacon_membership
  node_registered id m later e (err x, s) = record e { server = s }
  node_registered id m later e (ok changed, s) =
      store_beacon_membership id m.lan_context later (record e {
        server = ignoring (update_profile id (handle_of m.handle) m.home_lat m.home_lon) s;
      })

  unfoldable pub register_node : Message → Millis → Millis → Option NodeId → Engine → Engine
  unfolding node_registered
  register_node m now later none e = e
  register_node m now later (some id) e =
      node_registered id m later e (register_presence cfg.notifier id m.lat m.lon now e.server)

  -- The clock is read once for the registry and once more for the segment.
  unfoldable pub handle_node_beacon : Message → Millis → Millis → Engine → Engine
  unfolding register_node
  handle_node_beacon m now later e = register_node m now later (parse_node_id codec m.node_id) e

  unfoldable pub handle_decoded : Decoded → Millis → Millis → Engine → Engine
  unfolding handle_node_beacon
  handle_decoded no_beacon now later e = e
  handle_decoded malformed now later e = e
  handle_decoded (decoded m) now later e =
      if m.kind == kind_node then handle_node_beacon m now later e else e

  -- One datagram of `receiveLoop`, which is read into a buffer and cut off where that ends.
  unfoldable pub receive_datagram : Text → Millis → Millis → Engine → Engine
  unfolding handle_decoded
  receive_datagram payload now later e =
      handle_decoded (decode json (take buffer_size payload)) now later e
