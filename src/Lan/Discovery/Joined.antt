-- ===== src/Lan/Discovery/Joined.antt =====
-- A node that announces itself is taken in.
use quake_mesh.Base.{
  ◌≡◌, ◌≢◌, refl, inl, inr, Bool, true, Option, none, some, [], Option-cases, suc, not, if_elim,
  take_all, length, ◌≤◌, ◌==◌,
}
use quake_mesh.Base.Float.{FloatOps}
use quake_mesh.Base.Text.{Text, text_eq, text_beq_refl}
use quake_mesh.Storage.{
  NodeId, Millis, Float64, Db, Result, ok, err, Healthy, query, exec, transaction,
}
use quake_mesh.Registry.Nodes.{node, online, record_seen, upsert_seen, update_profile}
use quake_mesh.Daemon.{Codec}
use quake_mesh.Lan.{Context, Library}
use quake_mesh.Lan.Segments.{entity_node, record_membership}
use quake_mesh.Lan.Heartbeat
use quake_mesh.Lan.Heartbeat.{ignoring, parse_node_id, presence_recorded, register_presence}
use quake_mesh.Lan.Heartbeat.Online.{
  IsOnline, record_membership-nodes, same_nodes-IsOnline, update_profile-IsOnline,
}
use quake_mesh.Lan.Heartbeat.Presence.{register_presence-Up}
use quake_mesh.Lan.Beacon.{Json, Message, kind_node, node_beacon}
use quake_mesh.Lan.Beacon.Wire.{decode-encode}
use quake_mesh.Lan.Discovery.{
  Config, Engine, buffer_size, handle_decoded, handle_node_beacon, handle_of, node_registered,
  receive_datagram, register_node, store_beacon_membership,
}

upsert_seen_up :
    (id : NodeId) (ts : Millis) (db : Db)
    → Healthy db
    → (b : Bool) × ((upsert_seen id ts db).0 ≡ ok b)
unfolding upsert_seen transaction query record_seen exec
upsert_seen_up id ts db up = elim (Option-cases (node id db.tables)) [
  | inl new ↦ (
    true,
    rw (up db.done) (
        rw (up (suc db.done))
          (rw new (rw (up (suc (suc db.done))) (rw (up (suc (suc (suc db.done)))) refl)))),
  )
  | inr (r, known) ↦ (
    not (r.status == online),
    rw (up db.done) (
        rw (up (suc db.done))
          (rw known (rw (up (suc (suc db.done))) (rw (up (suc (suc (suc db.done)))) refl)))),
  )
]

presence_ok :
    (cfg : Heartbeat.Config) (id : NodeId) (lat lon : Option Float64) (now : Millis)
    (s : Heartbeat.Server) (r : Result Bool × Db) {b : Bool}
    → r.0 ≡ ok b
    → (presence_recorded cfg id lat lon now s r).0 ≡ ok b
unfolding presence_recorded
presence_ok cfg id lat lon now s (err x, db) h = cc
presence_ok cfg id lat lon now s (ok c, db) h = h

module _ (f : FloatOps) (lib : Library) (json : Json) (codec : Codec) (cfg : Config) (id : NodeId)
    (now later : Millis) where
  abbrev Known : Engine → Type 0
  Known e = IsOnline id now e.server.db.tables

  store_beacon_membership-Known :
      (o : Option Context) (e : Engine)
      → Known e
      → Known (store_beacon_membership f lib json codec cfg id o later e)
  unfolding store_beacon_membership
  store_beacon_membership-Known none e h = h
  store_beacon_membership-Known (some c) e h =
      if_elim Known cfg.has_segments
        (same_nodes-IsOnline id now e.server.db.tables
          (record_membership f lib entity_node id c later e.server.db).1.tables
          (record_membership-nodes f lib entity_node id c later e.server.db) h)
        h

  node_registered-Known :
      (m : Message) (e : Engine) (r : Result Bool × Heartbeat.Server) {b : Bool}
      → r.0 ≡ ok b
      → IsOnline id now r.1.db.tables
      → Known (node_registered f lib json codec cfg id m later e r)
  unfolding node_registered
  node_registered-Known m e (err x, s) done h = cc
  node_registered-Known m e (ok changed, s) done h =
      let handle = handle_of f lib json codec cfg m.handle in
      store_beacon_membership-Known m.lan_context
        (record e { server = ignoring (update_profile id handle m.home_lat m.home_lon) s })
        (update_profile-IsOnline id now handle m.home_lat m.home_lon s.db h)

  register_presence-ok :
      (lat lon : Option Float64) (s : Heartbeat.Server)
      → Healthy s.db
      → (b : Bool) × ((register_presence cfg.notifier id lat lon now s).0 ≡ ok b)
  unfolding register_presence
  register_presence-ok lat lon s up =
      let (b, done) = upsert_seen_up id now s.db up in
      (b, presence_ok cfg.notifier id lat lon now s (upsert_seen id now s.db) done)

  -- Where the database works and JSON reads back what it wrote for the message, a hub that receives
  -- the beacon of a node, of at most 2048 bytes, has the node in its registry, online and last seen
  -- at that time.
  pub receive_datagram-IsOnline :
      (name handle payload : Text) (home_lat home_lon lat lon accuracy_m : Option Float64)
      (lan : Option Context) (e : Engine)
      → let m : Message = record {
        v = 1;
        kind = kind_node;
        node_id = name;
        handle = handle;
        home_lat = home_lat;
        home_lon = home_lon;
        heartbeat_port = 0;
        ogm_port = 0;
        lat = lat;
        lon = lon;
        accuracy_m = accuracy_m;
        lan_context = lan;
      } in
        Healthy e.server.db
        → parse_node_id codec name ≡ some id
        → ((t : Text) → json.marshal m ≡ some t → json.unmarshal t ≡ some m)
        → json.marshal m ≢ some []
        → node_beacon json name handle home_lat home_lon lat lon accuracy_m lan ≡ some payload
        → length payload ≤ buffer_size
        → IsOnline id now
            (receive_datagram f lib json codec cfg payload now later e).server.db.tables
  unfolding receive_datagram handle_decoded handle_node_beacon register_node node_beacon
  receive_datagram-IsOnline name handle payload home_lat home_lon lat lon accuracy_m lan e up known
        reads writes wrote small =
      let m : Message = record {
        v = 1;
        kind = kind_node;
        node_id = name;
        handle = handle;
        home_lat = home_lat;
        home_lon = home_lon;
        heartbeat_port = 0;
        ogm_port = 0;
        lat = lat;
        lon = lon;
        accuracy_m = accuracy_m;
        lan_context = lan;
      } in
      let (b, done) = register_presence-ok lat lon e.server up in
      let arrived = register_presence cfg.notifier id lat lon now e.server in
      rw (take_all buffer_size payload small) (
        rw (decode-encode json m payload reads writes wrote) (
          rw (text_beq_refl kind_node) (
            rw known (
              node_registered-Known m e arrived done
                (register_presence-Up id now cfg.notifier lat lon e.server done)))))
