-- ===== src/Lan/Heartbeat/Presence.antt =====
-- What an accepted report of a node leaves behind.
use quake_mesh.Base.{
  ◌≡◌, refl, Bool, true, false, not, ◌&&◌, ◌||◌, Option, none, some, [], if_elim, nat_eq,
  nat_beq_iff, ◌==◌,
}
use quake_mesh.Base.Float.{FloatOps}
use quake_mesh.Base.Text.{Text, text_eq}
use quake_mesh.Storage.{NodeId, Millis, Float64, NodeRow, Db, Result, ok, err}
use quake_mesh.Registry.Nodes.{node, online, upsert_seen}
use quake_mesh.Registry.Nodes.Seen.{seen_row, upsert_seen-rows}
use quake_mesh.Trust.Store.{record_proximity}
use quake_mesh.Daemon.{Codec, Method, is_post, Response, accepted}
use quake_mesh.Lan.{Context, Library}
use quake_mesh.Lan.Segments.{entity_node, record_membership}
use quake_mesh.Lan.Heartbeat.{
  Config, HeartbeatBody, Notice, Server, handle_heartbeat, heartbeat, heartbeat_from, is_given,
  locate, notify, parse_node_id, presence_recorded, register_presence, report, store_contact,
  store_membership, store_profile, with_local_ip, node_status_changed,
}
use quake_mesh.Lan.Heartbeat.Online.{
  exec-keeps, IsOnline, update_location-IsOnline, update_profile-IsOnline, record_membership-nodes,
  same_nodes-IsOnline,
}

module _ (id : NodeId) (now : Millis) where
  abbrev Up : Server → Type 0
  Up s = IsOnline id now s.db.tables

  pub notify-Up : (b : Bool) (n : Notice) (s : Server) → Up s → Up (notify b n s)
  notify-Up false n s h = h
  notify-Up true n s h = h

  locate-Up : (lat lon : Option Float64) (s : Server) → Up s → Up (locate id lat lon now s)
  unfolding locate
  locate-Up none lon s h = h
  locate-Up (some lat) none s h = h
  locate-Up (some lat) (some lon) s h = update_location-IsOnline id now lat lon s.db h

  store_profile-Up : (body : HeartbeatBody) (s : Server) → Up s → Up (store_profile id body s)
  unfolding store_profile
  store_profile-Up body s h =
      if_elim Up (is_given body.handle || is_given body.home_lat || is_given body.home_lon)
        (update_profile-IsOnline id now body.handle body.home_lat body.home_lon s.db h) h

  module _ (f : FloatOps) (lib : Library) (codec : Codec) (cfg : Config) where
    store_membership-Up :
        (remote : Text) (o : Option Context) (s : Server)
        → Up s
        → Up (store_membership f lib codec cfg id remote o now s)
    unfolding store_membership
    store_membership-Up remote none s h = h
    store_membership-Up remote (some c) s h =
        if_elim Up cfg.has_segments
          (same_nodes-IsOnline id now s.db.tables
            (record_membership f lib entity_node id (with_local_ip lib remote c) now s.db).1.tables
            (record_membership-nodes f lib entity_node id (with_local_ip lib remote c) now s.db) h)
          h

    store_contact-Up : (s : Server) → Up s → Up (store_contact f lib codec cfg id now s)
    unfolding store_contact record_proximity
    store_contact-Up s h =
        if_elim Up (cfg.has_trust && not (cfg.local_hub == 0))
          (exec-keeps (IsOnline id now) _ s.db h h) h

  -- A presence that was recorded is known.
  presence_recorded-Up :
      (cfg : Config) (lat lon : Option Float64) (s : Server) (r : Result Bool × Db) {b : Bool}
      → (r.0 ≡ ok b → IsOnline id now r.1.tables)
      → (presence_recorded cfg id lat lon now s r).0 ≡ ok b
      → Up (presence_recorded cfg id lat lon now s r).1
  unfolding presence_recorded
  presence_recorded-Up cfg lat lon s (err e, db) seen says = cc
  presence_recorded-Up cfg lat lon s (ok changed, db) seen says =
      notify-Up (changed && cfg.has_notifier) (node_status_changed id online)
        (locate id lat lon now (record s { db = db }))
        (locate-Up lat lon (record s { db = db }) (seen says))

  seen_row-online :
      (o : Option NodeRow)
      → ((seen_row id now o).status ≡ online) × ((seen_row id now o).last_seen ≡ now)
  seen_row-online none = (refl, refl)
  seen_row-online (some r) = (refl, refl)

  pub register_presence-Up :
      (cfg : Config) (lat lon : Option Float64) (s : Server) {b : Bool}
      → (register_presence cfg id lat lon now s).0 ≡ ok b
      → Up (register_presence cfg id lat lon now s).1
  unfolding register_presence
  register_presence-Up cfg lat lon s says =
      presence_recorded-Up cfg lat lon s (upsert_seen id now s.db)
        (λ done.
          let row = (upsert_seen-rows id id now s.db done).1 in
          let online_now = seen_row-online (node id s.db.tables) in
          (
            seen_row id now (node id s.db.tables),
            rw (row, (nat_beq_iff id id).1 refl) refl,
            online_now.0,
            online_now.1,
          ))
        says

module _ (f : FloatOps) (lib : Library) (codec : Codec) (cfg : Config) (remote : Text)
    (now : Millis) where
  report-Up :
      (id : NodeId) (body : HeartbeatBody) (r : Result Bool × Server)
      → ((b : Bool) → r.0 ≡ ok b → Up id now r.1)
      → (report f lib codec cfg id remote body now r).0 ≡ accepted
      → Up id now (report f lib codec cfg id remote body now r).1
  unfolding report
  report-Up id body (err e, s) h says = cc
  report-Up id body (ok changed, s) h says =
      store_contact-Up id now f lib codec cfg
        (store_membership f lib codec cfg id remote body.lan_context now (store_profile id body s))
        (store_membership-Up id now f lib codec cfg remote body.lan_context
          (store_profile id body s) (store_profile-Up id now body s (h changed refl)))

  heartbeat_from-Up :
      (body : HeartbeatBody) (o : Option NodeId) (s : Server)
      → (heartbeat_from f lib codec cfg remote body now o s).0 ≡ accepted
      → (id : NodeId) × (o ≡ some id)
        × Up id now (heartbeat_from f lib codec cfg remote body now o s).1
  unfolding heartbeat_from
  heartbeat_from-Up body none s says = cc
  heartbeat_from-Up body (some id) s says = (
    id,
    refl,
    report-Up id body (register_presence cfg id body.lat body.lon now s)
        (λ b done. register_presence-Up id now cfg body.lat body.lon s done) says,
  )

  -- A heartbeat that is answered ok has a body with a well-formed id, and its node is in the registry
  -- then, online and last seen at that time, whichever of the statements that follow the upsert fail.
  pub handle_heartbeat-IsOnline :
      (method : Method) (body : HeartbeatBody) (s : Server)
      → (handle_heartbeat f lib codec cfg method remote (some body) now s).0 ≡ accepted
      → (id : NodeId) × (parse_node_id codec body.node_id ≡ some id)
        × IsOnline id now
            (handle_heartbeat f lib codec cfg method remote (some body) now s).1.db.tables
  unfolding handle_heartbeat heartbeat
  handle_heartbeat-IsOnline method body s =
      let P : Response × Server → Type 0 = λ r.
        r.0 ≡ accepted
        → (id : NodeId) × (parse_node_id codec body.node_id ≡ some id)
          × IsOnline id now r.1.db.tables in
      if_elim P (is_post method)
        (if_elim P (body.node_id == []) (λ says. cc)
          (heartbeat_from-Up body (parse_node_id codec body.node_id) s))
        (λ says. cc)
