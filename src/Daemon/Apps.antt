-- ===== src/Daemon/Apps.antt =====
-- The daemon's handlers that register an app and look for its peers.
use quake_mesh.Base.{Bool, true, false, Option, none, some, List, [], ◌∷◌, ◌==◌, if◌then◌else◌}
use quake_mesh.Base.Text.{Text, text_eq}
use quake_mesh.Base.Map.{insert}
use quake_mesh.Storage.{NodeId, Millis, AppRecord, Db, Result, ok, err}
use quake_mesh.Apps
use quake_mesh.Bans.{is_locally_enforced}
use quake_mesh.Daemon.{
  Codec, Config, Session, Server, with_db, notify, app_presence_changed, Request, Response, failure,
  registered, peers_are, null_peers, method_not_allowed, unauthorized, bad_request, forbidden,
  internal_server_error, session_from_request, is_get, is_post,
}

pub record RegisterBody : Type 0 where
  pub app_id : Text
  pub app_name : Text
  pub app_version : Text

module _ (codec : Codec) (cfg : Config) where
  abbrev pub session_for : RegisterBody → Text → Session
  session_for body token = record {
    token = token;
    node_id = cfg.self_id;
    app_id = body.app_id;
    app_name = body.app_name;
    app_version = body.app_version;
  }

  abbrev pub presence_of : RegisterBody → Millis → AppRecord
  presence_of body now = record {
    node_id = cfg.self_id;
    app_id = body.app_id;
    app_name = body.app_name;
    app_version = body.app_version;
    last_reported = now;
  }

  unfoldable pub open_session : RegisterBody → Text → Server → Response × Server
  open_session body token s = (
    registered token (codec.node_string cfg.self_id),
    notify cfg.has_notifier (app_presence_changed cfg.self_id body.app_id body.app_version)
        (record s { sessions = insert token (session_for body token) s.sessions }),
  )

  unfoldable pub presence_stored :
      RegisterBody → Text → Server → Result (Unit {0}) × Db → Response × Server
  unfolding open_session
  presence_stored body token s (err e, db) = (failure internal_server_error, with_db s db)
  presence_stored body token s (ok u, db) = open_session body token (with_db s db)

  unfoldable pub admit : RegisterBody → Millis → Option Text → Server → Response × Server
  unfolding presence_stored open_session
  admit body now none s = (failure internal_server_error, s)
  admit body now (some token) s =
      if cfg.has_apps
      then presence_stored body token s (Apps.upsert (presence_of body now) s.dtn.db)
      else open_session body token s

  unfoldable pub ban_checked :
      RegisterBody → Millis → Option Text → Server → Result Bool × Db → Response × Server
  unfolding admit
  ban_checked body now token s (err e, db) = (failure internal_server_error, with_db s db)
  ban_checked body now token s (ok true, db) = (failure forbidden, with_db s db)
  ban_checked body now token s (ok false, db) = admit body now token (with_db s db)

  unfoldable pub register_app :
      Millis → Option Text → Option RegisterBody → Server → Response × Server
  unfolding ban_checked admit
  register_app now token none s = (failure bad_request, s)
  register_app now token (some body) s =
      if body.app_id == []
      then (failure bad_request, s)
      else if cfg.has_bans
      then ban_checked body now token s
          (is_locally_enforced cfg.local_hub body.app_id body.app_version s.dtn.db)
      else admit body now token s

  -- `handleRegister`: `token` is what `newToken` gives, and `none` where it fails.
  unfoldable pub handle_register :
      Millis → Option Text → Request → Option RegisterBody → Server → Response × Server
  unfolding register_app
  handle_register now token r body s =
      if is_post r.method then register_app now token body s else (failure method_not_allowed, s)

  -- What the loop of `handleDiscoverPeers` does with a peer: the ban that it looks up, if any.
  abbrev pub keeps : Result Bool → Bool
  keeps (ok false) = true
  keeps (ok true) = false
  keeps (err e) = false

  abbrev pub add_peer : NodeId → Result Bool × Db → List Text × Db → List Text × Db
  add_peer p verdict rest = if keeps verdict.0 then (codec.node_string p ∷ rest.0, rest.1) else rest

  unfoldable pub check_ban : Text → Result (Option AppRecord) × Db → Result Bool × Db
  check_ban app (err e, db) = (err e, db)
  check_ban app (ok none, db) = (ok false, db)
  check_ban app (ok (some rec), db) = is_locally_enforced cfg.local_hub app rec.app_version db

  unfoldable pub verdict_on : Text → NodeId → Db → Result Bool × Db
  unfolding check_ban
  verdict_on app p db = if cfg.has_bans then check_ban app (Apps.get p app db) else (ok false, db)

  unfoldable pub keep_allowed : Text → List NodeId → Db → List Text × Db
  unfolding verdict_on
  keep_allowed app [] db = ([], db)
  keep_allowed app (p ∷ peers) db =
      let v = verdict_on app p db in add_peer p v (keep_allowed app peers v.1)

  unfoldable pub peers_found : Text → Server → Result (List NodeId) × Db → Response × Server
  unfolding keep_allowed
  peers_found app s (err e, db) = (failure internal_server_error, with_db s db)
  peers_found app s (ok peers, db) =
      let r = keep_allowed app peers db in (peers_are r.0, with_db s r.1)

  unfoldable pub discover : Text → Text → Option Session → Server → Response × Server
  unfolding peers_found
  discover app constraint none s = (failure unauthorized, s)
  discover app constraint (some sess) s =
      if app == []
      then (failure bad_request, s)
      else if cfg.has_apps
      then peers_found app s (Apps.discover_peers app constraint s.dtn.db)
      else (null_peers, s)

  unfoldable pub handle_discover_peers : Request → Text → Text → Server → Response × Server
  unfolding discover
  handle_discover_peers r app constraint s =
      if is_get r.method
      then discover app constraint (session_from_request r s) s
      else (failure method_not_allowed, s)
