-- ===== src/Lan/Heartbeat.antt =====
-- hub/internal/nodeheartbeat: what a node on the hub's local network reports over HTTP. HTTP, JSON and
-- hex are parameters; a request is given by its method, the address of its sender and its body as
-- the decoder gives it.
pub mod Online
pub mod Presence
pub mod Alarm
use quake_mesh.Base.{
  ℕ, zero, Bool, true, false, not, ◌&&◌, ◌||◌, Option, none, some, List, [], ◌∷◌, ◌++◌, nat_beq,
  nat_eq, ◌==◌, if◌then◌else◌,
}
use quake_mesh.Base.Float.{FloatOps}
use quake_mesh.Base.Int.{negsuc}
use quake_mesh.Base.Text.{Text, Bytes, codes, text_eq, copy_into}
use quake_mesh.Storage.{NodeId, Millis, Float64, Db, M, Result, ok, err}
use quake_mesh.Registry.Nodes.{online, upsert_seen, update_location, update_profile}
use quake_mesh.Trust.Store.{hub_direct, record_proximity, endorse_with_hub_contact}
use quake_mesh.Daemon.{
  Codec, Method, is_post, Response, failure, accepted, method_not_allowed, bad_request,
  internal_server_error, service_unavailable,
}
use quake_mesh.Daemon.Topics.{sos}
use quake_mesh.Lan.{Context, Library, local_ip_from_remote_addr}
use quake_mesh.Lan.Segments.{entity_node, record_membership}

-- Whether the configuration has each of the parts that may be nil.
pub record Config : Type 0 where
  pub has_notifier : Bool
  pub has_sos_notifier : Bool
  pub has_segments : Bool
  pub has_trust : Bool
  pub local_hub : NodeId

pub data Notice : Type 0 where
  node_status_changed : NodeId → Text → Notice
  sos_alert_published : NodeId → Text → Text → Text → Notice

pub record Server : Type 0 where
  pub db : Db
  pub notices : List Notice

abbrev pub notify : Bool → Notice → Server → Server
notify false n s = s
notify true n s = record s { notices = s.notices ++ n ∷ [] }

-- A statement whose error is dropped.
abbrev pub ignoring : {A : Type 0} → M A → Server → Server
ignoring m s = record s { db = (m s.db).1 }

unfoldable pub locate : NodeId → Option Float64 → Option Float64 → Millis → Server → Server
locate id (some lat) (some lon) at s = ignoring (update_location id lat lon at) s
locate id _ _ at s = s

unfoldable pub presence_recorded :
    Config
    → NodeId
    → Option Float64
    → Option Float64
    → Millis
    → Server
    → Result Bool × Db
    → Result Bool × Server
unfolding locate
presence_recorded cfg id lat lon at s (err e, db) = (err e, record s { db = db })
presence_recorded cfg id lat lon at s (ok changed, db) = (
  ok changed,
  notify (changed && cfg.has_notifier) (node_status_changed id online)
      (locate id lat lon at (record s { db = db })),
)

unfoldable pub register_presence :
    Config → NodeId → Option Float64 → Option Float64 → Millis → Server → Result Bool × Server
unfolding presence_recorded
register_presence cfg id lat lon at s =
    presence_recorded cfg id lat lon at s (upsert_seen id at s.db)

abbrev pub id_of_size : Bytes → Option NodeId
id_of_size b = if nat_beq b.size 32 then some (copy_into 32 b) else none

abbrev pub decoded_id : Option Bytes → Option NodeId
decoded_id none = none
decoded_id (some b) = id_of_size b

-- `parseNodeID`, whose body also stands in the other two handlers; `none` is its error.
unfoldable pub parse_node_id : Codec → Text → Option NodeId
parse_node_id codec t = decoded_id (codec.decode_hex t)

pub record HeartbeatBody : Type 0 where
  pub node_id : Text
  pub handle : Option Text
  pub home_lat : Option Float64
  pub home_lon : Option Float64
  pub lat : Option Float64
  pub lon : Option Float64
  pub lan_context : Option Context

abbrev pub is_given : {A : Type 0} → Option A → Bool
is_given none = false
is_given (some a) = true

unfoldable pub store_profile : NodeId → HeartbeatBody → Server → Server
store_profile id body s =
    if is_given body.handle || is_given body.home_lat || is_given body.home_lon
    then ignoring (update_profile id body.handle body.home_lat body.home_lon) s
    else s

abbrev pub with_local_ip : Library → Text → Context → Context
with_local_ip lib remote c =
    if c.local_ip == [] then record c { local_ip = local_ip_from_remote_addr lib remote } else c

module _ (f : FloatOps) (lib : Library) (codec : Codec) (cfg : Config) where
  unfoldable pub store_membership : NodeId → Text → Option Context → Millis → Server → Server
  store_membership id remote none now s = s
  store_membership id remote (some c) now s =
      if cfg.has_segments
      then ignoring (record_membership f lib entity_node id (with_local_ip lib remote c) now) s
      else s

  unfoldable pub store_contact : NodeId → Millis → Server → Server
  store_contact id now s =
      if cfg.has_trust && not (cfg.local_hub == 0)
      then ignoring (record_proximity cfg.local_hub id (negsuc 54) hub_direct now) s
      else s

  unfoldable pub report :
      NodeId → Text → HeartbeatBody → Millis → Result Bool × Server → Response × Server
  unfolding store_profile store_membership store_contact
  report id remote body now (err e, s) = (failure internal_server_error, s)
  report id remote body now (ok changed, s) = (
    accepted,
    store_contact id now
        (store_membership id remote body.lan_context now (store_profile id body s)),
  )

  unfoldable pub heartbeat_from :
      Text → HeartbeatBody → Millis → Option NodeId → Server → Response × Server
  unfolding report
  heartbeat_from remote body now none s = (failure bad_request, s)
  heartbeat_from remote body now (some id) s =
      report id remote body now (register_presence cfg id body.lat body.lon now s)

  unfoldable pub heartbeat : Text → Option HeartbeatBody → Millis → Server → Response × Server
  unfolding heartbeat_from
  heartbeat remote none now s = (failure bad_request, s)
  heartbeat remote (some body) now s =
      if body.node_id == []
      then (failure bad_request, s)
      else heartbeat_from remote body now (parse_node_id codec body.node_id) s

  unfoldable pub handle_heartbeat :
      Method → Text → Option HeartbeatBody → Millis → Server → Response × Server
  unfolding heartbeat
  handle_heartbeat method remote body now s =
      if is_post method then heartbeat remote body now s else (failure method_not_allowed, s)

pub record SosBody : Type 0 where
  pub node_id : Text
  pub text : Text
  pub lat : Float64
  pub lon : Float64
  pub accuracy_m : Float64
  pub sent_at : Millis

abbrev pub sos_app_id : Text
sos_app_id = codes "net.quakemesh.sosbeacon"

-- The dash is its three bytes.
abbrev pub default_sos_text : Text
default_sos_text = codes "SOS " ++ 226 ∷ 128 ∷ 148 ∷ codes " need assistance"

abbrev pub with_text : SosBody → SosBody
with_text body = if body.text == [] then record body { text = default_sos_text } else body

-- `marshal` is `json.Marshal` of a body.
module _ (f : FloatOps) (codec : Codec) (marshal : SosBody → Text) (cfg : Config) where
  abbrev pub has_position : SosBody → Bool
  has_position body = not (f.eq body.lat (f.lit 0 0)) || not (f.eq body.lon (f.lit 0 0))

  abbrev pub position : SosBody → Float64 → Option Float64
  position body x = if has_position body then some x else none

  unfoldable pub alarm : NodeId → SosBody → Result Bool × Server → Response × Server
  alarm id body (err e, s) = (failure internal_server_error, s)
  alarm id body (ok changed, s) = (
    accepted,
    notify cfg.has_sos_notifier (sos_alert_published id sos_app_id sos (marshal body)) s,
  )

  unfoldable pub sos_from : SosBody → Millis → Option NodeId → Server → Response × Server
  unfolding alarm
  sos_from body now none s = (failure bad_request, s)
  sos_from body now (some id) s =
      alarm id body
        (register_presence cfg id (position body body.lat) (position body body.lon) now s)

  unfoldable pub handle_sos : Method → Option SosBody → Millis → Server → Response × Server
  unfolding sos_from
  handle_sos method none now s =
      if is_post method then (failure bad_request, s) else (failure method_not_allowed, s)
  handle_sos method (some body) now s =
      if is_post method
      then (if body.node_id == []
          then (failure bad_request, s)
          else sos_from (with_text body) now (parse_node_id codec body.node_id) s)
      else (failure method_not_allowed, s)

pub record EndorseBody : Type 0 where
  pub endorser_node_id : Text
  pub endorsed_node_id : Text

module _ (codec : Codec) (cfg : Config) where
  unfoldable pub endorsed : Server → Result (Unit {0}) × Db → Response × Server
  endorsed s (err e, db) = (failure bad_request, record s { db = db })
  endorsed s (ok u, db) = (accepted, record s { db = db })

  unfoldable pub endorse_ids : Option NodeId → Option NodeId → Millis → Server → Response × Server
  unfolding endorsed
  endorse_ids none b now s = (failure bad_request, s)
  endorse_ids (some a) none now s = (failure bad_request, s)
  endorse_ids (some a) (some b) now s =
      if a == b
      then (failure bad_request, s)
      else endorsed s (endorse_with_hub_contact a b now s.db)

  unfoldable pub endorse : Option EndorseBody → Millis → Server → Response × Server
  unfolding endorse_ids
  endorse none now s = (failure bad_request, s)
  endorse (some body) now s =
      if body.endorser_node_id == [] || body.endorsed_node_id == []
      then (failure bad_request, s)
      else endorse_ids (parse_node_id codec body.endorser_node_id)
          (parse_node_id codec body.endorsed_node_id) now s

  unfoldable pub handle_endorse : Method → Option EndorseBody → Millis → Server → Response × Server
  unfolding endorse
  handle_endorse method body now s =
      if is_post method
      then (if cfg.has_trust then endorse body now s else (failure service_unavailable, s))
      else (failure method_not_allowed, s)
