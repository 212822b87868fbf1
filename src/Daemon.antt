-- ===== src/Daemon.antt =====
-- hub/internal/daemonapi/daemonapi.go: the hub's API for the apps that run on its node. A handler is a
-- function from the server and a request to a response and the server; HTTP, JSON, base64 and hex are
-- parameters, and a request holds its body as the decoder gives it.
pub mod Apps
pub mod Mail
pub mod Topics
pub mod Calls
pub mod Frames
pub mod Access
pub mod Inbox
pub mod Channels
use quake_mesh.Base.{
  ℕ, Bool, true, false, not, Option, none, some, List, [], ◌∷◌, ◌++◌, length, ltb, drop, ◌==◌,
  if◌then◌else◌, ◌&&◌,
}
use quake_mesh.Base.Text.{Text, Bytes, codes, text_eq, has_prefix}
use quake_mesh.Base.Map.{lookup}
use quake_mesh.Storage.{NodeId, Db}
use quake_mesh.Dtn.Engine

-- What the handlers call of packages hex and base64; a decoder gives `none` for an error.
pub record Codec : Type 0 where
  pub decode_base64 : Text → Option Text
  pub encode_base64 : Text → Text
  pub decode_hex : Text → Option Bytes
  -- `NodeID.String`.
  pub node_string : NodeId → Text

-- Whether the configuration has each of the parts that may be nil.
pub record Config : Type 0 where
  pub self_id : NodeId
  pub local_hub : NodeId
  pub has_apps : Bool
  pub has_bans : Bool
  pub has_sender : Bool
  pub has_notifier : Bool

pub record Session : Type 0 where
  pub token : Text
  pub node_id : NodeId
  pub app_id : Text
  pub app_name : Text
  pub app_version : Text

-- A channel is known by its number, since a subscription holds on to its own where the map has
-- another one by then.
abbrev pub Channel : Type 0
Channel = ℕ

-- The calls of the notifier.
pub data Notice : Type 0 where
  app_presence_changed : NodeId → Text → Text → Notice
  sos_alert_published : NodeId → Text → Text → Text → Notice

-- The stores and the sender share the database of `dtn`, which is the sender. A payload in an inbox is
-- `none` where it is a nil slice. `buffers` holds what is queued in each channel that was made.
pub record Server : Type 0 where
  pub dtn : Engine.Engine
  pub sessions : List (Text × Session)
  pub inbox : List (NodeId × List (Option Text))
  pub topics : List (Text × List (Text × Channel))
  pub buffers : List (Channel × List Text)
  pub next_channel : Channel
  pub notices : List Notice

unfoldable pub new : Engine.Engine → Server
new dtn = record {
  dtn = dtn;
  sessions = [];
  inbox = [];
  topics = [];
  buffers = [];
  next_channel = 0;
  notices = [];
}

abbrev pub with_db : Server → Db → Server
with_db s db = record s { dtn = Engine.with_db s.dtn db }

abbrev pub notify : Bool → Notice → Server → Server
notify false n s = s
notify true n s = record s { notices = s.notices ++ n ∷ [] }

pub data Method : Type 0 where
  get post other_method : Method

abbrev pub is_get : Method → Bool
is_get get = true
is_get m = false

abbrev pub is_post : Method → Bool
is_post post = true
is_post m = false

-- The session of a request may be in its header or in its query.
pub record Request : Type 0 where
  pub method : Method
  pub header_session : Text
  pub query_session : Text

-- `http.Error` with its status, or a body.
pub data Response : Type 0 where
  failure : ℕ → Response
  registered : Text → Text → Response
  accepted : Response
  payload_of : Text → Response
  peers_are : List Text → Response
  null_peers : Response
  no_content : Response
  nothing_written : Response

abbrev pub method_not_allowed : ℕ
method_not_allowed = 405

abbrev pub unauthorized : ℕ
unauthorized = 401

abbrev pub bad_request : ℕ
bad_request = 400

abbrev pub forbidden : ℕ
forbidden = 403

abbrev pub internal_server_error : ℕ
internal_server_error = 500

abbrev pub service_unavailable : ℕ
service_unavailable = 503

-- The token that `sessionFromRequest` takes.
abbrev pub token_of : Request → Text
token_of r = if r.header_session == [] then r.query_session else r.header_session

abbrev pub unless_empty : Text → Option Session → Option Session
unless_empty [] o = none
unless_empty (c ∷ t) o = o

unfoldable pub session_from_request : Request → Server → Option Session
session_from_request r s = unless_empty (token_of r) (lookup (token_of r) s.sessions)

-- `splitListenAddr`: the network and the address, or `none` for its error.
unfoldable pub split_listen_addr : Text → Option (Text × Text)
unfolding has_prefix
split_listen_addr addr =
    if addr == []
    then some (codes "unix", codes "/tmp/quakemeshhub.sock")
    else if ltb 5 (length addr) && has_prefix addr (codes "unix:")
    then some (codes "unix", drop 5 addr)
    else if ltb 4 (length addr) && has_prefix addr (codes "tcp:")
    then some (codes "tcp", drop 4 addr)
    else none
