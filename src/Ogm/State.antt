-- ===== src/Ogm/State.antt =====
-- hub/internal/ogmengine/ogmengine.go: configuration, messages (core/wire/ogm.pb.go), the engine's
-- state and its outputs. Times are in nanoseconds. A log line is no output.
use quake_mesh.Base.{ℕ, ◌/◌, Bool, Option, none, some, List, [], ◌∷◌, ◌++◌, if◌then◌else◌}
use quake_mesh.Base.Text.{Text, Bytes}
use quake_mesh.Storage.{NodeId, Millis, Float64, Route, Db}

pub record Ogm : Type 0 where
  pub node_id : Bytes
  pub sequence_number : ℕ
  pub ttl : ℕ
  pub is_startup_announce : Bool
  pub last_hop_id : Bytes
  pub hop_count : ℕ
  pub lat : Option Float64
  pub lon : Option Float64
  pub location_accuracy_m : Option ℕ
  pub location_at_unix_ms : Option Millis

pub record Hello : Type 0 where
  pub node_id : Bytes
  pub sent_at_unix_ms : Millis

-- A `*net.UDPAddr`: its parts, and what `String` prints of it.
pub record UdpAddr : Type 0 where
  pub ip : Text
  pub port : ℕ
  pub text : Text

-- `resolves` says of which peers `net.ResolveUDPAddr` makes an address; the flags say which of the
-- optional parts are not nil.
pub record Config : Type 0 where
  pub self_id : NodeId
  pub peers : List Text
  pub ttl : ℕ
  pub stale_after : ℕ
  pub resolves : Text → Bool
  pub has_trust : Bool
  pub has_metrics : Bool
  pub has_handler : Bool

-- What the engine sends to peers and calls on its handler, in order.
pub data Output : Type 0 where
  send : Text → Ogm → Output
  send_hello : Text → Output
  node_status : NodeId → Text → Output
  hub_status : NodeId → Text → Output
  route_changed : Route → Output

pub record Engine : Type 0 where
  pub seq : ℕ
  pub last_seq : List (NodeId × ℕ)
  pub peer_by_addr : List (Text × NodeId)
  pub rebroadcasted : List (NodeId × ℕ)
  pub link_rq : List (NodeId × ℕ)
  pub link_eq : List (NodeId × ℕ)
  pub latency_ms : List (NodeId × ℕ)
  pub alternates : List (NodeId × List Route)
  pub pending_hello : List (Text × ℕ)
  pub db : Db
  pub out : List Output

-- `New`, over an opened database.
abbrev pub new_engine : Db → Engine
new_engine db = record {
  seq = 0;
  last_seq = [];
  peer_by_addr = [];
  rebroadcasted = [];
  link_rq = [];
  link_eq = [];
  latency_ms = [];
  alternates = [];
  pending_hello = [];
  db = db;
  out = [];
}

abbrev pub emit : Output → Engine → Engine
emit o e = record e { out = e.out ++ o ∷ [] }

-- A call of the handler, if there is one.
abbrev pub notify : Config → Output → Engine → Engine
notify cfg o e = if cfg.has_handler then emit o e else e

abbrev pub with_db : Engine → Db → Engine
with_db e db = record e { db = db }

abbrev pub unix_milli : ℕ → Millis
unix_milli now = now / 1000000

-- The zero value of a missing key.
abbrev pub or_zero : Option ℕ → ℕ
or_zero none = 0
or_zero (some n) = n

abbrev pub uint32 : ℕ
uint32 = 4294967296

abbrev pub uint64 : ℕ
uint64 = 18446744073709551616
