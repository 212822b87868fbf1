-- ===== src/Ogm/Receive.antt =====
-- hub/internal/ogmengine/ogmengine.go: what the engine does with a packet.
pub mod Acts
pub mod Sequence
pub mod Forwarding
pub mod Kept
pub mod Packets
pub mod Restart
use quake_mesh.Base.{
  ℕ, ◌+◌, ◌-◌, ◌*◌, ◌/◌, ◌%◌, Bool, true, false, not, ◌&&◌, ◌||◌, Option, none, some, List, [], ◌∷◌,
  leb, ltb, ◌==◌, nat_eq, if◌then◌else◌,
}
use quake_mesh.Base.Int.{ℤ, negsuc}
use quake_mesh.Base.Text.{Text, Bytes, copy_into, text_eq}
use quake_mesh.Base.Map.{lookup, insert, erase}
use quake_mesh.Base.Float.{FloatOps}
use quake_mesh.Storage.{NodeId, Float64, Millis, Route, Db, Result, ok, err, epoch}
use quake_mesh.Registry.Nodes.{online, upsert_seen, update_location}
use quake_mesh.Registry.Hubs.{upsert_hub_seen}
use quake_mesh.Trust.Store.{record_proximity, hub_direct, hub_relay}
use quake_mesh.Routing.{compute_tq, path_tq}
use quake_mesh.Ogm.State.{
  Ogm, Hello, UdpAddr, Config, Engine, node_status, hub_status, notify, with_db, unix_milli,
  or_zero, uint32,
}
use quake_mesh.Ogm.Flood.{rebroadcast_startup, maybe_rebroadcast}
use quake_mesh.Ogm.Choice.{maybe_upsert_route}

-- A conversion of a byte slice of the length of an id.
abbrev pub id_of : Bytes → NodeId
id_of b = copy_into 32 b

abbrev pub origin_of : Ogm → NodeId
origin_of msg = id_of msg.node_id

abbrev pub known_peer : NodeId → Option NodeId → NodeId
known_peer origin none = origin
known_peer origin (some id) = id

unfoldable pub resolve_forwarder : Ogm → UdpAddr → Engine → NodeId
resolve_forwarder msg addr e =
    if msg.last_hop_id.size == 32
    then id_of msg.last_hop_id
    else known_peer (origin_of msg) (lookup addr.text e.peer_by_addr)

-- `m[key]++` on a map of uint32.
abbrev pub bump : NodeId → List (NodeId × ℕ) → List (NodeId × ℕ)
bump id m = insert id ((or_zero (lookup id m) + 1) % uint32) m

-- An own message that came back through a neighbour.
unfoldable pub hear_echo : Ogm → UdpAddr → Engine → Engine
unfolding resolve_forwarder
hear_echo msg addr e =
    if ltb 0 msg.hop_count
    then record e { link_eq = bump (resolve_forwarder msg addr e) e.link_eq }
    else e

-- Straight from its origin, and not passed on by anyone.
abbrev pub is_direct : Ogm → Bool
is_direct msg = msg.hop_count == 0 && msg.last_hop_id.size == 0

unfoldable pub forwarder_of : Ogm → UdpAddr → Engine → NodeId
unfolding resolve_forwarder
forwarder_of msg addr e = if is_direct msg then origin_of msg else resolve_forwarder msg addr e

-- The counters, under the mutex.
unfoldable pub count_link : Ogm → UdpAddr → Engine → Engine
unfolding forwarder_of
count_link msg addr e = record e {
  peer_by_addr =
      if is_direct msg then insert addr.text (origin_of msg) e.peer_by_addr else e.peer_by_addr;
  link_rq = bump (forwarder_of msg addr e) e.link_rq;
}

-- `seen && msg.SequenceNumber <= last`.
abbrev pub is_old : Ogm → Option ℕ → Bool
is_old msg none = false
is_old msg (some last) = leb msg.sequence_number last

module _ (cfg : Config) where
  abbrev pub hub_changed : NodeId → Engine → Result Bool × Db → Engine
  hub_changed id e (ok true, db) = notify cfg (hub_status id online) (with_db e db)
  hub_changed id e (ok false, db) = with_db e db
  hub_changed id e (err x, db) = with_db e db

  unfoldable pub upsert_peer_hub : ℕ → NodeId → UdpAddr → Engine → Engine
  upsert_peer_hub now id addr e =
      hub_changed id e (upsert_hub_seen id addr.ip addr.port (unix_milli now) e.db)

  unfoldable pub hear_proximity : ℕ → NodeId → ℕ → Engine → Engine
  hear_proximity now observed hop_count e =
      if cfg.has_trust
      then with_db e
          (record_proximity cfg.self_id observed (if hop_count == 0 then negsuc 54 else negsuc 79)
            (if hop_count == 0 then hub_direct else hub_relay) (unix_milli now) e.db).1
      else e

  module _ (f : FloatOps) where
    open f use {lt, eq, neg, lit}

    abbrev pub off_the_map : Float64 → Float64 → Bool
    off_the_map lat lon =
        lt lat (neg (lit 90 0))
        || lt (lit 90 0) lat
        || lt lon (neg (lit 180 0))
        || lt (lit 180 0) lon

    abbrev pub located_at : ℕ → Option Millis → Millis
    located_at now none = unix_milli now
    located_at now (some t) = if ltb epoch t then t else unix_milli now

    abbrev pub place :
        ℕ → NodeId → Option Millis → Option Float64 → Option Float64 → Engine → Engine
    place now id at (some lat) (some lon) e =
        if off_the_map lat lon || (eq lat (lit 0 0) && eq lon (lit 0 0))
        then e
        else with_db e (update_location id lat lon (located_at now at) e.db).1
    place now id at _ _ e = e

    unfoldable pub apply_location : ℕ → NodeId → Ogm → Engine → Engine
    apply_location now id msg e = place now id msg.location_at_unix_ms msg.lat msg.lon e

    unfoldable pub link_tq : NodeId → Engine → Float64
    link_tq id e =
        let rq = or_zero (lookup id e.link_rq) in
        compute_tq f (or_zero (lookup id e.link_eq)) (if ltb 1 rq then rq else 1)

    unfoldable pub neighbor_latency : NodeId → Engine → ℕ
    neighbor_latency id e = or_zero (lookup id e.latency_ms)

    unfoldable pub candidate_route : Ogm → NodeId → Engine → Route
    unfolding link_tq neighbor_latency
    candidate_route msg forwarder e =
        let hop_count = msg.hop_count + 1 in
        let link = link_tq forwarder e in
        record {
          destination = origin_of msg;
          next_hop = forwarder;
          tq = if ltb 1 hop_count then path_tq f link (lit 85 2) else link;
          latency_ms = neighbor_latency forwarder e * hop_count;
          hop_count = hop_count;
        }

    -- From `recordProximity` on.
    unfoldable pub learn : ℕ → Ogm → NodeId → UdpAddr → Engine → Engine
    unfolding candidate_route hear_proximity apply_location
    learn now msg forwarder addr e =
        let e₁ =
          apply_location now (origin_of msg) msg
            (hear_proximity now (origin_of msg) msg.hop_count e) in
        let e₂ = maybe_upsert_route f cfg now (candidate_route msg forwarder e₁) e₁ in
        if ltb 0 msg.ttl then maybe_rebroadcast cfg msg addr.text e₂ else e₂

    -- What follows `UpsertSeen`.
    unfoldable pub node_seen : ℕ → Ogm → NodeId → UdpAddr → Engine → Result Bool × Db → Engine
    unfolding learn
    node_seen now msg forwarder addr e (err x, db) = with_db e db
    node_seen now msg forwarder addr e (ok changed, db) = learn now msg forwarder addr (
        if changed && cfg.has_handler
        then rebroadcast_startup cfg msg addr.text
            (notify cfg (node_status (origin_of msg) online) (with_db e db))
        else with_db e db)

    -- What follows the mutex, for a new sequence number.
    unfoldable pub accept_ogm : ℕ → Ogm → NodeId → UdpAddr → Engine → Engine
    unfolding node_seen upsert_peer_hub
    accept_ogm now msg forwarder addr e =
        let e₁ =
          if msg.hop_count == 0 && not (origin_of msg == cfg.self_id)
          then upsert_peer_hub now (origin_of msg) addr e
          else e in
        node_seen now msg forwarder addr e₁ (upsert_seen (origin_of msg) (unix_milli now) e₁.db)

    unfoldable pub hear_other : ℕ → Ogm → UdpAddr → Engine → Engine
    unfolding accept_ogm count_link
    hear_other now msg addr e =
        let counted = count_link msg addr e in
        if is_old msg (lookup (origin_of msg) counted.last_seq)
        then counted
        else accept_ogm now msg (forwarder_of msg addr e) addr (record counted {
          last_seq = insert (origin_of msg) msg.sequence_number counted.last_seq;
        })

    unfoldable pub handle_ogm : ℕ → Ogm → UdpAddr → Engine → Engine
    unfolding hear_other hear_echo
    handle_ogm now msg addr e =
        if origin_of msg == cfg.self_id then hear_echo msg addr e else hear_other now msg addr e

-- The round trip of a hello, if it took less than ten seconds.
abbrev time_hello : ℕ → NodeId → UdpAddr → Option ℕ → Engine → Engine
time_hello now sender addr none e = e
time_hello now sender addr (some sent_at) e =
    let rtt = now - sent_at in
    record e {
      latency_ms =
          if ltb 0 rtt && ltb rtt 10000000000
          then insert sender (rtt / 1000000) e.latency_ms
          else e.latency_ms;
      pending_hello = erase addr.text e.pending_hello;
    }

unfoldable pub handle_hello : ℕ → Hello → UdpAddr → Engine → Engine
handle_hello now msg addr e =
    time_hello now (id_of msg.node_id) addr (lookup addr.text e.pending_hello) e

-- `proto.Unmarshal` of google.golang.org/protobuf, at the two messages; `none` is an error.
pub record Codec : Type 0 where
  pub parse_ogm : Text → Option Ogm
  pub parse_hello : Text → Option Hello
  pub print_hello : Hello → Text

module _ (c : Codec) (f : FloatOps) (cfg : Config) where
  unfoldable pub try_hello : ℕ → Option Hello → UdpAddr → Engine → Engine
  try_hello now none addr e = e
  try_hello now (some hello) addr e =
      if hello.node_id.size == 32 then handle_hello now hello addr e else e

  unfoldable pub try_ogm : ℕ → Text → Option Ogm → UdpAddr → Engine → Engine
  unfolding try_hello
  try_ogm now payload none addr e = try_hello now (c.parse_hello payload) addr e
  try_ogm now payload (some ogm) addr e =
      if ogm.node_id.size == 32
      then handle_ogm cfg f now ogm addr e
      else try_hello now (c.parse_hello payload) addr e

  unfoldable pub handle_packet : ℕ → Text → UdpAddr → Engine → Engine
  unfolding try_ogm
  handle_packet now payload addr e = try_ogm now payload (c.parse_ogm payload) addr e
