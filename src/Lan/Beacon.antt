-- ===== src/Lan/Beacon.antt =====
-- core/lanbeacon/lanbeacon.go: the datagrams by which hubs and nodes make themselves known. JSON is a
-- parameter.
pub mod Wire
use quake_mesh.Base.{
  ℕ, Bool, true, false, ◌&&◌, ◌||◌, Option, none, some, List, [], ◌∷◌, ◌++◌, leb, nat_beq, nat_eq,
  ◌==◌, if◌then◌else◌,
}
use quake_mesh.Base.Text.{Text, codes, text_eq}
use quake_mesh.Storage.{Float64}
use quake_mesh.Lan.{Context}

abbrev pub kind_hub : Text
kind_hub = codes "hub"

abbrev pub kind_node : Text
kind_node = codes "node"

pub record Message : Type 0 where
  pub v : ℕ
  pub kind : Text
  pub node_id : Text
  pub handle : Text
  pub home_lat : Option Float64
  pub home_lon : Option Float64
  pub heartbeat_port : ℕ
  pub ogm_port : ℕ
  pub lat : Option Float64
  pub lon : Option Float64
  pub accuracy_m : Option Float64
  pub lan_context : Option Context

-- `json.Marshal` and `json.Unmarshal` of a message, with `none` for an error.
pub record Json : Type 0 where
  pub marshal : Message → Option Text
  pub unmarshal : Text → Option Message

-- `QMLB` and the version.
abbrev pub prefix : Text
prefix = 81 ∷ 77 ∷ 76 ∷ 66 ∷ 1 ∷ []

abbrev pub with_version : Message → Message
with_version m = if nat_beq m.v 0 then record m { v = 1 } else m

abbrev pub framed : Option Text → Option Text
framed none = none
framed (some body) = some (prefix ++ body)

-- `Encode`, where `none` is its error.
unfoldable pub encode : Json → Message → Option Text
encode json m =
    if (m.kind == []) || (m.node_id == []) then none else framed (json.marshal (with_version m))

-- What `Decode` tells: no beacon, an error, or a message.
pub data Decoded : Type 0 where
  no_beacon : Decoded
  malformed : Decoded
  decoded : Message → Decoded

abbrev pub accept : Option Message → Decoded
accept none = malformed
accept (some m) = if (m.kind == []) || (m.node_id == []) then malformed else decoded m

-- The test of the first five bytes, where at least one more follows.
unfoldable pub decode : Json → Text → Decoded
decode json (a ∷ b ∷ c ∷ d ∷ e ∷ x ∷ rest) =
    if nat_beq a 81 && nat_beq b 77 && nat_beq c 76 && nat_beq d 66 && nat_beq e 1
    then accept (json.unmarshal (x ∷ rest))
    else no_beacon
decode json _ = no_beacon

abbrev pub is_some_beacon : Decoded → Bool
is_some_beacon no_beacon = false
is_some_beacon malformed = true
is_some_beacon (decoded m) = true

unfoldable pub is_beacon : Json → Text → Bool
unfolding decode
is_beacon json payload = is_some_beacon (decode json payload)

abbrev pub hub_message : Text → ℕ → ℕ → Option Context → Message
hub_message id heartbeat_port ogm_port lan = record {
  v = 1;
  kind = kind_hub;
  node_id = id;
  handle = [];
  home_lat = none;
  home_lon = none;
  heartbeat_port = heartbeat_port;
  ogm_port = ogm_port;
  lat = none;
  lon = none;
  accuracy_m = none;
  lan_context = lan;
}

-- A port below zero is 0 here.
unfoldable pub hub_beacon : Json → Text → ℕ → ℕ → Option Context → Option Text
unfolding encode
hub_beacon json id heartbeat_port ogm_port lan =
    if leb heartbeat_port 0 || leb ogm_port 0
    then none
    else encode json (hub_message id heartbeat_port ogm_port lan)

unfoldable pub node_beacon :
    Json
    → Text
    → Text
    → Option Float64
    → Option Float64
    → Option Float64
    → Option Float64
    → Option Float64
    → Option Context
    → Option Text
unfolding encode
node_beacon json id handle home_lat home_lon lat lon accuracy_m lan = encode json (record {
  v = 1;
  kind = kind_node;
  node_id = id;
  handle = handle;
  home_lat = home_lat;
  home_lon = home_lon;
  heartbeat_port = 0;
  ogm_port = 0;
  lat = lat;
  lon = lon;
  accuracy_m = accuracy_m;
  lan_context = lan;
})
