-- ===== src/Tests/Network.antt =====
-- The theorems on the local network at concrete inputs.
use quake_mesh.Base.{
  ◌≡◌, ◌≢◌, refl, true, false, some, none, [], ◌∷◌, ◌++◌, ℕ, nat_eq, pair_eq, arith,
}
use quake_mesh.Base.Float.{thousandths}
use quake_mesh.Base.Text.{Text, codes, text_eq, text_beq, copy_into}
use quake_mesh.Base.Rows.{select_first}
use quake_mesh.Storage.{Db, empty_tables, query, exec, transaction}
use quake_mesh.Registry.Nodes.{upsert_seen, record_seen}
use quake_mesh.Daemon.{Codec, post, accepted}
use quake_mesh.Lan.{Context, Library}
use quake_mesh.Lan.Heartbeat.{
  SosBody, Config, HeartbeatBody, Server, handle_heartbeat, heartbeat, heartbeat_from,
  parse_node_id, presence_recorded, register_presence, report,
}
use quake_mesh.Lan.Heartbeat.Online.{IsOnline}
use quake_mesh.Lan.Heartbeat.Presence.{handle_heartbeat-IsOnline}
use quake_mesh.Lan.Beacon.{
  Json, Message, decode, decoded, encode, kind_node, node_beacon, prefix, with_version,
}
use quake_mesh.Lan.Beacon.Wire.{decode-encode}
use quake_mesh.Lan.Discovery
use quake_mesh.Lan.Discovery.{receive_datagram}
use quake_mesh.Lan.Discovery.Joined.{receive_datagram-IsOnline}
use quake_mesh.Tests.Data.{database, database-Healthy}

abbrev library : Library
library = record { digest = λ t. t; split_host = λ t. none }

abbrev home : Context
home = record { gateway_ip = codes "g"; local_ip = codes "l"; ssid = []; bssid = [] }

abbrev start : Db
start = database empty_tables

-- A codec that reads every text as the id 5.
abbrev codec : Codec
codec = record {
  decode_base64 = λ t. some t;
  encode_base64 = λ t. t;
  decode_hex = λ t. some (record { size = 32; value = 5 });
  node_string = λ n. n ∷ [];
}

abbrev config : Config
config = record {
  has_notifier = true;
  has_sos_notifier = true;
  has_segments = false;
  has_trust = false;
  local_hub = 1;
}

abbrev server : Server
server = record { db = start; notices = [] }

abbrev beat : HeartbeatBody
beat = record {
  node_id = codes "n5";
  handle = none;
  home_lat = none;
  home_lon = none;
  lat = none;
  lon = none;
  lan_context = none;
}

five : parse_node_id codec (codes "n5") ≡ some 5
unfolding parse_node_id copy_into
five = refl

beat_accepted :
    (handle_heartbeat thousandths library codec config post (codes "r") (some beat) 100 server).0
    ≡ accepted
unfolding handle_heartbeat heartbeat heartbeat_from report text_beq parse_node_id copy_into
    register_presence presence_recorded upsert_seen transaction query record_seen select_first exec
beat_accepted = refl

handle_heartbeat-IsOnline_example :
    (id : ℕ) × (parse_node_id codec (codes "n5") ≡ some id)
    × IsOnline id 100
        (handle_heartbeat thousandths library codec config post
          (codes "r")
          (some beat)
          100
          server).1.db.tables
handle_heartbeat-IsOnline_example =
    handle_heartbeat-IsOnline thousandths library codec config (codes "r") 100 post beat server
      beat_accepted

abbrev call : SosBody
call = record {
  node_id = codes "n5";
  text = codes "trapped";
  lat = 0;
  lon = 0;
  accuracy_m = 0;
  sent_at = 100;
}

abbrev text_of : SosBody → Text
text_of b = b.text

abbrev hello : Message
hello = record {
  v = 1;
  kind = kind_node;
  node_id = codes "n5";
  handle = codes "bo";
  home_lat = none;
  home_lon = none;
  heartbeat_port = 0;
  ogm_port = 0;
  lat = none;
  lon = none;
  accuracy_m = none;
  lan_context = none;
}

-- JSON of that one message.
abbrev json : Json
json = record { marshal = λ m. some (codes "j"); unmarshal = λ t. some hello }

reads : (t : Text) → json.marshal hello ≡ some t → json.unmarshal t ≡ some hello
reads t h = refl

writes : json.marshal hello ≢ some []
writes h = cc

encoded : encode json hello ≡ some (prefix ++ codes "j")
unfolding encode text_beq
encoded = refl

decode-encode_example : decode json (prefix ++ codes "j") ≡ decoded (with_version hello)
decode-encode_example = decode-encode json hello (prefix ++ codes "j") reads writes encoded

abbrev hub : Discovery.Config
hub = record {
  hub_node_id = 1;
  heartbeat_port = 18085;
  ogm_port = 9000;
  has_registry = true;
  has_hub_notifier = true;
  has_segments = true;
  notifier = config;
}

abbrev engine : Discovery.Engine
engine = record { server = server; hub_notices = []; sent = [] }

sent_beacon :
    node_beacon json (codes "n5") (codes "bo") none none none none none none
    ≡ some (prefix ++ codes "j")
unfolding node_beacon encode text_beq
sent_beacon = refl

receive_datagram-IsOnline_example :
    IsOnline 5 100
      (receive_datagram thousandths library json codec hub
        (prefix ++ codes "j")
        100
        101
        engine).server.db.tables
receive_datagram-IsOnline_example =
    receive_datagram-IsOnline thousandths library json codec hub 5 100 101 (codes "n5") (codes "bo")
      (prefix ++ codes "j") none none none none none none engine (database-Healthy empty_tables)
      five reads writes sent_beacon (omega arith)
