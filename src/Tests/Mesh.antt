-- ===== src/Tests/Mesh.antt =====
-- The theorems on the routing engine at concrete inputs.
use quake_mesh.Base.{All, ◌≡◌, ◌≢◌, refl, ℕ, true, none, some, [], ◌∷◌, nat_eq, arith}
use quake_mesh.Base.Float.{thousandths}
use quake_mesh.Base.Int.{pos}
use quake_mesh.Base.Map.{lookup}
use quake_mesh.Base.Rows.{delete_where}
use quake_mesh.Base.Text.{copy_into, Text, codes, slice_of}
use quake_mesh.Storage.{Tables, empty_tables}
use quake_mesh.Registry.Routes.{route}
use quake_mesh.Routing.{better, cost}
use quake_mesh.Trust.Score.{Metrics, compute, max_longevity, max_proximity, max_endorsement, plus}
use quake_mesh.Trust.Score.Bounds.{Within, compute_bounds, thousandths-Shares}
use quake_mesh.Ogm.State.{Ogm, Hello, UdpAddr, Config, Engine, new_engine}
use quake_mesh.Ogm.Choice.{maybe_upsert_route}
use quake_mesh.Ogm.Choice.Alternates.{AllKept}
use quake_mesh.Ogm.Choice.Stored.{winner, maybe_upsert_route-winner}
use quake_mesh.Ogm.Receive.{handle_ogm, handle_packet, Codec, origin_of}
use quake_mesh.Ogm.Receive.Sequence.{
  SameButCounters, handle_ogm-last_seq, handle_packets, handle_ogm_again,
}
use quake_mesh.Ogm.Receive.Forwarding.{Grows, handle_ogm-Grows}
use quake_mesh.Ogm.Receive.Restart.{Ignored, broadcasts, broadcasts-Ignored}
use quake_mesh.Ogm.Receive.Packets.{as_ogm, ParsesByFields, hello_silences}
use quake_mesh.Ogm.Stale.{failover_routes}
use quake_mesh.Ogm.Stale.Failover.{NoneVia, failover_routes-NoneVia}
use quake_mesh.Ogm.Stale.Replaced.{failover_routes_replaces}
use quake_mesh.Tests.Data.{database, database-Healthy, route_over}

abbrev hub_one : Config
hub_one = record {
  self_id = 1;
  peers = codes "b" ∷ codes "c" ∷ [];
  ttl = 8;
  stale_after = 90;
  resolves = λ _. true;
  has_trust = true;
  has_metrics = true;
  has_handler = true;
}

abbrev from_b : UdpAddr
from_b = record { ip = codes "10.0.0.2"; port = 47222; text = codes "b" }

abbrev from_c : UdpAddr
from_c = record { ip = codes "10.0.0.3"; port = 47222; text = codes "c" }

-- Hub 2's originator message with a sequence number.
abbrev from_two : ℕ → Ogm
from_two seq = record {
  node_id = slice_of 32 2;
  sequence_number = seq;
  ttl = 5;
  is_startup_announce = true;
  last_hop_id = slice_of 0 0;
  hop_count = 0;
  lat = none;
  lon = none;
  location_accuracy_m = none;
  location_at_unix_ms = none;
}

abbrev fresh : Engine
fresh = new_engine (database empty_tables)

two_is_other : origin_of (from_two 7) ≢ hub_one.self_id
unfolding copy_into
two_is_other = λ h. omega (arith, h)

-- Hub 2 is known to have reached 9.
abbrev at_nine : Engine
at_nine = record fresh { last_seq = (2, 9) ∷ [] }

abbrev hub_two : Config
hub_two = record hub_one { self_id = 2 }

two_heard : lookup 2 at_nine.last_seq ≡ some 9
unfolding lookup
two_heard = refl

broadcasts-Ignored_example :
    All (Ignored thousandths hub_one 5 from_b at_nine) (broadcasts hub_two 3 fresh).out
broadcasts-Ignored_example =
    broadcasts-Ignored thousandths hub_one hub_two 5 9 3 from_b at_nine (database empty_tables)
      (λ h. omega (arith, h)) two_heard (omega arith) (omega arith)

handle_ogm-last_seq_example :
    lookup 2 (handle_ogm hub_one thousandths 5 (from_two 7) from_b fresh).last_seq ≡ some 7
unfolding copy_into lookup
handle_ogm-last_seq_example = handle_ogm-last_seq thousandths hub_one 5 (from_two 7) from_b 2 fresh

handle_ogm-Grows_example :
    Grows hub_one
      (from_two 7)
      (codes "b")
      []
      (handle_ogm hub_one thousandths 5 (from_two 7) from_b fresh).out
handle_ogm-Grows_example =
    handle_ogm-Grows thousandths hub_one 5 (from_two 7) from_b fresh (omega arith)

none_kept : AllKept fresh
unfolding lookup
none_kept id = record { few = omega arith; distinct = tt }

-- Destination 7 is reached over 2, and over 3 where 2 is gone; destination 8 over 4 or 5.
abbrev routes_stored : Tables
routes_stored = record empty_tables { routing_table = route_over 7 2 900 ∷ route_over 8 4 900 ∷ [] }

abbrev routed : Engine
routed = record (new_engine (database routes_stored)) {
  alternates = (7, route_over 7 3 500 ∷ []) ∷ (8, route_over 8 5 300 ∷ []) ∷ [];
}

maybe_upsert_route-winner_example :
    route 7 (maybe_upsert_route thousandths hub_one 5 (route_over 7 3 950) routed).db.tables
    ≡ some (winner thousandths (route_over 7 3 950) (route 7 routed.db.tables))
maybe_upsert_route-winner_example =
    maybe_upsert_route-winner thousandths hub_one 5 (route_over 7 3 950) 7 routed
      (database-Healthy routes_stored)

failover_routes-NoneVia_example : NoneVia 2 (failover_routes hub_one 2 routed)
failover_routes-NoneVia_example =
    failover_routes-NoneVia hub_one 2 routed (database-Healthy routes_stored)

failover_routes_replaces_example :
    route 8 (failover_routes hub_one 2 routed).db.tables ≡ some (route_over 8 5 300)
unfolding lookup delete_where
failover_routes_replaces_example =
    failover_routes_replaces hub_one 2 8 (route_over 8 5 300 ∷ []) [] (route_over 8 5 300) routed
      (database-Healthy routes_stored) ((refl, tt), ((refl, tt), tt)) (refl, (refl, tt)) refl refl

-- Hellos printed as their three numbers; only originator messages are parsed from them.
abbrev parse_three : Text → Ogm
parse_three (size ∷ value ∷ sent ∷ rest) =
    as_ogm (record { node_id = record { size = size; value = value }; sent_at_unix_ms = sent })
parse_three _ = from_two 0

abbrev numbers : Codec
numbers = record {
  parse_ogm = λ t. some (parse_three t);
  parse_hello = λ t. none;
  print_hello = λ h. h.node_id.size ∷ h.node_id.value ∷ h.sent_at_unix_ms ∷ [];
}

numbers-ParsesByFields : ParsesByFields numbers
numbers-ParsesByFields h = refl

abbrev hello_of_two : Hello
hello_of_two = record { node_id = slice_of 32 2; sent_at_unix_ms = 9223372036854776808 }

-- The message of hub 2 comes from two neighbours, and in between a hello of hub 2.
handle_ogm_again_example :
    let e₁ =
      handle_packets numbers thousandths hub_one
        (record { now = 7; payload = numbers.print_hello hello_of_two; addr = from_b } ∷ [])
        (handle_ogm hub_one thousandths 5 (from_two 7) from_b fresh) in
    SameButCounters (from_two 7) from_c e₁ (handle_ogm hub_one thousandths 9 (from_two 7) from_c e₁)
handle_ogm_again_example =
    handle_ogm_again numbers thousandths hub_one 5 9 (from_two 7) from_b from_c
      (record { now = 7; payload = numbers.print_hello hello_of_two; addr = from_b } ∷ []) fresh
      two_is_other

hello_silences_example :
    SameButCounters
      (from_two 7)
      from_b
      (handle_packet numbers thousandths hub_one 5 (numbers.print_hello hello_of_two) from_b fresh)
      (handle_ogm hub_one thousandths 9 (from_two 7) from_b (
        handle_packet numbers thousandths hub_one 5
          (numbers.print_hello hello_of_two)
          from_b
          fresh))
hello_silences_example =
    hello_silences numbers numbers-ParsesByFields thousandths hub_one 5 9 hello_of_two (from_two 7)
      from_b from_b fresh refl refl two_is_other (omega arith)

-- The costs are equal, and the first has the higher quality.
good : better thousandths (route_over 7 3 950) (route_over 7 2 900) ≡ true
unfolding better cost
good = refl

-- A node first seen one hour after another time, with three sightings by hubs and two endorsers.
abbrev observed : Metrics
observed = record {
  first_seen = 0;
  now = 3600000000000;
  direct_hub_sightings = pos 3;
  relay_sightings = pos 1;
  unique_endorsers = pos 2;
}

compute_bounds_example :
    let b = compute thousandths 2 observed in
    Within max_longevity b.longevity_component
    × Within max_proximity b.proximity_component
    × Within max_endorsement b.endorsement_component
    × (b.total ≡ plus (plus b.longevity_component b.proximity_component) b.endorsement_component)
    × Within 100 b.total
compute_bounds_example = compute_bounds thousandths thousandths-Shares 2 observed (omega arith)
