-- ===== src/Tests/Stores.antt =====
-- The theorems on the registry and on trust at concrete inputs.
use quake_mesh.Base.{◌≡◌, refl, ◌<◌, max, true, false, none, some, [], ◌∷◌, ◌==◌, nat_eq, arith}
use quake_mesh.Base.Rows.{count_where, select_where, select_first, update_where, insert_row}
use quake_mesh.Base.Text.{codes, text_beq}
use quake_mesh.Storage.{Tables, empty_tables, Db, ok, err, fault, query, exec, transaction}
use quake_mesh.Registry.Nodes.{
  node, upsert_seen, record_seen, mark_found, mark_stale_before, merge_found, merge_gossip_node,
}
use quake_mesh.Registry.Nodes.Merge.{News, merge, fresh_part, merge-merge_comm}
use quake_mesh.Registry.Routes.{upsert_route, delete_routes_via_next_hop}
use quake_mesh.Registry.Relays.{merge_relay, upsert_gossip_relay}
use quake_mesh.Registry.Relays.Gossip
use quake_mesh.Registry.Relays.Gossip.{RelayNews, merge-merge_comm_relay}
use quake_mesh.Trust.Store.{add_endorsement, has_proximity, hub_direct}
use quake_mesh.Trust.Store.Endorse.{sightings, endorsements, add_endorsement-count}
use quake_mesh.Base.Int.{negsuc}
use quake_mesh.Tests.Data.{database, route_over, node_row}

-- Node 1 was last seen online at 50, node 2 is stale.
abbrev two_nodes : Tables
two_nodes = record empty_tables {
  node_registry = node_row 1 50 (codes "online") ∷ node_row 2 40 (codes "stale") ∷ [];
}

abbrev db : Db
db = database two_nodes

-- The second statement fails.
abbrev failing : Db
failing = record db { faults = λ n. n == 2 }

seen_two : (upsert_seen 2 90 db).0 ≡ ok true
unfolding upsert_seen record_seen transaction query exec select_first update_where text_beq
seen_two = refl

not_seen : (upsert_seen 2 90 failing).0 ≡ err fault
unfolding upsert_seen record_seen transaction query exec select_first update_where text_beq
not_seen = refl

one_overdue : (mark_stale_before 60 db).0 ≡ ok (1 ∷ [])
unfolding mark_stale_before mark_found transaction query exec select_where text_beq
one_overdue = refl

abbrev early : News
early = record { first = 1; last = 70; status = codes "online"; lat = none; lon = none }

abbrev late : News
late = record { first = 2; last = 80; status = codes "stale"; lat = some 5; lon = some 6 }

early_merged : (merge 1 early db).0 ≡ ok true
unfolding merge_gossip_node merge_found query exec select_first update_where
early_merged = refl

early_again : (merge 1 early (merge 1 early db).1).0 ≡ ok false
unfolding merge_gossip_node merge_found query exec select_first update_where
early_again = refl

late_after : (merge 1 late (merge 1 early db).1).0 ≡ ok true
unfolding merge_gossip_node merge_found query exec select_first update_where
late_after = refl

late_merged : (merge 1 late db).0 ≡ ok true
unfolding merge_gossip_node merge_found query exec select_first update_where
late_merged = refl

early_after : (merge 1 early (merge 1 late db).1).0 ≡ ok false
unfolding merge_gossip_node merge_found query exec select_first update_where
early_after = refl

merge-merge_comm_example :
    fresh_part (node 1 (merge 1 late (merge 1 early db).1).1.tables)
    ≡ fresh_part (node 1 (merge 1 early (merge 1 late db).1).1.tables)
merge-merge_comm_example =
    merge-merge_comm 1 early late db (λ h. omega (arith, h)) early_merged late_after late_merged
      early_after

-- Destinations 7 and 8 over 2, destination 9 over 3.
abbrev three_routes : Tables
three_routes = record empty_tables {
  routing_table = route_over 7 2 900 ∷ route_over 8 2 900 ∷ route_over 9 3 900 ∷ [];
}

stored_seven : (upsert_route (route_over 7 3 500) (database three_routes)).0 ≡ ok tt
unfolding upsert_route exec
stored_seven = refl

two_deleted : (delete_routes_via_next_hop 2 (database three_routes)).0 ≡ ok 2
unfolding delete_routes_via_next_hop exec count_where
two_deleted = refl

abbrev relay_early : RelayNews
relay_early = record { ip = codes "a"; port = 1; at = 70 }

abbrev relay_late : RelayNews
relay_late = record { ip = codes "b"; port = 2; at = 80 }

relay_early_merged : (Gossip.merge 6 relay_early db).0 ≡ ok true
unfolding upsert_gossip_relay merge_relay query exec select_first update_where insert_row
relay_early_merged = refl

relay_late_after : (Gossip.merge 6 relay_late (Gossip.merge 6 relay_early db).1).0 ≡ ok true
unfolding upsert_gossip_relay merge_relay query exec select_first update_where insert_row
relay_late_after = refl

relay_late_merged : (Gossip.merge 6 relay_late db).0 ≡ ok true
unfolding upsert_gossip_relay merge_relay query exec select_first update_where insert_row
relay_late_merged = refl

relay_early_after : (Gossip.merge 6 relay_early (Gossip.merge 6 relay_late db).1).0 ≡ ok false
unfolding upsert_gossip_relay merge_relay query exec select_first update_where insert_row
relay_early_after = refl

-- Hub 3 saw node 4.
abbrev one_sighting : Tables
one_sighting = record empty_tables {
  proximity_events =
      record {
        observer = 3;
        observed = 4;
        rssi = negsuc 54;
        transport = hub_direct;
        observed_at = 20;
      }
      ∷ [];
}

endorsed : (add_endorsement 3 4 [] 30 (database one_sighting)).0 ≡ ok tt
unfolding add_endorsement has_proximity query exec count_where
endorsed = refl

add_endorsement-count_example :
    (0 < sightings 3 4 one_sighting)
    × (endorsements 3 4 (add_endorsement 3 4 [] 30 (database one_sighting)).1.tables
        ≡ max 1 (endorsements 3 4 one_sighting))
add_endorsement-count_example = add_endorsement-count 3 4 [] 30 (database one_sighting) endorsed
