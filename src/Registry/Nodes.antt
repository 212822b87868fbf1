-- ===== src/Registry/Nodes.antt =====
-- hub/internal/registry/registry.go: node_registry.
pub mod Seen
pub mod Sweep
pub mod Merge
use quake_mesh.Base.{
  ℕ, ◌≤◌, max, Bool, true, false, not, ◌&&◌, Option, none, some, List, [], ◌∷◌, map, ltb, leb, ◌==◌,
  nat_eq, if◌then◌else◌,
}
use quake_mesh.Base.Text.{Text, codes, text_eq, trim_space}
use quake_mesh.Base.Rows.{keyed, row_at, select_where, update_where, insert_row, or_else}
use quake_mesh.Storage.{
  storable, NodeId, Millis, Float64, NodeRow, Tables, M, pure, ◌>>=◌, ◌>>◌, query, exec,
  transaction,
}

abbrev pub online : Text
online = codes "online"

abbrev pub stale : Text
stale = codes "stale"

-- The key column.
abbrev pub node_id : NodeRow → NodeId
node_id r = r.node_id

-- `WHERE node_id = ?`.
abbrev pub is_node : NodeId → NodeRow → Bool
is_node = keyed node_id

abbrev pub node : NodeId → Tables → Option NodeRow
node id t = row_at node_id id t.node_registry

abbrev pub on_nodes : (List NodeRow → List NodeRow) → Tables → Tables
on_nodes f t = record t { node_registry = f t.node_registry }

abbrev pub new_node : NodeId → Millis → Millis → Text → Option Float64 → Option Float64 → NodeRow
new_node id first last status lat lon = record {
  node_id = id;
  first_seen = first;
  last_seen = last;
  last_lat = storable lat;
  last_lon = storable lon;
  status = status;
  handle = none;
  home_lat = none;
  home_lon = none;
}

-- `UPDATE … SET last_seen = ?, status = 'online'`.
abbrev pub refresh : Millis → NodeRow → NodeRow
refresh ts r = record r { last_seen = ts; status = online }

-- The branches of the `switch` in `UpsertSeen`, and its result.
unfoldable pub record_seen : NodeId → Millis → Option NodeRow → M Bool
record_seen id ts none = do
  exec (on_nodes (insert_row (new_node id ts ts online none none)))
  pure true
record_seen id ts (some r) = do
  exec (on_nodes (update_where (is_node id) (refresh ts)))
  pure (not (r.status == online))

unfoldable pub upsert_seen : NodeId → Millis → M Bool
unfolding record_seen
upsert_seen id ts = transaction (query (node id) >>= record_seen id ts)

-- An empty text is stored as NULL.
abbrev pub null_if_empty : Text → Option Text
null_if_empty [] = none
null_if_empty (c ∷ s) = some (c ∷ s)

unfoldable pub set_handle : NodeId → Option Text → M (Unit {0})
set_handle id none = pure tt
set_handle id (some h) =
    exec (
      on_nodes
        (update_where (is_node id) (λ r. record r { handle = null_if_empty (trim_space h) })))

unfoldable pub set_home : NodeId → Option Float64 → Option Float64 → M (Unit {0})
set_home id (some lat) (some lon) = exec (
    on_nodes
      (update_where (is_node id) (λ r. record r { home_lat = some lat; home_lon = some lon })))
set_home id _ _ = pure tt

-- Two statements, with no transaction around them.
unfoldable pub update_profile :
    NodeId → Option Text → Option Float64 → Option Float64 → M (Unit {0})
unfolding set_handle set_home
update_profile id handle lat lon = set_handle id handle >> set_home id lat lon

unfoldable pub update_location : NodeId → Float64 → Float64 → Millis → M (Unit {0})
update_location id lat lon at = exec (
    on_nodes (
      update_where (is_node id) (λ r. record r {
        last_lat = storable (some lat);
        last_lon = storable (some lon);
        last_seen = max r.last_seen at;
      })))

-- `WHERE status = 'online' AND last_seen < ?`.
abbrev pub is_overdue : Millis → NodeRow → Bool
is_overdue cutoff r = r.status == online && ltb r.last_seen cutoff

abbrev pub to_stale : NodeRow → NodeRow
to_stale r = record r { status = stale }

-- `if len(stale) > 0`.
unfoldable pub mark_found : Millis → List NodeId → M (Unit {0})
mark_found cutoff [] = pure tt
mark_found cutoff (id ∷ ids) = exec (on_nodes (update_where (is_overdue cutoff) to_stale))

unfoldable pub mark_stale_before : Millis → M (List NodeId)
unfolding mark_found
mark_stale_before cutoff = transaction do
  found ← query (λ t. map (λ r. r.node_id) (select_where (is_overdue cutoff) t.node_registry))
  mark_found cutoff found
  pure found

unfoldable pub nodes : M (List NodeRow)
nodes = query (λ t. t.node_registry)

-- The UPDATE of `MergeGossipNode`; COALESCE keeps a known position.
abbrev pub merge_into : Millis → Text → Option Float64 → Option Float64 → NodeRow → NodeRow
merge_into last status lat lon r = record r {
  last_seen = last;
  last_lat = or_else (storable lat) r.last_lat;
  last_lon = or_else (storable lon) r.last_lon;
  status = status;
}

unfoldable pub merge_found :
    NodeId → Millis → Millis → Text → Option Float64 → Option Float64 → Option NodeRow → M Bool
merge_found id first last status lat lon none = do
  exec (on_nodes (insert_row (new_node id first last status lat lon)))
  pure true
merge_found id first last status lat lon (some r) = if leb last r.last_seen then pure false else (do
  exec (on_nodes (update_where (is_node id) (merge_into last status lat lon)))
  pure true)

unfoldable pub merge_gossip_node :
    NodeId → Millis → Millis → Text → Option Float64 → Option Float64 → M Bool
unfolding merge_found
merge_gossip_node id first last status lat lon =
    query (node id) >>= merge_found id first last status lat lon
