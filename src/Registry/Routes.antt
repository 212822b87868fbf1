-- ===== src/Registry/Routes.antt =====
-- hub/internal/registry/registry.go: routing_table.
pub mod Table
use quake_mesh.Base.{ℕ, Bool, Option, List, ◌==◌, nat_eq}
use quake_mesh.Base.Rows.{keyed, row_at, upsert_row, delete_where, count_where}
use quake_mesh.Storage.{NodeId, Route, Tables, M, pure, ◌>>=◌, ◌>>◌, query, exec}

-- The key column.
abbrev pub destination : Route → NodeId
destination r = r.destination

abbrev pub route : NodeId → Tables → Option Route
route id t = row_at destination id t.routing_table

abbrev pub on_routes : (List Route → List Route) → Tables → Tables
on_routes f t = record t { routing_table = f t.routing_table }

-- `INSERT … ON CONFLICT (destination_node_id) DO UPDATE`.
abbrev pub replace_route : Route → Route → Route
replace_route new old = record old {
  next_hop = new.next_hop;
  tq = new.tq;
  latency_ms = new.latency_ms;
  hop_count = new.hop_count;
}

unfoldable pub upsert_route : Route → M (Unit {0})
upsert_route r = exec (on_routes (upsert_row (keyed destination r.destination) (replace_route r) r))

unfoldable pub routes : M (List Route)
routes = query (λ t. t.routing_table)

unfoldable pub get_route : NodeId → M (Option Route)
get_route id = query (route id)

-- `WHERE next_hop_node_id = ?`.
abbrev pub is_via : NodeId → Route → Bool
is_via hop r = r.next_hop == hop

-- The statement's `RowsAffected` is read with it.
unfoldable pub delete_routes_via_next_hop : NodeId → M ℕ
delete_routes_via_next_hop hop = λ db.
    (exec (on_routes (delete_where (is_via hop)))
        >> pure (count_where (is_via hop) db.tables.routing_table))
      db
