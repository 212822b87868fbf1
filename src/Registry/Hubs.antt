-- ===== src/Registry/Hubs.antt =====
-- hub/internal/registry/registry.go: hub_registry.
pub mod Contact
use quake_mesh.Base.{
  leb, if◌then◌else◌, ℕ, Bool, true, false, not, ◌&&◌, Option, none, some, List, [], ◌∷◌, map, ltb,
  ◌==◌, nat_eq,
}
use quake_mesh.Base.Text.{Text, text_eq}
use quake_mesh.Base.Rows.{keyed, row_at, select_where, update_where, insert_row}
use quake_mesh.Storage.{
  NodeId, Millis, Float64, HubRow, Tables, M, pure, ◌>>=◌, ◌>>◌, query, exec, transaction,
}
use quake_mesh.Registry.Nodes.{online, stale}

-- The key column.
abbrev pub hub_id : HubRow → NodeId
hub_id r = r.hub_id

-- `WHERE hub_id = ?`.
abbrev pub is_hub : NodeId → HubRow → Bool
is_hub = keyed hub_id

abbrev pub hub : NodeId → Tables → Option HubRow
hub id t = row_at hub_id id t.hub_registry

abbrev pub on_hubs : (List HubRow → List HubRow) → Tables → Tables
on_hubs f t = record t { hub_registry = f t.hub_registry }

abbrev pub new_hub : NodeId → Text → ℕ → Millis → HubRow
new_hub id ip port ts = record {
  hub_id = id;
  last_ip = some ip;
  last_port = some port;
  relay_capable = false;
  first_seen = ts;
  last_seen = ts;
  status = online;
  manual_lat = none;
  manual_lon = none;
}

abbrev pub refresh_hub : Text → ℕ → Millis → HubRow → HubRow
refresh_hub ip port ts r = record r {
  last_ip = some ip;
  last_port = some port;
  last_seen = ts;
  status = online;
}

-- The branches of the `switch` in `UpsertHubSeen`, and its result.
unfoldable pub record_hub_seen : NodeId → Text → ℕ → Millis → Option HubRow → M Bool
record_hub_seen id ip port ts none = do
  exec (on_hubs (insert_row (new_hub id ip port ts)))
  pure true
record_hub_seen id ip port ts (some r) = do
  exec (on_hubs (update_where (is_hub id) (refresh_hub ip port ts)))
  pure (not (r.status == online))

unfoldable pub upsert_hub_seen : NodeId → Text → ℕ → Millis → M Bool
unfolding record_hub_seen
upsert_hub_seen id ip port ts = transaction (query (hub id) >>= record_hub_seen id ip port ts)

abbrev pub is_overdue_hub : Millis → HubRow → Bool
is_overdue_hub cutoff r = r.status == online && ltb r.last_seen cutoff

abbrev pub hub_to_stale : HubRow → HubRow
hub_to_stale r = record r { status = stale }

unfoldable pub mark_found_hubs : Millis → List NodeId → M (Unit {0})
mark_found_hubs cutoff [] = pure tt
mark_found_hubs cutoff (id ∷ ids) =
    exec (on_hubs (update_where (is_overdue_hub cutoff) hub_to_stale))

unfoldable pub mark_hubs_stale_before : Millis → M (List NodeId)
unfolding mark_found_hubs
mark_hubs_stale_before cutoff = transaction do
  found ← query (λ t. map (λ r. r.hub_id) (select_where (is_overdue_hub cutoff) t.hub_registry))
  mark_found_hubs cutoff found
  pure found

-- `Hub`: what a listing tells of a row, where a NULL is the zero value.
pub record Hub : Type 0 where
  pub hub_id : NodeId
  pub last_ip : Text
  pub last_port : ℕ
  pub relay_capable : Bool
  pub first_seen : Millis
  pub last_seen : Millis
  pub status : Text

abbrev pub text_or_empty : Option Text → Text
text_or_empty none = []
text_or_empty (some t) = t

abbrev pub port_or_zero : Option ℕ → ℕ
port_or_zero none = 0
port_or_zero (some n) = n

abbrev pub listed : HubRow → Hub
listed r = record {
  hub_id = r.hub_id;
  last_ip = text_or_empty r.last_ip;
  last_port = port_or_zero r.last_port;
  relay_capable = r.relay_capable;
  first_seen = r.first_seen;
  last_seen = r.last_seen;
  status = r.status;
}

-- `ORDER BY last_seen DESC`.
unfoldable pub insert_by_contact : HubRow → List HubRow → List HubRow
insert_by_contact r [] = r ∷ []
insert_by_contact r (x ∷ l) =
    let rest = insert_by_contact r l in if leb x.last_seen r.last_seen then r ∷ x ∷ l else x ∷ rest

unfoldable pub order_by_contact : List HubRow → List HubRow
unfolding insert_by_contact
order_by_contact [] = []
order_by_contact (r ∷ l) = insert_by_contact r (order_by_contact l)

unfoldable pub hubs : M (List Hub)
unfolding order_by_contact
hubs = query (λ t. map listed (order_by_contact t.hub_registry))

unfoldable pub set_hub_manual_location : NodeId → Float64 → Float64 → M (Unit {0})
set_hub_manual_location id lat lon = exec (
    on_hubs
      (update_where (is_hub id) (λ r. record r { manual_lat = some lat; manual_lon = some lon })))
