-- ===== src/Registry/Relays.antt =====
-- hub/internal/registry/registry.go: relay_hubs.
pub mod Gossip
use quake_mesh.Base.{
  ℕ, Bool, true, false, Option, none, some, List, leb, ◌==◌, nat_eq, if◌then◌else◌,
}
use quake_mesh.Base.Text.{Text, codes}
use quake_mesh.Base.Rows.{keyed, row_at, update_where, insert_row}
use quake_mesh.Storage.{NodeId, Millis, RelayHub, Tables, M, pure, ◌>>=◌, ◌>>◌, query, exec}

-- The key column.
abbrev pub hub_id : RelayHub → NodeId
hub_id r = r.hub_id

abbrev pub relay : NodeId → Tables → Option RelayHub
relay id t = row_at hub_id id t.relay_hubs

abbrev pub on_relays : (List RelayHub → List RelayHub) → Tables → Tables
on_relays f t = record t { relay_hubs = f t.relay_hubs }

unfoldable pub list_relay_hubs : M (List RelayHub)
list_relay_hubs = query (λ t. t.relay_hubs)

abbrev pub gossip_relay : NodeId → Text → ℕ → Millis → RelayHub
gossip_relay id ip port at = record {
  hub_id = id;
  ip = ip;
  port = port;
  source = codes "gossip";
  last_verified = at;
}

abbrev pub reverify : Text → ℕ → Millis → RelayHub → RelayHub
reverify ip port at r = record r {
  ip = ip;
  port = port;
  source = codes "gossip";
  last_verified = at;
}

-- The branches of the `switch` in `UpsertGossipRelay`.
unfoldable pub merge_relay : NodeId → Text → ℕ → Millis → Option RelayHub → M Bool
merge_relay id ip port at none = do
  exec (on_relays (insert_row (gossip_relay id ip port at)))
  pure true
merge_relay id ip port at (some r) =
    if leb at r.last_verified
    then pure false
    else (do exec (on_relays (update_where (keyed hub_id id) (reverify ip port at))); pure true)

unfoldable pub upsert_gossip_relay : NodeId → Text → ℕ → Millis → M Bool
unfolding merge_relay
upsert_gossip_relay id ip port at = query (relay id) >>= merge_relay id ip port at
