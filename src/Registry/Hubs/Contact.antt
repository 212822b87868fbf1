-- ===== src/Registry/Hubs/Contact.antt =====
-- `UpsertHubSeen` against a description of the row that it leaves.
use quake_mesh.Base.{
  ◌≡◌, refl, ℕ, Bool, true, not, Option, none, some, arith, ◌==◌, nat_eq, nat_beq_iff,
  if◌then◌else◌,
}
use quake_mesh.Base.Text.{Text, text_eq}
use quake_mesh.Base.Rows.{row_at-insert_row, row_at-update_where}
use quake_mesh.Storage.{NodeId, Millis, HubRow, Db, Error, ok, err, exec, ran}
use quake_mesh.Storage.Laws.{transaction-err, transaction-ok, query_bind-ok}
use quake_mesh.Registry.Nodes.{online}
use quake_mesh.Registry.Hubs.{hub_id, hub, new_hub, refresh_hub, record_hub_seen, upsert_hub_seen}

abbrev pub seen_hub : NodeId → Text → ℕ → Millis → Option HubRow → HubRow
seen_hub id ip port ts none = new_hub id ip port ts
seen_hub id ip port ts (some r) = refresh_hub ip port ts r

abbrev pub hub_came_online : Option HubRow → Bool
hub_came_online none = true
hub_came_online (some r) = not (r.status == online)

record_hub_seen-rows :
    (id j : NodeId) (ip : Text) (port : ℕ) (ts : Millis) (db : Db) (found : Option HubRow)
    {b : Bool}
    → hub id db.tables ≡ found
    → (record_hub_seen id ip port ts found db).0 ≡ ok b
    → (b ≡ hub_came_online found)
      × (hub j (record_hub_seen id ip port ts found db).1.tables
          ≡ (if id == j then some (seen_hub id ip port ts found) else hub j db.tables))
unfolding record_hub_seen exec
record_hub_seen-rows id j ip port ts db none e h = ground (
  arith,
  e,
  nat_beq_iff id j,
  row_at-insert_row hub_id j (new_hub id ip port ts) db.tables.hub_registry,
)
record_hub_seen-rows id j ip port ts db (some r) e h = ground (
  arith,
  e,
  nat_beq_iff id j,
  row_at-update_where hub_id id j (refresh_hub ip port ts) (λ x. refl) db.tables.hub_registry,
)

-- After a successful `UpsertHubSeen` the hub's row is online at the given address and time, and a
-- new row is not relay capable. All other rows are as before, and the result says whether the hub
-- was absent or not online.
pub upsert_hub_seen-rows :
    (id j : NodeId) (ip : Text) (port : ℕ) (ts : Millis) (db : Db) {b : Bool}
    → (upsert_hub_seen id ip port ts db).0 ≡ ok b
    → (b ≡ hub_came_online (hub id db.tables))
      × (hub j (upsert_hub_seen id ip port ts db).1.tables
          ≡ (if id == j then some (seen_hub id ip port ts (hub id db.tables)) else hub j db.tables))
unfolding upsert_hub_seen
upsert_hub_seen-rows id j ip port ts db h =
    let done = transaction-ok _ db h in
    let rest = query_bind-ok (hub id) (record_hub_seen id ip port ts) (ran db) done.0 in
    rw (done.1, rest)
      (record_hub_seen-rows id j ip port ts (ran (ran db)) (hub id db.tables) refl
        (rw rest at done.0))

pub upsert_hub_seen-err :
    (id : NodeId) (ip : Text) (port : ℕ) (ts : Millis) (db : Db) {e : Error}
    → (upsert_hub_seen id ip port ts db).0 ≡ err e
    → (upsert_hub_seen id ip port ts db).1.tables ≡ db.tables
unfolding upsert_hub_seen
upsert_hub_seen-err id ip port ts db h = transaction-err _ db h
