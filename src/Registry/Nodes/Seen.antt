-- ===== src/Registry/Nodes/Seen.antt =====
-- `UpsertSeen` against a description of the row that it leaves.
use quake_mesh.Base.{
  ◌≡◌, refl, Bool, true, not, Option, none, some, arith, ◌==◌, nat_eq, nat_beq_iff, if◌then◌else◌,
}
use quake_mesh.Base.Text.{text_eq}
use quake_mesh.Base.Rows.{row_at-insert_row, row_at-update_where}
use quake_mesh.Storage.{NodeId, Millis, NodeRow, Db, Error, ok, err, exec, ran}
use quake_mesh.Storage.Laws.{transaction-err, transaction-ok, query_bind-ok}
use quake_mesh.Registry.Nodes.{node_id, online, node, new_node, refresh, record_seen, upsert_seen}

abbrev pub seen_row : NodeId → Millis → Option NodeRow → NodeRow
seen_row id ts none = new_node id ts ts online none none
seen_row id ts (some r) = refresh ts r

abbrev pub came_online : Option NodeRow → Bool
came_online none = true
came_online (some r) = not (r.status == online)

record_seen-rows :
    (id j : NodeId) (ts : Millis) (db : Db) (found : Option NodeRow) {b : Bool}
    → node id db.tables ≡ found
    → (record_seen id ts found db).0 ≡ ok b
    → (b ≡ came_online found)
      × (node j (record_seen id ts found db).1.tables
          ≡ (if id == j then some (seen_row id ts found) else node j db.tables))
unfolding record_seen exec
record_seen-rows id j ts db none e h = ground (
  arith,
  e,
  nat_beq_iff id j,
  row_at-insert_row node_id j (new_node id ts ts online none none) db.tables.node_registry,
)
record_seen-rows id j ts db (some r) e h = ground (
  arith,
  e,
  nat_beq_iff id j,
  row_at-update_where node_id id j (refresh ts) (λ x. refl) db.tables.node_registry,
)

-- After a successful `UpsertSeen` the node's row is online and carries the time; a new row also
-- has it as its first sighting. All other rows are as before, and the result says whether the
-- node was absent or not online.
pub upsert_seen-rows :
    (id j : NodeId) (ts : Millis) (db : Db) {b : Bool}
    → (upsert_seen id ts db).0 ≡ ok b
    → (b ≡ came_online (node id db.tables))
      × (node j (upsert_seen id ts db).1.tables
          ≡ (if id == j then some (seen_row id ts (node id db.tables)) else node j db.tables))
unfolding upsert_seen
upsert_seen-rows id j ts db h =
    let done = transaction-ok _ db h in
    let rest = query_bind-ok (node id) (record_seen id ts) (ran db) done.0 in
    rw (done.1, rest)
      (record_seen-rows id j ts (ran (ran db)) (node id db.tables) refl (rw rest at done.0))

-- When `UpsertSeen` fails, at whichever statement, every table is as before.
pub upsert_seen-err :
    (id : NodeId) (ts : Millis) (db : Db) {e : Error}
    → (upsert_seen id ts db).0 ≡ err e
    → (upsert_seen id ts db).1.tables ≡ db.tables
unfolding upsert_seen
upsert_seen-err id ts db h = transaction-err _ db h
