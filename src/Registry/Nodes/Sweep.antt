-- ===== src/Registry/Nodes/Sweep.antt =====
-- `MarkStaleBefore`: which rows go stale, and that one sweep is enough.
use mathlib.Core.Option
use quake_mesh.Base.{◌≡◌, refl, ap, false, List, [], ◌∷◌, map, arith, if◌then◌else◌}
use quake_mesh.Base.Text.{text_beq}
use quake_mesh.Base.Rows.{
  select_where, update_where, count_where, select_first-update_where, update_where-unmatched,
  count_where-update_where,
}
use quake_mesh.Storage.{NodeId, Millis, NodeRow, Tables, Db, Error, ok, err, ◌>>◌, pure, exec, ran}
use quake_mesh.Storage.Laws.{transaction-err, transaction-ok, query_bind-ok}
use quake_mesh.Registry.Nodes.{
  is_node, node, on_nodes, is_overdue, to_stale, mark_found, mark_stale_before,
}

abbrev overdue_ids : Millis → Tables → List NodeId
overdue_ids cutoff t = map (λ r. r.node_id) (select_where (is_overdue cutoff) t.node_registry)

abbrev swept : Millis → Tables → Tables
swept cutoff = on_nodes (update_where (is_overdue cutoff) to_stale)

swept_none :
    (cutoff : Millis) (t : Tables) (rows : List NodeRow)
    → select_where (is_overdue cutoff) t.node_registry ≡ rows
    → map (λ r. r.node_id) rows ≡ []
    → swept cutoff t ≡ t
swept_none cutoff t [] e h =
    ap (λ rows. record t { node_registry = rows })
      (update_where-unmatched (is_overdue cutoff) to_stale t.node_registry e)
swept_none cutoff t (r ∷ rows) e h = cc

mark_found-swept :
    (cutoff : Millis) (db : Db) (found : List NodeId) {ids : List NodeId}
    → overdue_ids cutoff db.tables ≡ found
    → ((mark_found cutoff found >> pure found) db).0 ≡ ok ids
    → (ids ≡ found)
      × (((mark_found cutoff found >> pure found) db).1.tables ≡ swept cutoff db.tables)
unfolding mark_found exec
mark_found-swept cutoff db [] e h =
    (ground arith, ground (arith, swept_none cutoff db.tables _ refl e))
mark_found-swept cutoff db (id ∷ found) e h = ground arith

mark_stale_before-swept :
    (cutoff : Millis) (db : Db) {ids : List NodeId}
    → (mark_stale_before cutoff db).0 ≡ ok ids
    → (ids ≡ overdue_ids cutoff db.tables)
      × ((mark_stale_before cutoff db).1.tables ≡ swept cutoff db.tables)
unfolding mark_stale_before
mark_stale_before-swept cutoff db h =
    let done = transaction-ok _ db h in
    let rest =
      query_bind-ok (overdue_ids cutoff) (λ found. mark_found cutoff found >> pure found) (ran db)
        done.0 in
    rw (done.1, rest) (mark_found-swept cutoff (ran (ran db)) _ refl (rw rest at done.0))

stale-not_overdue : (cutoff : Millis) (r : NodeRow) → is_overdue cutoff (to_stale r) ≡ false
unfolding text_beq
stale-not_overdue cutoff r = refl

-- After a successful sweep each row is as before, but stale if it was online and last seen before
-- the cutoff. The result lists the ids of those rows, and no such row is left.
pub mark_stale_before-rows :
    (cutoff : Millis) (j : NodeId) (db : Db) {ids : List NodeId}
    → (mark_stale_before cutoff db).0 ≡ ok ids
    → let t = (mark_stale_before cutoff db).1.tables in
      (ids ≡ map (λ r. r.node_id) (select_where (is_overdue cutoff) db.tables.node_registry))
      × (node j t
          ≡ Option.map (λ r. if is_overdue cutoff r then to_stale r else r) (node j db.tables))
      × (count_where (is_overdue cutoff) t.node_registry ≡ 0)
mark_stale_before-rows cutoff j db h =
    let done = mark_stale_before-swept cutoff db h in
    let rows = db.tables.node_registry in
    (
      done.0,
      rw done.1
          (select_first-update_where (is_node j) (is_overdue cutoff) to_stale (λ r. refl) rows),
      rw done.1
          (count_where-update_where (is_overdue cutoff) to_stale (stale-not_overdue cutoff) rows),
    )

-- A sweep that fails changes nothing.
pub mark_stale_before-err :
    (cutoff : Millis) (db : Db) {e : Error}
    → (mark_stale_before cutoff db).0 ≡ err e
    → (mark_stale_before cutoff db).1.tables ≡ db.tables
unfolding mark_stale_before
mark_stale_before-err cutoff db h = transaction-err _ db h
