-- ===== src/Registry/Nodes/Merge.antt =====
-- `MergeGossipNode`: last writer wins.
use quake_mesh.Base.{
  ◌≡◌, ◌≢◌, ◌∙◌, refl, Bool, true, false, Option, none, some, arith, ltb, ◌==◌, nat_eq, nat_beq_iff,
  if◌then◌else◌, inl, inr,
}
use quake_mesh.Base.Text.{Text}
use quake_mesh.Base.Rows.{row_at-insert_row, row_at-update_where}
use quake_mesh.Storage.{NodeId, Millis, Float64, NodeRow, M, Db, Error, ok, err, exec, ran}
use quake_mesh.Storage.Laws.{query_bind-ok, query_bind-err-or}
use quake_mesh.Registry.Nodes.{node_id, node, new_node, merge_into, merge_found, merge_gossip_node}

-- What a gossip message says of a node.
pub record News : Type 0 where
  pub first : Millis
  pub last : Millis
  pub status : Text
  pub lat : Option Float64
  pub lon : Option Float64

abbrev pub merge : NodeId → News → M Bool
merge id n = merge_gossip_node id n.first n.last n.status n.lat n.lon

abbrev merge_row : NodeId → News → Option NodeRow → M Bool
merge_row id n = merge_found id n.first n.last n.status n.lat n.lon

-- Later than what is known.
abbrev pub is_newer : News → Option NodeRow → Bool
is_newer n none = true
is_newer n (some r) = ltb r.last_seen n.last

abbrev pub merged : NodeId → News → Option NodeRow → NodeRow
merged id n none = new_node id n.first n.last n.status n.lat n.lon
merged id n (some r) =
    if ltb r.last_seen n.last then merge_into n.last n.status n.lat n.lon r else r

merge_row-rows :
    (id j : NodeId) (n : News) (db : Db) (found : Option NodeRow) {b : Bool}
    → node id db.tables ≡ found
    → (merge_row id n found db).0 ≡ ok b
    → (b ≡ is_newer n found)
      × (node j (merge_row id n found db).1.tables
          ≡ (if id == j then some (merged id n found) else node j db.tables))
unfolding merge_found exec
merge_row-rows id j n db none e h = ground (
  arith,
  e,
  nat_beq_iff id j,
  row_at-insert_row node_id j (merged id n none) db.tables.node_registry,
)
merge_row-rows id j n db (some r) e h = ground (
  arith,
  e,
  nat_beq_iff id j,
  row_at-update_where node_id id j (merge_into n.last n.status n.lat n.lon) (λ x. refl)
      db.tables.node_registry,
)

pub merge_gossip_node-rows :
    (id j : NodeId) (n : News) (db : Db) {b : Bool}
    → (merge id n db).0 ≡ ok b
    → (b ≡ is_newer n (node id db.tables))
      × (node j (merge id n db).1.tables
          ≡ (if id == j then some (merged id n (node id db.tables)) else node j db.tables))
unfolding merge_gossip_node
merge_gossip_node-rows id j n db h =
    let rest = query_bind-ok (node id) (merge_row id n) db h in
    rw rest (merge_row-rows id j n (ran db) _ refl (rw rest at h))

merge_row-err :
    (id : NodeId) (n : News) (db : Db) (found : Option NodeRow) {e : Error}
    → (merge_row id n found db).0 ≡ err e
    → (merge_row id n found db).1.tables ≡ db.tables
unfolding merge_found exec
merge_row-err id n db none h = ground arith
merge_row-err id n db (some r) h = ground arith

pub merge_gossip_node-err :
    (id : NodeId) (n : News) (db : Db) {e : Error}
    → (merge id n db).0 ≡ err e
    → (merge id n db).1.tables ≡ db.tables
unfolding merge_gossip_node
merge_gossip_node-err id n db h = elim (query_bind-err-or (node id) (merge_row id n) db) [
  | inl stop ↦ rw stop
  | inr rest ↦ rw rest (merge_row-err id n (ran db) _ (rw rest at h))
]

merge_own_row :
    (id : NodeId) (n : News) (db : Db) {b : Bool}
    → (merge id n db).0 ≡ ok b
    → node id (merge id n db).1.tables ≡ some (merged id n (node id db.tables))
merge_own_row id n db h = (merge_gossip_node-rows id id n db h).1 ∙ rw ((nat_beq_iff id id).1 refl)

merged-merged :
    (id : NodeId) (n : News) (o : Option NodeRow)
    → (is_newer n (some (merged id n o)) ≡ false)
      × (merged id n (some (merged id n o)) ≡ merged id n o)
merged-merged id n none = ground arith
merged-merged id n (some r) = ground arith

abbrev pub fresh_part : Option NodeRow → Option (Millis × Text)
fresh_part none = none
fresh_part (some r) = some (r.last_seen, r.status)

merged_comm :
    (id : NodeId) (m n : News) (o : Option NodeRow)
    → m.last ≢ n.last
    → fresh_part (some (merged id n (some (merged id m o))))
      ≡ fresh_part (some (merged id m (some (merged id n o))))
merged_comm id m n none ne = ground arith
merged_comm id m n (some r) ne = ground arith

-- Gossip repeats: a message merged once changes nothing the second time.
pub merge-merge_again :
    (id : NodeId) (n : News) (db : Db) {b c : Bool}
    → (merge id n db).0 ≡ ok b
    → (merge id n (merge id n db).1).0 ≡ ok c
    → (c ≡ false)
      × ((j : NodeId)
          → node j (merge id n (merge id n db).1).1.tables ≡ node j (merge id n db).1.tables)
merge-merge_again id n db h k =
    let twice = merged-merged id n (node id db.tables) in
    let own = merge_own_row id n db h in
    let again = λ (j : NodeId). merge_gossip_node-rows id j n (merge id n db).1 k in
    (
      (again id).0 ∙ rw own twice.0,
      λ j. (again j).1 ∙ rw own (rw twice.1 (ground (arith, nat_beq_iff id j, own))),
    )

-- Two messages of different times about a node leave the same last sighting and status in either
-- order of arrival, whatever was known before, if all four merges succeed.
pub merge-merge_comm :
    (id : NodeId) (m n : News) (db : Db) {a b c d : Bool}
    → m.last ≢ n.last
    → (merge id m db).0 ≡ ok a
    → (merge id n (merge id m db).1).0 ≡ ok b
    → (merge id n db).0 ≡ ok c
    → (merge id m (merge id n db).1).0 ≡ ok d
    → fresh_part (node id (merge id n (merge id m db).1).1.tables)
      ≡ fresh_part (node id (merge id m (merge id n db).1).1.tables)
merge-merge_comm id m n db ne h₁ h₂ h₃ h₄ =
    rw (merge_own_row id n _ h₂, merge_own_row id m _ h₄, merge_own_row id m db h₁)
      (rw (merge_own_row id n db h₃) (merged_comm id m n (node id db.tables) ne))
