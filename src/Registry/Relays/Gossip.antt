-- ===== src/Registry/Relays/Gossip.antt =====
-- `UpsertGossipRelay`: last writer wins, and all of the row is taken over.
use quake_mesh.Base.{
  ◌≡◌, ◌≢◌, ◌∙◌, refl, ap, ℕ, Bool, Option, none, some, arith, ltb, ◌==◌, nat_eq, nat_beq_iff,
  if◌then◌else◌,
}
use quake_mesh.Base.Text.{Text}
use quake_mesh.Base.Rows.{row_at-insert_row, row_at-update_where, row_at-key}
use quake_mesh.Storage.{NodeId, Millis, RelayHub, M, Db, ok, exec, ran}
use quake_mesh.Storage.Laws.{query_bind-ok}
use quake_mesh.Registry.Relays.{
  hub_id, relay, gossip_relay, reverify, merge_relay, upsert_gossip_relay,
}

pub record RelayNews : Type 0 where
  pub ip : Text
  pub port : ℕ
  pub at : Millis

abbrev pub merge : NodeId → RelayNews → M Bool
merge id n = upsert_gossip_relay id n.ip n.port n.at

abbrev merge_row : NodeId → RelayNews → Option RelayHub → M Bool
merge_row id n = merge_relay id n.ip n.port n.at

-- The later of what is said and what is known.
abbrev pub latest : NodeId → RelayNews → Option RelayHub → RelayHub
latest id n none = gossip_relay id n.ip n.port n.at
latest id n (some r) = if ltb r.last_verified n.at then gossip_relay id n.ip n.port n.at else r

merge_row-rows :
    (id j : NodeId) (n : RelayNews) (db : Db) (found : Option RelayHub) {b : Bool}
    → relay id db.tables ≡ found
    → (merge_row id n found db).0 ≡ ok b
    → relay j (merge_row id n found db).1.tables
      ≡ (if id == j then some (latest id n found) else relay j db.tables)
unfolding merge_relay exec
merge_row-rows id j n db none e h =
    ground (
      arith,
      e,
      nat_beq_iff id j,
      row_at-insert_row hub_id j (latest id n none) db.tables.relay_hubs,
    )
merge_row-rows id j n db (some r) e h = ground (
  arith,
  e,
  nat_beq_iff id j,
  row_at-key hub_id id db.tables.relay_hubs r e,
  row_at-update_where hub_id id j (reverify n.ip n.port n.at) (λ x. refl) db.tables.relay_hubs,
)

pub upsert_gossip_relay-rows :
    (id j : NodeId) (n : RelayNews) (db : Db) {b : Bool}
    → (merge id n db).0 ≡ ok b
    → relay j (merge id n db).1.tables
      ≡ (if id == j then some (latest id n (relay id db.tables)) else relay j db.tables)
unfolding upsert_gossip_relay
upsert_gossip_relay-rows id j n db h =
    let rest = query_bind-ok (relay id) (merge_row id n) db h in
    rw rest (merge_row-rows id j n (ran db) _ refl (rw rest at h))

merge_own_row :
    (id : NodeId) (n : RelayNews) (db : Db) {b : Bool}
    → (merge id n db).0 ≡ ok b
    → relay id (merge id n db).1.tables ≡ some (latest id n (relay id db.tables))
merge_own_row id n db h = upsert_gossip_relay-rows id id n db h ∙ rw ((nat_beq_iff id id).1 refl)

latest_comm :
    (id : NodeId) (m n : RelayNews) (o : Option RelayHub)
    → m.at ≢ n.at
    → latest id n (some (latest id m o)) ≡ latest id m (some (latest id n o))
latest_comm id m n none ne = ground arith
latest_comm id m n (some r) ne = ground arith

-- Two messages of different times about a relay leave the same row in either order of arrival.
pub merge-merge_comm_relay :
    (id : NodeId) (m n : RelayNews) (db : Db) {a b c d : Bool}
    → m.at ≢ n.at
    → (merge id m db).0 ≡ ok a
    → (merge id n (merge id m db).1).0 ≡ ok b
    → (merge id n db).0 ≡ ok c
    → (merge id m (merge id n db).1).0 ≡ ok d
    → relay id (merge id n (merge id m db).1).1.tables
      ≡ relay id (merge id m (merge id n db).1).1.tables
merge-merge_comm_relay id m n db ne h₁ h₂ h₃ h₄ =
    rw (merge_own_row id n _ h₂, merge_own_row id m _ h₄, merge_own_row id m db h₁)
      (rw (merge_own_row id n db h₃) (ap some (latest_comm id m n (relay id db.tables) ne)))
