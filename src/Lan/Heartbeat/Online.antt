-- ===== src/Lan/Heartbeat/Online.antt =====
-- A node that is online and last seen at some time, and what leaves it so.
use quake_mesh.Base.{
  ◌≡◌, refl, inl, inr, ◌∙◌, max, not, ◌&&◌, Option, none, some, arith, if_elim, nat_eq, nat_beq_iff,
  ◌==◌,
}
use quake_mesh.Base.Float.{FloatOps}
use quake_mesh.Base.Text.{Text, text_eq, trim_space}
use quake_mesh.Base.Rows.{row_at-update_where, update_where}
use quake_mesh.Storage.{
  storable, NodeId, Millis, Float64, NodeRow, Tables, Db, M, Result, ok, err, exec, after,
}
use quake_mesh.Registry.Nodes.{
  is_node, node, node_id, null_if_empty, on_nodes, online, set_handle, set_home, update_location,
  update_profile,
}
use quake_mesh.Lan.{Context, Library, segment_id, valid}
use quake_mesh.Lan.Segments.{entity_hub, entity_node, record_membership, record_in_segment}
use quake_mesh.Lan.Segments.Membership.{Result-cases, record_in_segment-ok, record_in_segment-err}

pub exec-keeps :
    (P : Tables → Type 0) (f : Tables → Tables) (db : Db)
    → P db.tables
    → P (f db.tables)
    → P (exec f db).1.tables
unfolding exec
exec-keeps P f db old new =
    if_elim (λ (r : Result (Unit {0}) × Db). P r.1.tables) (db.faults db.done) old new

after-keeps :
    {A B : Type 0} (P : Tables → Type 0) (r : Result A × Db) (k : A → M B)
    → P r.1.tables
    → ((a : A) (db : Db) → P db.tables → P (k a db).1.tables)
    → P (after r k).1.tables
after-keeps P (ok a, db) k old next = next a db old
after-keeps P (err e, db) k old next = old

-- The node is known to be online since then.
abbrev pub IsOnline : NodeId → Millis → Tables → Type 0
IsOnline id now t = (r : NodeRow) × (node id t ≡ some r) × (r.status ≡ online) × (r.last_seen ≡ now)

module _ (id : NodeId) (now : Millis) where
  update-IsOnline :
      (g : NodeRow → NodeRow)
      → ((r : NodeRow) → (g r).node_id ≡ r.node_id)
      → ((r : NodeRow) → (g r).status ≡ r.status)
      → ((r : NodeRow) → r.last_seen ≡ now → (g r).last_seen ≡ now)
      → (t : Tables) → IsOnline id now t
      → IsOnline id now (on_nodes (update_where (is_node id) g) t)
  update-IsOnline g same up late t (r, has, is_up, seen) = (
    g r,
    rw (row_at-update_where node_id id id g same t.node_registry, (nat_beq_iff id id).1 refl, has)
        refl,
    up r ∙ is_up,
    late r seen,
  )

  pub update_location-IsOnline :
      (lat lon : Float64) (db : Db)
      → IsOnline id now db.tables
      → IsOnline id now (update_location id lat lon now db).1.tables
  unfolding update_location
  update_location-IsOnline lat lon db h = exec-keeps (IsOnline id now) _ db h (
      update-IsOnline
        (λ r. record r {
          last_lat = storable (some lat);
          last_lon = storable (some lon);
          last_seen = max r.last_seen now;
        })
        (λ r. refl) (λ r. refl) (λ r seen. rw seen (omega arith)) db.tables h)

  set_handle-IsOnline :
      (o : Option Text) (db : Db)
      → IsOnline id now db.tables
      → IsOnline id now (set_handle id o db).1.tables
  unfolding set_handle
  set_handle-IsOnline none db h = h
  set_handle-IsOnline (some t) db h = exec-keeps (IsOnline id now) _ db h (
      update-IsOnline (λ r. record r { handle = null_if_empty (trim_space t) }) (λ r. refl)
        (λ r. refl) (λ r seen. seen) db.tables h)

  set_home-IsOnline :
      (lat lon : Option Float64) (db : Db)
      → IsOnline id now db.tables
      → IsOnline id now (set_home id lat lon db).1.tables
  unfolding set_home
  set_home-IsOnline none lon db h = h
  set_home-IsOnline (some lat) none db h = h
  set_home-IsOnline (some lat) (some lon) db h = exec-keeps (IsOnline id now) _ db h (
      update-IsOnline (λ r. record r { home_lat = some lat; home_lon = some lon }) (λ r. refl)
        (λ r. refl) (λ r seen. seen) db.tables h)

  pub update_profile-IsOnline :
      (o : Option Text) (lat lon : Option Float64) (db : Db)
      → IsOnline id now db.tables
      → IsOnline id now (update_profile id o lat lon db).1.tables
  unfolding update_profile
  update_profile-IsOnline o lat lon db h =
      after-keeps (IsOnline id now) (set_handle id o db) (λ u. set_home id lat lon)
        (set_handle-IsOnline o db h) (λ u. set_home-IsOnline lat lon)

record_in_segment-nodes :
    (f : FloatOps) (id type : Text) (entity : NodeId) (c : Context) (at : Millis) (db : Db)
    → (record_in_segment f id type entity c at db).1.tables.node_registry ≡ db.tables.node_registry
record_in_segment-nodes f id type entity c at db =
    elim (Result-cases (record_in_segment f id type entity c at db).0) [
      | inl (u, done) ↦ rw (record_in_segment-ok f id type entity c at db done) refl
      | inr (e, failed) ↦ rw (record_in_segment-err f id type entity c at db failed) refl
    ]

pub record_membership-nodes :
    (f : FloatOps) (lib : Library) (type : Text) (entity : NodeId) (c : Context) (at : Millis)
    (db : Db)
    → (record_membership f lib type entity c at db).1.tables.node_registry ≡ db.tables.node_registry
unfolding record_membership
record_membership-nodes f lib type entity c at db =
    let P : M (Unit {0}) → Type 0 = λ m. (m db).1.tables.node_registry ≡ db.tables.node_registry in
    if_elim P (not (valid c)) refl (
      if_elim P (not (type == entity_node) && not (type == entity_hub)) refl
        (record_in_segment-nodes f (segment_id lib c) type entity c at db))

pub same_nodes-IsOnline :
    (id : NodeId) (now : Millis) (t t' : Tables)
    → t'.node_registry ≡ t.node_registry
    → IsOnline id now t
    → IsOnline id now t'
same_nodes-IsOnline id now t t' same (r, has, is_up, seen) = (r, rw same has, is_up, seen)
