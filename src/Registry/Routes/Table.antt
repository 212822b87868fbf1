-- ===== src/Registry/Routes/Table.antt =====
-- The routing table as a map from destinations to routes.
use quake_mesh.Base.{
  ◌≡◌, ◌≢◌, ◌∙◌, refl, ap, ℕ, Option, none, some, arith, ◌==◌, nat_eq, if◌then◌else◌,
}
use quake_mesh.Base.Rows.{
  keyed, row_at-upsert_row, row_at-key, count_where, select_first-delete_where,
  select_first-survives, written, row_at,
}
use quake_mesh.Storage.{NodeId, Route, Db, ok, err, Error, exec, Healthy}
use quake_mesh.Storage.Laws.{exec-ok, exec_up}
use quake_mesh.Registry.Routes.{
  destination, on_routes, route, replace_route, is_via, upsert_route, delete_routes_via_next_hop,
}

replaced_is_new :
    (r : Route) (o : Option Route)
    → ((x : Route) → o ≡ some x → x.destination ≡ r.destination)
    → written (replace_route r) r o ≡ r
replaced_is_new r none own = refl
replaced_is_new r (some x) own = ground (arith, own x refl)

-- A successful `UpsertRoute` makes the given route the one stored for its destination and leaves
-- every other destination's route alone.
pub upsert_route-rows :
    (r : Route) (j : NodeId) (db : Db)
    → (upsert_route r db).0 ≡ ok tt
    → route j (upsert_route r db).1.tables
      ≡ (if r.destination == j then some r else route j db.tables)
unfolding upsert_route
upsert_route-rows r j db h =
    let rows = db.tables.routing_table in
    rw (exec-ok _ db h) (
      row_at-upsert_row destination r.destination j (replace_route r) r refl (λ x. refl) rows
      ∙ rw (
          replaced_is_new r (row_at destination r.destination rows)
            (row_at-key destination r.destination rows)))

pub upsert_route-err :
    (r : Route) (db : Db) {e : Error}
    → (upsert_route r db).0 ≡ err e
    → (upsert_route r db).1.tables ≡ db.tables
unfolding upsert_route exec
upsert_route-err r db h = ground arith

-- After `DeleteRoutesViaNextHop` no stored route has that next hop, a route with another next hop
-- is still the one stored for its destination, and the result counts the routes that are gone.
pub delete_routes-rows :
    (hop : NodeId) (db : Db) {n : ℕ}
    → (delete_routes_via_next_hop hop db).0 ≡ ok n
    → let t = (delete_routes_via_next_hop hop db).1.tables in
      (n ≡ count_where (is_via hop) db.tables.routing_table)
      × ((j : NodeId) (r : Route) → route j t ≡ some r → r.next_hop ≢ hop)
      × ((j : NodeId) (r : Route)
          → route j db.tables ≡ some r
          → r.next_hop ≢ hop
          → route j t ≡ some r)
unfolding delete_routes_via_next_hop exec
delete_routes-rows hop db h =
    let rows = db.tables.routing_table in
    let gone = λ (j : NodeId) (r : Route).
      select_first-delete_where (keyed destination j) (is_via hop) rows r in
    let kept =
      λ (j : NodeId) (r : Route). select_first-survives (keyed destination j) (is_via hop) rows r in
    (
      ground arith,
      λ j r found. ground (arith, gone j r),
      λ j r found other. ground (arith, kept j r),
    )

pub upsert_route_up : (r : Route) (db : Db) → Healthy db → (upsert_route r db).0 ≡ ok tt
unfolding upsert_route
upsert_route_up r db up = ap (λ res. res.0) (exec_up _ db up)

pub upsert_route-Healthy : (r : Route) (db : Db) → Healthy db → Healthy (upsert_route r db).1
unfolding upsert_route
upsert_route-Healthy r db up = rw (exec_up (on_routes _) db up) up

pub delete_routes_up :
    (hop : NodeId) (db : Db)
    → Healthy db
    → ((delete_routes_via_next_hop hop db).0
        ≡ ok (count_where (is_via hop) db.tables.routing_table))
      × Healthy (delete_routes_via_next_hop hop db).1
unfolding delete_routes_via_next_hop exec
delete_routes_up hop db up = rw (up db.done) (refl, up)
