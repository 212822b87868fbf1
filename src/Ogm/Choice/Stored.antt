-- ===== src/Ogm/Choice/Stored.antt =====
-- Which route is stored for a destination after a candidate came in.
use quake_mesh.Base.{
  ◌≡◌, ◌∙◌, refl, ℕ, Option, none, some, inl, inr, Bool-cases, ◌==◌, nat_eq, nat_beq_iff,
  if◌then◌else◌, if_elim, arith,
}
use quake_mesh.Base.Float.{FloatOps}
use quake_mesh.Storage.{NodeId, Route, Db, Result, Healthy, ok, err, exec, ran}
use quake_mesh.Storage.Laws.{query_up}
use quake_mesh.Registry.Routes.{route, get_route, upsert_route}
use quake_mesh.Registry.Routes.Table.{upsert_route-rows, upsert_route_up}
use quake_mesh.Metrics.{record_sample}
use quake_mesh.Routing.{better}
use quake_mesh.Ogm.State.{Config, Engine, with_db}
use quake_mesh.Ogm.Choice.{
  narrow, store_alternate, sample_latency, route_stored, put_route, choose_route,
  maybe_upsert_route,
}

-- The candidate, if nothing is stored or it is better than what is.
abbrev pub winner : FloatOps → Route → Option Route → Route
winner f candidate none = candidate
winner f candidate (some current) =
    if better f (narrow candidate) (narrow current) then candidate else current

abbrev routes_of : Engine → NodeId → Option Route
routes_of e j = route j e.db.tables

store_alternate-db : (r : Route) (e : Engine) → (store_alternate r e).db ≡ e.db
unfolding store_alternate
store_alternate-db r e = ground arith

module _ (f : FloatOps) (cfg : Config) (now : ℕ) where
  sample_latency-route :
      (r : Route) (j : NodeId) (e : Engine)
      → routes_of (sample_latency f cfg now r e) j ≡ routes_of e j
  unfolding sample_latency record_sample exec
  sample_latency-route r j e = ground arith

  route_stored-route :
      (r : Route) (j : NodeId) (e : Engine) (res : Result (Unit {0}) × Db)
      → routes_of (route_stored f cfg now r e res) j ≡ route j res.1.tables
  unfolding route_stored
  route_stored-route r j e (err x, db) = refl
  route_stored-route r j e (ok u, db) =
      if_elim (λ (e' : Engine). routes_of e' j ≡ route j db.tables) cfg.has_handler
        (sample_latency-route r j (with_db e db)) (sample_latency-route r j (with_db e db))

  put_route-route :
      (r : Route) (j : NodeId) (e : Engine)
      → Healthy e.db
      → routes_of (put_route f cfg now r e) j
        ≡ (if r.destination == j then some r else routes_of e j)
  unfolding put_route
  put_route-route r j e up =
      route_stored-route r j e (upsert_route r e.db)
      ∙ upsert_route-rows r j e.db (upsert_route_up r e.db up)

  chosen-route :
      (r : Route) (j : NodeId) (e : Engine) (db : Db) (o : Option Route)
      → Healthy db
      → route r.destination db.tables ≡ o
      → routes_of (choose_route f cfg now r e (ok o, db)) j
        ≡ (if r.destination == j then some (winner f r o) else route j db.tables)
  unfolding choose_route
  chosen-route r j e db none up stored = put_route-route r j (with_db e db) up
  chosen-route r j e db (some old) up stored =
      elim (Bool-cases (better f (narrow r) (narrow old))) [
        | inl wins ↦ rw wins (
            let kept = store_alternate-db old (with_db e db) in
            put_route-route r j (store_alternate old (with_db e db)) (rw kept up) ∙ rw kept)
        | inr loses ↦
            rw (loses, store_alternate-db r (with_db e db))
              (ground (arith, nat_beq_iff r.destination j, stored))
      ]

  -- Where no statement fails, the route stored for the candidate's destination is then the
  -- candidate if none was stored or it is better than the stored one, and the stored one
  -- otherwise. No other destination's route changes.
  pub maybe_upsert_route-winner :
      (r : Route) (j : NodeId) (e : Engine)
      → Healthy e.db
      → route j (maybe_upsert_route f cfg now r e).db.tables ≡ (
          if r.destination == j
          then some (winner f r (route r.destination e.db.tables))
          else route j e.db.tables)
  unfolding maybe_upsert_route get_route
  maybe_upsert_route-winner r j e up =
      rw (query_up (route r.destination) e.db up)
        (chosen-route r j e (ran e.db) (route r.destination e.db.tables) up refl)
