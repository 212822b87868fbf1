-- ===== src/Ogm/Choice.antt =====
-- hub/internal/ogmengine/ogmengine.go: which route is stored, and which are kept as alternates.
pub mod Alternates
pub mod Stored
use quake_mesh.Base.{
  ℕ, ◌-◌, ◌%◌, Bool, Option, none, some, List, [], ◌∷◌, ◌++◌, length, drop, any, ltb, ◌==◌, nat_eq,
  if◌then◌else◌,
}
use quake_mesh.Base.Map.{lookup, insert}
use quake_mesh.Base.Float.{FloatOps}
use quake_mesh.Storage.{Route, Db, Result, ok, err}
use quake_mesh.Registry.Routes.{get_route, upsert_route}
use quake_mesh.Metrics.{route_latency_ms, record_sample}
use quake_mesh.Routing.{better}
use quake_mesh.Ogm.State.{Config, Engine, route_changed, notify, with_db, unix_milli, uint32}

abbrev pub or_empty : Option (List Route) → List Route
or_empty none = []
or_empty (some l) = l

-- `if len > 3 { alts = alts[len-3:] }`.
unfoldable pub last_three : List Route → List Route
last_three l = if ltb 3 (length l) then drop (length l - 3) l else l

unfoldable pub store_alternate : Route → Engine → Engine
unfolding last_three
store_alternate r e =
    let alts = or_empty (lookup r.destination e.alternates) in
    if any (λ a. a.next_hop == r.next_hop) alts
    then e
    else record e { alternates = insert r.destination (last_three (alts ++ r ∷ [])) e.alternates }

-- A stored route as package routing sees it, its numbers cut to uint32.
abbrev pub narrow : Route → Route
narrow r = record r { latency_ms = r.latency_ms % uint32; hop_count = r.hop_count % uint32 }

module _ (f : FloatOps) (cfg : Config) where
  -- A failing sample is ignored.
  unfoldable pub sample_latency : ℕ → Route → Engine → Engine
  sample_latency now r e =
      if cfg.has_metrics
      then with_db e
          (record_sample route_latency_ms (some r.destination) (f.of_nat r.latency_ms)
            (unix_milli now) e.db).1
      else e

  -- What follows `UpsertRoute`.
  unfoldable pub route_stored : ℕ → Route → Engine → Result (Unit {0}) × Db → Engine
  unfolding sample_latency
  route_stored now r e (ok u, db) =
      notify cfg (route_changed r) (sample_latency now r (with_db e db))
  route_stored now r e (err x, db) = with_db e db

  unfoldable pub put_route : ℕ → Route → Engine → Engine
  unfolding route_stored
  put_route now r e = route_stored now r e (upsert_route r e.db)

  -- What follows `GetRoute`.
  unfoldable pub choose_route : ℕ → Route → Engine → Result (Option Route) × Db → Engine
  unfolding put_route store_alternate
  choose_route now candidate e (err x, db) = with_db e db
  choose_route now candidate e (ok none, db) = put_route now candidate (with_db e db)
  choose_route now candidate e (ok (some current), db) =
      if better f (narrow candidate) (narrow current)
      then put_route now candidate (store_alternate current (with_db e db))
      else store_alternate candidate (with_db e db)

  unfoldable pub maybe_upsert_route : ℕ → Route → Engine → Engine
  unfolding choose_route
  maybe_upsert_route now candidate e =
      choose_route now candidate e (get_route candidate.destination e.db)
