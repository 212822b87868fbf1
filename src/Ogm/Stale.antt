-- ===== src/Ogm/Stale.antt =====
-- hub/internal/ogmengine/ogmengine.go: the periodic sweep of silent nodes, and route failover.
pub mod Failover
pub mod Replaced
use quake_mesh.Base.{
  ℕ, zero, suc, ◌-◌, Bool, Option, none, some, List, [], ◌∷◌, not, ◌==◌, nat_eq, if◌then◌else◌,
}
use quake_mesh.Base.Text.{Text, text_eq}
use quake_mesh.Base.Map.{insert}
use quake_mesh.Base.Rows.{delete_where, count_where}
use quake_mesh.Storage.{NodeId, NodeRow, Route, Db, Result, ok, err}
use quake_mesh.Registry.Nodes.{stale, mark_stale_before, nodes}
use quake_mesh.Registry.Hubs.{mark_hubs_stale_before}
use quake_mesh.Registry.Routes.{is_via, upsert_route, delete_routes_via_next_hop}
use quake_mesh.Ogm.State.{
  Config, Engine, node_status, hub_status, route_changed, notify, with_db, unix_milli,
}
use quake_mesh.Ogm.Flood.{send_hellos, broadcast_startup}

module _ (cfg : Config) where
  -- The first of the remaining alternates becomes the stored route; an error is ignored.
  unfoldable pub promote : List Route → Engine → Engine
  promote [] e = e
  promote (r ∷ rest) e = notify cfg (route_changed r) (with_db e (upsert_route r e.db).1)

  -- The loop over the map of alternates.
  unfoldable pub promote_all : NodeId → List (NodeId × List Route) → Engine → Engine
  unfolding promote
  promote_all gone [] e = e
  promote_all gone ((destination, alts) ∷ entries) e =
      let remaining = delete_where (is_via gone) alts in
      let e₁ = promote remaining e in
      promote_all gone entries
        (record e₁ { alternates = insert destination remaining e₁.alternates })

  unfoldable pub failover_routes : NodeId → Engine → Engine
  unfolding promote_all
  failover_routes gone e =
      let e₁ = with_db e (delete_routes_via_next_hop gone e.db).1 in
      promote_all gone e₁.alternates e₁

  unfoldable pub nodes_gone : List NodeId → Engine → Engine
  unfolding failover_routes
  nodes_gone [] e = e
  nodes_gone (id ∷ ids) e =
      nodes_gone ids (notify cfg (node_status id stale) (failover_routes id e))

  unfoldable pub hubs_gone : List NodeId → Engine → Engine
  hubs_gone [] e = e
  hubs_gone (id ∷ ids) e = hubs_gone ids (notify cfg (hub_status id stale) e)

  unfoldable pub hubs_swept : Engine → Result (List NodeId) × Db → Engine
  unfolding hubs_gone
  hubs_swept e (err x, db) = with_db e db
  hubs_swept e (ok ids, db) = hubs_gone ids (with_db e db)

  unfoldable pub nodes_swept : ℕ → Engine → Result (List NodeId) × Db → Engine
  unfolding nodes_gone hubs_swept
  nodes_swept now e (err x, db) = with_db e db
  nodes_swept now e (ok ids, db) =
      let e₁ = nodes_gone ids (with_db e db) in
      hubs_swept e₁ (mark_hubs_stale_before (unix_milli (now - cfg.stale_after)) e₁.db)

  -- One tick of `staleSweepLoop`.
  unfoldable pub stale_sweep : ℕ → Engine → Engine
  unfolding nodes_swept
  stale_sweep now e =
      nodes_swept now e (mark_stale_before (unix_milli (now - cfg.stale_after)) e.db)

  abbrev probe_for : ℕ → Engine → ℕ → Engine
  probe_for now e zero = e
  probe_for now e (suc n) = broadcast_startup cfg (send_hellos cfg now e)

  unfoldable pub nodes_probed : ℕ → Engine → Result (List NodeRow) × Db → Engine
  nodes_probed now e (err x, db) = with_db e db
  nodes_probed now e (ok rows, db) =
      probe_for now (with_db e db) (count_where (λ r. r.status == stale) rows)

  -- One tick of `staleProbeLoop`.
  unfoldable pub stale_probe : ℕ → Engine → Engine
  unfolding nodes_probed
  stale_probe now e = nodes_probed now e (nodes e.db)
