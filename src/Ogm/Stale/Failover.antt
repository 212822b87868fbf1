-- ===== src/Ogm/Stale/Failover.antt =====
-- Failover of routes when a neighbour falls silent.
use quake_mesh.Base.{
  ◌≡◌, ◌≢◌, some, List, [], ◌∷◌, All, inl, inr, Bool-cases, ◌==◌, nat_eq, nat_beq_iff,
  if◌then◌else◌, if_elim, arith,
}
use quake_mesh.Base.Rows.{delete_where}
use quake_mesh.Storage.{NodeId, Route, Healthy}
use quake_mesh.Registry.Routes.{is_via, route, upsert_route}
use quake_mesh.Registry.Routes.Table.{
  upsert_route-rows, upsert_route_up, upsert_route-Healthy, delete_routes-rows, delete_routes_up,
}
use quake_mesh.Ogm.State.{Config, Engine}
use quake_mesh.Ogm.Stale.{promote, promote_all, failover_routes}

-- No stored route goes through the node.
abbrev pub NoneVia : NodeId → Engine → Type 0
NoneVia gone e = (j : NodeId) (r : Route) → route j e.db.tables ≡ some r → r.next_hop ≢ gone

abbrev NotVia : NodeId → Route → Type 0
NotVia gone r = r.next_hop ≢ gone

-- What is left of the alternates does not go through the node.
remaining-NotVia :
    (gone : NodeId) (l : List Route) → All (NotVia gone) (delete_where (is_via gone) l)
unfolding delete_where
remaining-NotVia gone [] = tt
remaining-NotVia gone (r ∷ l) = elim (Bool-cases (is_via gone r)) [
  | inl out ↦ rw out (remaining-NotVia gone l)
  | inr stays ↦
      rw stays (ground (arith, stays, nat_beq_iff r.next_hop gone), remaining-NotVia gone l)
]

module _ (cfg : Config) where
  -- The stored routes after a promotion.
  pub promoted-route :
      (r : Route) (rest : List Route) (j : NodeId) (e : Engine)
      → Healthy e.db
      → route j (promote cfg (r ∷ rest) e).db.tables
        ≡ (if r.destination == j then some r else route j e.db.tables)
  unfolding promote
  promoted-route r rest j e up =
      if_elim
        (λ (e' : Engine).
          route j e'.db.tables ≡ (if r.destination == j then some r else route j e.db.tables))
        cfg.has_handler written written
    where
      written :
          route j (upsert_route r e.db).1.tables
          ≡ (if r.destination == j then some r else route j e.db.tables)
      written = upsert_route-rows r j e.db (upsert_route_up r e.db up)

  pub promote-Healthy : (l : List Route) (e : Engine) → Healthy e.db → Healthy (promote cfg l e).db
  unfolding promote
  promote-Healthy [] e up = up
  promote-Healthy (r ∷ rest) e up =
      if_elim (λ (e' : Engine). Healthy e'.db) cfg.has_handler (upsert_route-Healthy r e.db up)
        (upsert_route-Healthy r e.db up)

  promote-NoneVia :
      (gone : NodeId) (l : List Route) (e : Engine)
      → Healthy e.db
      → All (NotVia gone) l
      → NoneVia gone e
      → NoneVia gone (promote cfg l e)
  unfolding promote
  promote-NoneVia gone [] e up out none_via j x found = none_via j x found
  promote-NoneVia gone (r ∷ rest) e up out none_via j x found =
      elim (Bool-cases (r.destination == j)) [
        | inl here ↦ ground (arith, here, found, promoted-route r rest j e up, out.0)
        | inr there ↦ none_via j x (ground (arith, there, found, promoted-route r rest j e up))
      ]

  promote_all-NoneVia :
      (gone : NodeId) (entries : List (NodeId × List Route)) (e : Engine)
      → Healthy e.db
      → NoneVia gone e
      → NoneVia gone (promote_all cfg gone entries e)
  unfolding promote_all
  promote_all-NoneVia gone [] e up none_via = none_via
  promote_all-NoneVia gone ((d, alts) ∷ entries) e up none_via =
      let remaining = delete_where (is_via gone) alts in
      promote_all-NoneVia gone entries _ (promote-Healthy remaining e up)
        (promote-NoneVia gone remaining e up (remaining-NotVia gone alts) none_via)

  -- Where no statement fails, no stored route goes through the silent node after its failover.
  pub failover_routes-NoneVia :
      (gone : NodeId) (e : Engine) → Healthy e.db → NoneVia gone (failover_routes cfg gone e)
  unfolding failover_routes
  failover_routes-NoneVia gone e up =
      let (done, up') = delete_routes_up gone e.db up in
      promote_all-NoneVia gone e.alternates _ up' (delete_routes-rows gone e.db done).1
