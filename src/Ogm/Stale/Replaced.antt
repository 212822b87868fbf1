-- ===== src/Ogm/Stale/Replaced.antt =====
-- Failover puts an alternate in the place of every destination's route, also of one that does not
-- go through the silent node.
use quake_mesh.Base.{
  ◌≡◌, ◌∙◌, refl, ap, Bool, true, false, some, List, [], ◌∷◌, All, inl, inr, Bool-cases, ◌==◌,
  nat_eq, nat_beq_iff, if◌then◌else◌, arith,
}
use quake_mesh.Base.Map.{lookup}
use quake_mesh.Base.Rows.{delete_where}
use quake_mesh.Storage.{NodeId, Route, Healthy}
use quake_mesh.Registry.Routes.{is_via, route}
use quake_mesh.Registry.Routes.Table.{delete_routes_up}
use quake_mesh.Ogm.State.{Config, Engine}
use quake_mesh.Ogm.Stale.{promote, promote_all, failover_routes}
use quake_mesh.Ogm.Stale.Failover.{promoted-route, promote-Healthy}

-- Each entry of the map is filed under the destination of its routes.
abbrev pub Filed : List (NodeId × List Route) → Type 0
Filed [] = Unit
Filed ((d, alts) ∷ entries) = All (λ r. r.destination ≡ d) alts × Filed entries

abbrev pub absent : NodeId → List (NodeId × List Route) → Bool
absent d [] = true
absent d ((j, alts) ∷ entries) = if j == d then false else absent d entries

-- A Go map has one entry for a key.
abbrev pub OneEntryEach : List (NodeId × List Route) → Type 0
OneEntryEach [] = Unit
OneEntryEach ((d, alts) ∷ entries) = (absent d entries ≡ true) × OneEntryEach entries

remaining-filed :
    (p : Route → Bool) (d : NodeId) (l : List Route)
    → All (λ r. r.destination ≡ d) l
    → All (λ r. r.destination ≡ d) (delete_where p l)
unfolding delete_where
remaining-filed p d [] h = tt
remaining-filed p d (r ∷ l) h = elim (Bool-cases (p r)) [
  | inl out ↦ rw out (remaining-filed p d l h.1)
  | inr stays ↦ rw stays (h.0, remaining-filed p d l h.1)
]

module _ (cfg : Config) where
  promote_other :
      (d j : NodeId) (l : List Route) (e : Engine)
      → Healthy e.db
      → All (λ r. r.destination ≡ d) l
      → (d == j) ≡ false
      → route j (promote cfg l e).db.tables ≡ route j e.db.tables
  unfolding promote
  promote_other d j [] e up filed other = refl
  promote_other d j (r ∷ rest) e up filed other =
      promoted-route cfg r rest j e up ∙ rw filed.0 (rw other)

  promote_all-absent :
      (gone j : NodeId) (entries : List (NodeId × List Route)) (e : Engine)
      → Healthy e.db
      → Filed entries
      → absent j entries ≡ true
      → route j (promote_all cfg gone entries e).db.tables ≡ route j e.db.tables
  unfolding promote_all
  promote_all-absent gone j [] e up filed away = refl
  promote_all-absent gone j ((d, alts) ∷ entries) e up filed away =
      let remaining = delete_where (is_via gone) alts in
      elim (Bool-cases (d == j)) [
        | inl same ↦ absurd (ground (arith, same, away))
        | inr other ↦
            promote_all-absent gone j entries _ (promote-Healthy cfg remaining e up) filed.1
              (ground (arith, other, away))
            ∙ promote_other d j remaining e up (remaining-filed (is_via gone) d alts filed.0) other
      ]

  promote_first :
      (d : NodeId) (l rest : List Route) (r : Route) (e : Engine)
      → Healthy e.db
      → All (λ x. x.destination ≡ d) l
      → l ≡ r ∷ rest
      → route d (promote cfg l e).db.tables ≡ some r
  promote_first d [] rest r e up filed first = cc
  promote_first d (x ∷ l) rest r e up filed first =
      ground (arith, first, promoted-route cfg x l d e up, nat_beq_iff x.destination d, filed.0)

  promote_all-found :
      (gone j : NodeId) (entries : List (NodeId × List Route)) (alts rest : List Route) (r : Route)
      (e : Engine)
      → Healthy e.db
      → Filed entries
      → OneEntryEach entries
      → lookup j entries ≡ some alts
      → delete_where (is_via gone) alts ≡ r ∷ rest
      → route j (promote_all cfg gone entries e).db.tables ≡ some r
  unfolding promote_all lookup
  promote_all-found gone j [] alts rest r e up filed once found left = cc
  promote_all-found gone j ((d, own) ∷ entries) alts rest r e up filed once found left =
      let remaining = delete_where (is_via gone) own in
      let up' = promote-Healthy cfg remaining e up in
      elim (Bool-cases (d == j)) [
        | inl same ↦
            let key : d ≡ j = (nat_beq_iff d j).0 same in
            let hit : some own ≡ some alts = (rw same at found) in
            let kept : own ≡ alts = cc in
            let first = ap (delete_where (is_via gone)) kept ∙ left in
            promote_all-absent gone j entries _ up' filed.1 (rw key at once.0)
            ∙ rw (← key) (
                promote_first d remaining rest r e up (remaining-filed (is_via gone) d own filed.0)
                  first)
        | inr other ↦
            promote_all-found gone j entries alts rest r _ up' filed.1 once.1 (rw other at found)
              left
      ]

  -- Where no statement fails and the map of alternates is in order, the route stored for a
  -- destination after a failover is its first alternate that does not go through the silent node,
  -- if there is one: whatever was stored before, also a better route over a live neighbour.
  pub failover_routes_replaces :
      (gone j : NodeId) (alts rest : List Route) (r : Route) (e : Engine)
      → Healthy e.db
      → Filed e.alternates
      → OneEntryEach e.alternates
      → lookup j e.alternates ≡ some alts
      → delete_where (is_via gone) alts ≡ r ∷ rest
      → route j (failover_routes cfg gone e).db.tables ≡ some r
  unfolding failover_routes
  failover_routes_replaces gone j alts rest r e up filed once found left =
      let (done, up') = delete_routes_up gone e.db up in
      promote_all-found gone j e.alternates alts rest r _ up' filed once found left
