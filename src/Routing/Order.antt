-- ===== src/Routing/Order.antt =====
-- Bounds of link quality, and `Better` as an order on routes.
use quake_mesh.Base.{◌≡◌, ◌≢◌, ℕ, true, false, arith}
use quake_mesh.Base.Float.{FloatOps, Comparisons}
use quake_mesh.Storage.{Route}
use quake_mesh.Routing.{compute_tq, better, cost}

module _ (f : FloatOps) (c : Comparisons f) where
  -- Link quality is neither above 1 nor below 0, whatever was counted.
  pub compute_tq_bounds :
      (e r : ℕ)
      → (f.lt (f.lit 1 0) (compute_tq f e r) ≡ false)
        × (f.lt (compute_tq f e r) (f.lit 0 0) ≡ false)
  unfolding compute_tq
  compute_tq_bounds e r = ground (
    arith,
    c.lt_irrefl (f.lit 0 0),
    c.lt_irrefl (f.lit 1 0),
    c.zero-lt-one,
    c.lt_asymm (f.lit 0 0) (f.lit 1 0),
  )

  -- Of two routes to real destinations at most one is better than the other, so that a route that
  -- has replaced another is not replaced by it, and no route is better than itself.
  pub better_asymm :
      (p q : Route)
      → p.destination ≢ 0
      → q.destination ≢ 0
      → better f p q ≡ true
      → better f q p ≡ false
  unfolding better
  better_asymm p q hp hq h = ground (
    arith,
    c.abs-sub_comm (cost f p) (cost f q),
    c.lt_asymm (cost f p) (cost f q),
    c.eq_comm p.tq q.tq,
    c.lt_asymm q.tq p.tq,
  )
