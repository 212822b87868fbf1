-- ===== src/Routing.antt =====
-- core/routing/routing.go: link quality, route cost and the choice between two routes.
pub mod Order
use quake_mesh.Base.{ℕ, Bool, true, false, not, ltb, ◌==◌, nat_eq, if◌then◌else◌}
use quake_mesh.Base.Float.{FloatOps}
use quake_mesh.Storage.{Float64, Route}

module _ (f : FloatOps) where
  open f use {lt, eq, add, sub, mul, div, abs, lit, of_nat}

  clamp_low : Float64 → Float64
  clamp_low tq = if lt tq (lit 0 0) then lit 0 0 else tq

  unfoldable pub compute_tq : ℕ → ℕ → Float64
  unfolding clamp_low
  compute_tq e r =
      if r == 0
      then lit 0 0
      else (let tq = div (of_nat e) (of_nat r) in
          clamp_low (if lt (lit 1 0) tq then lit 1 0 else tq))

  unfoldable pub cost : Route → Float64
  cost r =
      let hop_penalty = mul (of_nat r.hop_count) (lit 10 0) in
      let latency_penalty = mul (of_nat r.latency_ms) (lit 5 2) in
      let tq_penalty = mul (sub (lit 1 0) r.tq) (lit 40 0) in
      add (add hop_penalty latency_penalty) tq_penalty

  -- The tie-breaks, once the costs are within the tolerance.
  unfoldable pub breaks_tie : Route → Route → Bool
  breaks_tie candidate current =
      if not (eq candidate.tq current.tq)
      then lt current.tq candidate.tq
      else ltb candidate.hop_count current.hop_count

  unfoldable pub better : Route → Route → Bool
  unfolding breaks_tie
  better candidate current =
      if current.destination == 0
      then true
      else (let c₁ = cost candidate in
          let c₂ = cost current in
          if lt (lit 1 3) (abs (sub c₁ c₂)) then lt c₁ c₂ else breaks_tie candidate current)

  unfoldable pub path_tq : Float64 → Float64 → Float64
  path_tq link via = let v = mul link via in if lt (lit 1 0) v then lit 1 0 else v
