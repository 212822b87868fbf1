-- ===== src/Trust/Score.antt =====
-- core/trust/score.go and trust.go: the score of a node from what was observed of it.
pub mod Bounds
use quake_mesh.Base.{ℕ, ◌+◌, ◌-◌, ◌*◌, ◌/◌, ◌%◌, Bool, true, false, ltb, leb, if◌then◌else◌}
use quake_mesh.Base.Int.{ℤ, pos, negsuc, pos_part}
use quake_mesh.Base.Float.{FloatOps}
use quake_mesh.Storage.{NodeId, Float64}

abbrev pub max_longevity : ℕ
max_longevity = 35

abbrev pub max_proximity : ℕ
max_proximity = 40

abbrev pub max_endorsement : ℕ
max_endorsement = 25

-- A `time.Time` is in nanoseconds, from a time before every one that the program meets.
pub record Metrics : Type 0 where
  pub first_seen : ℕ
  pub now : ℕ
  pub direct_hub_sightings : ℤ
  pub relay_sightings : ℤ
  pub unique_endorsers : ℤ

pub record Breakdown : Type 0 where
  pub node_id : NodeId
  pub longevity_component : ℤ
  pub proximity_component : ℤ
  pub endorsement_component : ℤ
  pub total : ℤ

-- The sum of two scores.
unfoldable pub plus : ℤ → ℤ → ℤ
plus (pos a) (pos b) = pos (a + b)
plus (pos a) (negsuc b) = if ltb b a then pos (a - b - 1) else negsuc (b - a)
plus (negsuc a) (pos b) = if ltb a b then pos (b - a - 1) else negsuc (a - b)
plus (negsuc a) (negsuc b) = negsuc (a + b + 1)

-- `if x > bound { x = bound }`.
unfoldable pub at_most : ℕ → ℤ → ℤ
at_most bound (pos a) = if ltb bound a then pos bound else pos a
at_most bound (negsuc a) = negsuc a

-- Whole numbers below 2^53 are exact in a float64 and a larger raw score is cut off either way, so
-- the products, the sum and the cut are those of numbers.
unfoldable pub proximity_component : ℤ → ℤ → ℤ
unfolding at_most
proximity_component direct_hub relay =
    at_most max_proximity (pos (pos_part direct_hub * 12 + pos_part relay * 4))

abbrev pub nanos_per_hour : ℕ
nanos_per_hour = 3600000000000

abbrev pub max_duration : ℕ
max_duration = 9223372036854775807

-- `now.Sub(firstSeen)`, which does not go beyond the largest duration, and is 0 where it is negative.
abbrev pub duration : ℕ → ℕ → ℕ
duration first_seen now =
    if ltb max_duration (now - first_seen) then max_duration else now - first_seen

module _ (f : FloatOps) where
  open f use {lt, add, sub, mul, div, lit, of_nat, exp_neg, log1p, round}

  -- `Duration.Hours`, of a duration that is not negative: whole hours, and the part of one.
  abbrev pub hours : ℕ → Float64
  hours d =
      add (of_nat (d / nanos_per_hour)) (div (of_nat (d % nanos_per_hour)) (of_nat nanos_per_hour))

  -- `now.Sub(firstSeen).Hours() / 24`. The source sets a negative number of days to 0, as which a
  -- negative duration counts here already.
  unfoldable pub days : ℕ → ℕ → Float64
  days first_seen now = div (hours (duration first_seen now)) (of_nat 24)

  unfoldable pub longevity_component : ℕ → ℕ → ℤ
  longevity_component first_seen now =
      let frac = sub (lit 1 0) (exp_neg (div (days first_seen now) (of_nat 45))) in
      round (mul (of_nat max_longevity) frac)

  unfoldable pub some_endorsers : ℕ → ℤ
  unfolding at_most
  some_endorsers n =
      at_most max_endorsement
        (round (mul (of_nat max_endorsement) (div (log1p (of_nat n)) (log1p (of_nat 20)))))

  unfoldable pub endorsement_component : ℤ → ℤ
  unfolding some_endorsers
  endorsement_component (negsuc n) = pos 0
  endorsement_component (pos n) = if leb n 0 then pos 0 else some_endorsers n

  -- `m.now` is set; for an unset one the source takes the clock's time first.
  unfoldable pub compute : NodeId → Metrics → Breakdown
  compute id m =
      let longevity = longevity_component m.first_seen m.now in
      let proximity = proximity_component m.direct_hub_sightings m.relay_sightings in
      let endorsement = endorsement_component m.unique_endorsers in
      record {
        node_id = id;
        longevity_component = longevity;
        proximity_component = proximity;
        endorsement_component = endorsement;
        total = at_most 100 (plus (plus longevity proximity) endorsement);
      }
