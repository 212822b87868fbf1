-- ===== src/Trust/Score/Bounds.antt =====
-- Every part of a score keeps to its share, so that the total is their sum and at most 100.
use quake_mesh.Base.{
  ◌≡◌, refl, ℕ, ◌*◌, ◌/◌, ◌%◌, ◌≤◌, ◌<◌, true, inl, inr, Bool-cases, leb, leb→le, le→leb, arith,
}
use quake_mesh.Base.Int.{ℤ, pos, negsuc}
use quake_mesh.Base.Float.{FloatOps, thousandths}
use quake_mesh.Storage.{NodeId}
use quake_mesh.Trust.Score.{
  Metrics, max_longevity, max_proximity, max_endorsement, plus, at_most, days, hours, duration,
  nanos_per_hour, longevity_component, proximity_component, some_endorsers, endorsement_component,
  compute,
}

abbrev pub max_int : ℕ
max_int = 9223372036854775807

-- 0 ≤ score ≤ bound.
abbrev pub Within : ℕ → ℤ → Type 0
Within bound (pos n) = n ≤ bound
Within bound (negsuc n) = ⊥

-- The facts of float64 arithmetic and of package math that the score rests on. Whole numbers are
-- those of an int, and weights those of a score, which a float64 holds exactly.
pub record Shares (f : FloatOps) : Type 0 where
  pub of_nat_nonneg : (n : ℕ) → n ≤ max_int → f.le (f.lit 0 0) (f.of_nat n) ≡ true
  pub add_nonneg :
      (a b : ℕ)
      → f.le (f.lit 0 0) a ≡ true
      → f.le (f.lit 0 0) b ≡ true
      → f.le (f.lit 0 0) (f.add a b) ≡ true
  pub div_nonneg :
      (a n : ℕ)
      → 0 < n
      → n ≤ max_int
      → f.le (f.lit 0 0) a ≡ true
      → f.le (f.lit 0 0) (f.div a (f.of_nat n)) ≡ true
  -- `0 ≤ exp(-x) ≤ 1` for `0 ≤ x`.
  pub exp_neg_unit :
      (x : ℕ)
      → f.le (f.lit 0 0) x ≡ true
      → (f.le (f.lit 0 0) (f.exp_neg x) ≡ true) × (f.le (f.exp_neg x) (f.lit 1 0) ≡ true)
  pub complement_unit :
      (v : ℕ)
      → f.le (f.lit 0 0) v ≡ true
      → f.le v (f.lit 1 0) ≡ true
      → (f.le (f.lit 0 0) (f.sub (f.lit 1 0) v) ≡ true)
        × (f.le (f.sub (f.lit 1 0) v) (f.lit 1 0) ≡ true)
  -- Rounding is monotone, so that a share of a weight does not exceed the weight.
  pub weigh :
      (w v : ℕ)
      → 0 < w
      → w ≤ 100
      → f.le (f.lit 0 0) v ≡ true
      → f.le v (f.lit 1 0) ≡ true
      → (f.le (f.lit 0 0) (f.mul (f.of_nat w) v) ≡ true)
        × (f.le (f.mul (f.of_nat w) v) (f.of_nat w) ≡ true)
  pub round_within :
      (w v : ℕ)
      → w ≤ 100
      → f.le (f.lit 0 0) v ≡ true
      → f.le v (f.of_nat w) ≡ true
      → Within w (f.round v)
  -- A weight times a ratio of logarithms of numbers is not negative, and fits an int.
  pub log_share :
      (w n : ℕ)
      → w ≤ 100
      → n ≤ max_int
      → (s : ℕ) × (f.round
            (f.mul (f.of_nat w) (f.div (f.log1p (f.of_nat n)) (f.log1p (f.of_nat 20))))
          ≡ pos s)

-- The number of endorsers is an int.
abbrev pub IsInt : ℤ → Type 0
IsInt (pos n) = n ≤ max_int
IsInt (negsuc n) = n ≤ max_int

at_most-Within : (w n : ℕ) → Within w (at_most w (pos n))
unfolding at_most
at_most-Within w n = ground arith

total_of_parts :
    (l p e : ℤ)
    → Within max_longevity l
    → Within max_proximity p
    → Within max_endorsement e
    → (at_most 100 (plus (plus l p) e) ≡ plus (plus l p) e) × Within 100 (plus (plus l p) e)
unfolding at_most plus
total_of_parts (pos l) (pos p) (pos e) hl hp he = (ground arith, omega arith)
total_of_parts (pos l) (pos p) (negsuc e) hl hp he = absurd he
total_of_parts (pos l) (negsuc p) e hl hp he = absurd hp
total_of_parts (negsuc l) p e hl hp he = absurd hl

module _ (f : FloatOps) (c : Shares f) where
  hours-nonneg : (d : ℕ) → d ≤ max_int → f.le (f.lit 0 0) (hours f d) ≡ true
  hours-nonneg d fits =
      c.add_nonneg _ _ (c.of_nat_nonneg (d / nanos_per_hour) (omega (arith, fits))) (
        c.div_nonneg _ nanos_per_hour (omega arith) (omega arith)
          (c.of_nat_nonneg (d % nanos_per_hour) (omega arith)))

  longevity-Within : (first now : ℕ) → Within max_longevity (longevity_component f first now)
  unfolding longevity_component days
  longevity-Within first now =
      let spent = hours-nonneg (duration first now) (ground arith) in
      let days' =
        c.div_nonneg _ 45 (omega arith) (omega arith)
          (c.div_nonneg _ 24 (omega arith) (omega arith) spent) in
      let decay = c.exp_neg_unit _ days' in
      let share = c.complement_unit _ decay.0 decay.1 in
      let weighed = c.weigh max_longevity _ (omega arith) (omega arith) share.0 share.1 in
      c.round_within max_longevity _ (omega arith) weighed.0 weighed.1

  some_endorsers-Within : (n : ℕ) → n ≤ max_int → Within max_endorsement (some_endorsers f n)
  unfolding some_endorsers
  some_endorsers-Within n fits =
      let (s, e) = c.log_share max_endorsement n (omega arith) fits in
      rw e (at_most-Within max_endorsement s)

  endorsement-Within : (n : ℤ) → IsInt n → Within max_endorsement (endorsement_component f n)
  unfolding endorsement_component
  endorsement-Within (negsuc n) fits = omega arith
  endorsement-Within (pos n) fits = elim (Bool-cases (leb n 0)) [
    | inl few ↦ rw few (omega arith)
    | inr some ↦ rw some (some_endorsers-Within n fits)
  ]

  proximity-Within : (direct relay : ℤ) → Within max_proximity (proximity_component direct relay)
  unfolding proximity_component
  proximity-Within direct relay = at_most-Within max_proximity _

  -- Where float64 arithmetic keeps the order of numbers as `Shares` says, and the number of endorsers
  -- is an int, the three components lie between 0 and 35, 40 and 25. So the cut at 100 never applies:
  -- the total is their sum, between 0 and 100.
  pub compute_bounds :
      (id : NodeId) (m : Metrics)
      → IsInt m.unique_endorsers
      → let b = compute f id m in
        Within max_longevity b.longevity_component
        × Within max_proximity b.proximity_component
        × Within max_endorsement b.endorsement_component
        × (b.total
            ≡ plus (plus b.longevity_component b.proximity_component) b.endorsement_component)
        × Within 100 b.total
  unfolding compute
  compute_bounds id m fits =
      let l = longevity-Within m.first_seen m.now in
      let p = proximity-Within m.direct_hub_sightings m.relay_sightings in
      let e = endorsement-Within m.unique_endorsers fits in
      let total = total_of_parts _ _ _ l p e in (l, p, e, total.0, rw total.0 total.1)

weigh_le : (w v : ℕ) → v ≤ 1000 → w * 1000 * v / 1000 ≤ w * 1000
weigh_le w v h = let part : w * v ≤ w * 1000 = grind arith in omega arith

pub thousandths-Shares : Shares thousandths
thousandths-Shares = record {
  of_nat_nonneg = λ n fits. ground arith;
  add_nonneg = λ a b h k. ground arith;
  div_nonneg = λ a n h fits k. ground arith;
  exp_neg_unit = λ x h. (ground arith, ground arith);
  complement_unit = λ v h k. (ground arith, ground arith);
  weigh = λ w v _ _ _ k. (ground arith, le→leb _ _ (weigh_le w v (leb→le v 1000 k)));
  round_within = λ w v fits h k. omega (arith, leb→le v (w * 1000) k);
  log_share = λ w n small fits. (_, refl);
}
