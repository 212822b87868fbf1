-- ===== src/Lan/Location.antt =====
-- core/location/location.go: distances, centroids and hints to nodes that were lost.
use quake_mesh.Base.{
  ℕ, suc, ◌-◌, ◌*◌, max, Bool, false, not, ◌&&◌, ◌||◌, Option, none, some, List, [], ◌∷◌, length,
  leb, if◌then◌else◌,
}
use quake_mesh.Base.Float.{FloatOps}
use quake_mesh.Base.Int.{ℤ, pos, negsuc}
use quake_mesh.Storage.{Float64}

-- What the package calls of package math besides the operations on floats.
pub record Trigonometry : Type 0 where
  pub sin : Float64 → Float64
  pub cos : Float64 → Float64
  pub asin : Float64 → Float64
  pub sqrt : Float64 → Float64
  pub atan2 : Float64 → Float64 → Float64
  pub pow : Float64 → Float64 → Float64
  pub pi : Float64

pub record Point : Type 0 where
  pub lat : Float64
  pub lon : Float64

pub data Confidence : Type 0 where
  high medium low : Confidence

module _ (f : FloatOps) (m : Trigonometry) where
  abbrev pub radians : Float64 → Float64
  radians d = f.div (f.mul d m.pi) (f.lit 180 0)

  unfoldable pub haversine_m : Point → Point → Float64
  haversine_m a b =
      let lat1 = radians a.lat in
      let lat2 = radians b.lat in
      let sin_d_lat = m.sin (f.div (radians (f.sub b.lat a.lat)) (f.lit 2 0)) in
      let sin_d_lon = m.sin (f.div (radians (f.sub b.lon a.lon)) (f.lit 2 0)) in
      let h =
        f.add (f.mul sin_d_lat sin_d_lat)
          (f.mul (f.mul (f.mul (m.cos lat1) (m.cos lat2)) sin_d_lon) sin_d_lon) in
      f.mul (f.lit 12742000 0) (m.asin (m.sqrt h))

  unfoldable pub bearing_degrees : Point → Point → Float64
  bearing_degrees a b =
      let lat1 = radians a.lat in
      let lat2 = radians b.lat in
      let d_lon = radians (f.sub b.lon a.lon) in
      let y = f.mul (m.sin d_lon) (m.cos lat2) in
      let x =
        f.sub (f.mul (m.cos lat1) (m.sin lat2))
          (f.mul (f.mul (m.sin lat1) (m.cos lat2)) (m.cos d_lon)) in
      let deg = f.div (f.mul (m.atan2 y x) (f.lit 180 0)) m.pi in
      if f.lt deg (f.lit 0 0) then f.add deg (f.lit 360 0) else deg

  -- A reading of -(n + 1) dBm is below zero.
  unfoldable pub rssi_distance_m : ℤ → Float64
  rssi_distance_m (pos n) = f.lit 1 0
  rssi_distance_m (negsuc n) =
      m.pow (f.lit 10 0)
        (f.div (f.sub (f.neg (f.lit 59 0)) (f.neg (f.of_nat (suc n)))) (f.lit 25 0))

-- The sums that the loop makes.
unfoldable pub sum_points : FloatOps → List Point → Point → Point
sum_points f [] acc = acc
sum_points f (p ∷ points) acc =
    sum_points f points (record { lat = f.add acc.lat p.lat; lon = f.add acc.lon p.lon })

unfoldable pub reference_centroid : FloatOps → List Point → Option Point
unfolding sum_points
reference_centroid f [] = none
reference_centroid f (p ∷ points) =
    let sums = sum_points f (p ∷ points) (record { lat = f.lit 0 0; lon = f.lit 0 0 }) in
    let n = f.of_nat (length (p ∷ points)) in
    some (record { lat = f.div sums.lat n; lon = f.div sums.lon n })

unfoldable pub valid_coord : FloatOps → Float64 → Float64 → Bool
valid_coord f lat lon =
    if (f.lt lat (f.neg (f.lit 90 0)) || f.lt (f.lit 90 0) lat)
      || (f.lt lon (f.neg (f.lit 180 0)) || f.lt (f.lit 180 0) lon)
    then false
    else not (f.eq lat (f.lit 0 0) && f.eq lon (f.lit 0 0))

-- The label of an age; the text of the last one gives the number of days.
pub data AgeLabel : Type 0 where
  within_five_minutes within_hour within_day : AgeLabel
  days_ago : ℕ → AgeLabel

abbrev pub second : ℕ
second = 1000000000

-- Times in nanoseconds; `whole_days` is `int(age.Hours() / 24)`.
unfoldable pub age_confidence : (ℕ → ℕ) → ℕ → ℕ → Confidence × AgeLabel
age_confidence whole_days last_seen now =
    let age = now - last_seen in
    if leb age (300 * second)
    then (high, within_five_minutes)
    else if leb age (3600 * second)
    then (medium, within_hour)
    else if leb age (86400 * second)
    then (medium, within_day)
    else (low, days_ago (max 1 (whole_days age)))

pub record ProximityEstimate : Type 0 where
  pub observer : Point
  pub distance : Float64
  pub rssi : ℤ

pub data Source : Type 0 where
  gps proximity unknown : Source

-- The note of a hint holds the two numbers that its text prints.
pub record OrphanHint : Type 0 where
  pub last_point : Option Point
  pub bearing_deg : Float64
  pub distance_m : Float64
  pub confidence : Confidence
  pub age_label : AgeLabel
  pub source : Source
  pub proximity_note : Option (Float64 × ℤ)

module _ (f : FloatOps) (m : Trigonometry) where
  abbrev pub no_hint : AgeLabel → OrphanHint
  no_hint label = record {
    last_point = none;
    bearing_deg = f.lit 0 0;
    distance_m = f.lit 0 0;
    confidence = low;
    age_label = label;
    source = unknown;
    proximity_note = none;
  }

  abbrev pub range_of : ProximityEstimate → Float64
  range_of p = if f.le p.distance (f.lit 0 0) then rssi_distance_m f m p.rssi else p.distance

  unfoldable pub proximity_hint : Point → AgeLabel → Option ProximityEstimate → OrphanHint
  proximity_hint ref label none = no_hint label
  proximity_hint ref label (some p) =
      if valid_coord f p.observer.lat p.observer.lon
      then record {
        last_point = none;
        bearing_deg = bearing_degrees f m ref p.observer;
        distance_m = f.add (haversine_m f m ref p.observer) (range_of p);
        confidence = low;
        age_label = label;
        source = proximity;
        proximity_note = some (range_of p, p.rssi);
      }
      else no_hint label

  abbrev pub gps_hint : Point → Confidence × AgeLabel → Point → OrphanHint
  gps_hint ref age target = record {
    last_point = some target;
    bearing_deg = bearing_degrees f m ref target;
    distance_m = haversine_m f m ref target;
    confidence = age.0;
    age_label = age.1;
    source = gps;
    proximity_note = none;
  }

  unfoldable pub hint_from :
      Point
      → Confidence × AgeLabel
      → Option Float64
      → Option Float64
      → Option ProximityEstimate
      → OrphanHint
  unfolding proximity_hint
  hint_from ref age (some lat) (some lon) p =
      if valid_coord f lat lon
      then gps_hint ref age (record { lat = lat; lon = lon })
      else proximity_hint ref age.1 p
  hint_from ref age _ _ p = proximity_hint ref age.1 p

  unfoldable pub compute_orphan_hint :
      (ℕ → ℕ)
      → Point
      → ℕ
      → ℕ
      → Option Float64
      → Option Float64
      → Option ProximityEstimate
      → OrphanHint
  unfolding hint_from
  compute_orphan_hint whole_days ref last_seen now lat lon p =
      hint_from ref (age_confidence whole_days last_seen now) lat lon p
