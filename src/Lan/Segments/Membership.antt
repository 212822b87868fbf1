-- ===== src/Lan/Segments/Membership.antt =====
-- What `RecordMembership` leaves in the two tables.
use quake_mesh.Base.{◌≡◌, refl, ◌⊎◌, inl, inr, Option, none, some, nat_eq, pair_eq, suc}
use quake_mesh.Base.Float.{FloatOps}
use quake_mesh.Base.Text.{Text, text_eq}
use quake_mesh.Base.Rows.{keyed, update_where, upsert_row}
use quake_mesh.Storage.{NodeId, Millis, Float64, Tables, Db, Error, Result, ok, err, ran, ◌>>◌}
use quake_mesh.Storage.Laws.{transaction-ok, transaction-err, exec_then-ok, exec-ok, query_bind-ok}
use quake_mesh.Lan.{Context}
use quake_mesh.Lan.Location.{Point, reference_centroid}
use quake_mesh.Lan.Segments.{
  estimate, member_key, member_positions, new_member, new_segment, on_members, on_segments,
  record_in_segment, refresh_member, refresh_segment, segment_key, set_estimate, store_centroid,
  update_estimated_position, upsert_member, upsert_segment,
}

abbrev pub lat_of : Option Point → Option Float64
lat_of none = none
lat_of (some p) = some p.lat

abbrev pub lon_of : Option Point → Option Float64
lon_of none = none
lon_of (some p) = some p.lon

store_centroid-estimates :
    (id : Text) (o : Option Point) → store_centroid id o ≡ set_estimate id (lat_of o) (lon_of o)
store_centroid-estimates id none = refl
store_centroid-estimates id (some p) = refl

module _ (f : FloatOps) (id type : Text) (entity : NodeId) (c : Context) (at : Millis) where
  abbrev with_segment : Tables → Tables
  with_segment =
      on_segments (upsert_row (keyed segment_key id) (refresh_segment c at) (new_segment id c at))

  abbrev with_member : Tables → Tables
  with_member = on_members (
      upsert_row (keyed member_key (id, (type, entity))) (refresh_member c at)
        (new_member id type entity c at))

  -- The tables with the segment and its member.
  abbrev pub attached : Tables → Tables
  attached t = with_member (with_segment t)

  abbrev pub centroid_in : Tables → Option Point
  centroid_in t = reference_centroid f (member_positions id t)

  -- All that `RecordMembership` writes.
  abbrev pub recorded : Tables → Tables
  recorded t =
      let points = centroid_in (attached t) in
      on_segments (update_where (keyed segment_key id) (estimate (lat_of points) (lon_of points)))
        (attached t)

  update_estimated_position-ok :
      (db : Db) {u : Unit {0}}
      → (update_estimated_position f id db).0 ≡ ok u
      → (update_estimated_position f id db).1.tables
        ≡ on_segments
            (update_where
              (keyed segment_key id)
              (estimate (lat_of (centroid_in db.tables)) (lon_of (centroid_in db.tables))))
            db.tables
  unfolding update_estimated_position set_estimate
  update_estimated_position-ok db h =
      let read =
        query_bind-ok (member_positions id)
          (λ points. store_centroid id (reference_centroid f points)) db h in
      let same = store_centroid-estimates id (centroid_in db.tables) in
      let wrote =
        exec-ok
          (on_segments (
            update_where (keyed segment_key id)
              (estimate (lat_of (centroid_in db.tables)) (lon_of (centroid_in db.tables)))))
          (ran db) (rw same at (rw read at h)) in
      rw (read, same) (rw wrote refl)

  pub record_in_segment-ok :
      (db : Db) {u : Unit {0}}
      → (record_in_segment f id type entity c at db).0 ≡ ok u
      → (record_in_segment f id type entity c at db).1.tables ≡ recorded db.tables
  unfolding record_in_segment upsert_segment upsert_member
  record_in_segment-ok db h =
      let done = transaction-ok _ db h in
      let first =
        exec_then-ok with_segment
          (upsert_member id type entity c at >> update_estimated_position f id) (ran db) done.0 in
      let db1 : Db = record (ran db) {
        tables = with_segment db.tables;
        done = suc (ran db).done;
      } in
      let second =
        exec_then-ok with_member (update_estimated_position f id) db1 (rw first at done.0) in
      let db2 : Db = record db1 { tables = attached db.tables; done = suc db1.done } in
      rw (done.1, first, second)
        (update_estimated_position-ok db2 (rw second at (rw first at done.0)))

  pub record_in_segment-err :
      (db : Db) {e : Error}
      → (record_in_segment f id type entity c at db).0 ≡ err e
      → (record_in_segment f id type entity c at db).1.tables ≡ db.tables
  unfolding record_in_segment
  record_in_segment-err db h = transaction-err _ db h

pub Result-cases :
    {A : Type 0} (r : Result A) → ((a : A) × (r ≡ ok a)) ⊎ ((e : Error) × (r ≡ err e))
Result-cases (ok a) = inl (a, refl)
Result-cases (err e) = inr (e, refl)
