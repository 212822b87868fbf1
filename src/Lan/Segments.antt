-- ===== src/Lan/Segments.antt =====
-- core/lansegments/store.go: lan_segments and lan_segment_members.
pub mod Membership
use quake_mesh.Base.{
  ℕ, Bool, true, false, not, ◌&&◌, ◌||◌, Option, none, some, List, [], ◌∷◌, leb, nat_beq, nat_eq,
  pair_eq, ◌==◌, if◌then◌else◌,
}
use quake_mesh.Base.Float.{FloatOps}
use quake_mesh.Base.Text.{Text, codes, text_eq}
use quake_mesh.Base.Rows.{keyed, row_at, count_where, select_where, update_where, upsert_row}
use quake_mesh.Storage.{
  storable, NodeId, Millis, Float64, NodeRow, SegmentRow, MemberRow, Tables, M, pure, fail, after,
  ◌>>=◌, ◌>>◌, query, exec, transaction, bad_entity_type, no_rows,
}
use quake_mesh.Registry.Nodes.{node, null_if_empty}
use quake_mesh.Lan.{Context, Library, valid, segment_id}
use quake_mesh.Lan.Location.{Point, reference_centroid}

abbrev pub entity_node : Text
entity_node = codes "node"

abbrev pub entity_hub : Text
entity_hub = codes "hub"

-- The key columns.
abbrev pub segment_key : SegmentRow → Text
segment_key r = r.segment_id

abbrev pub MemberKey : Type 0
MemberKey = Text × (Text × NodeId)

abbrev pub member_key : MemberRow → MemberKey
member_key r = (r.segment_id, (r.entity_type, r.entity_id))

abbrev pub segment : Text → Tables → Option SegmentRow
segment id t = row_at segment_key id t.lan_segments

abbrev pub member : MemberKey → Tables → Option MemberRow
member k t = row_at member_key k t.lan_segment_members

abbrev pub on_segments : (List SegmentRow → List SegmentRow) → Tables → Tables
on_segments f t = record t { lan_segments = f t.lan_segments }

abbrev pub on_members : (List MemberRow → List MemberRow) → Tables → Tables
on_members f t = record t { lan_segment_members = f t.lan_segment_members }

abbrev pub new_segment : Text → Context → Millis → SegmentRow
new_segment id c at = record {
  segment_id = id;
  gateway_ip = c.gateway_ip;
  ssid = null_if_empty c.ssid;
  bssid = null_if_empty c.bssid;
  first_seen = at;
  last_seen = at;
  estimated_lat = none;
  estimated_lon = none;
  manual_lat = none;
  manual_lon = none;
}

abbrev pub refresh_segment : Context → Millis → SegmentRow → SegmentRow
refresh_segment c at r = record r {
  gateway_ip = c.gateway_ip;
  ssid = null_if_empty c.ssid;
  bssid = null_if_empty c.bssid;
  last_seen = at;
}

abbrev pub new_member : Text → Text → NodeId → Context → Millis → MemberRow
new_member id type entity c at = record {
  segment_id = id;
  entity_type = type;
  entity_id = entity;
  local_ip = null_if_empty c.local_ip;
  last_seen = at;
}

abbrev pub refresh_member : Context → Millis → MemberRow → MemberRow
refresh_member c at r = record r { local_ip = null_if_empty c.local_ip; last_seen = at }

unfoldable pub upsert_segment : Text → Context → Millis → M (Unit {0})
upsert_segment id c at =
    exec
      (on_segments (upsert_row (keyed segment_key id) (refresh_segment c at) (new_segment id c at)))

-- The segment is there by then, so that the foreign key holds.
unfoldable pub upsert_member : Text → Text → NodeId → Context → Millis → M (Unit {0})
upsert_member id type entity c at = exec (
    on_members (
      upsert_row (keyed member_key (id, (type, entity))) (refresh_member c at)
        (new_member id type entity c at)))

-- The position of a node's row, where it has both coordinates, before the others.
abbrev pub cons_position : Option Float64 → Option Float64 → List Point → List Point
cons_position (some lat) (some lon) points = record { lat = lat; lon = lon } ∷ points
cons_position _ _ points = points

abbrev pub cons_located : Option NodeRow → List Point → List Point
cons_located none points = points
cons_located (some r) points = cons_position r.last_lat r.last_lon points

-- The join of the members with node_registry, whose key is the node's id.
unfoldable pub located : Tables → List MemberRow → List Point
located t [] = []
located t (r ∷ members) = let rest = located t members in cons_located (node r.entity_id t) rest

abbrev pub is_node_of : Text → MemberRow → Bool
is_node_of id r = r.segment_id == id && r.entity_type == entity_node

unfoldable pub member_positions : Text → Tables → List Point
unfolding located
member_positions id t = located t (select_where (is_node_of id) t.lan_segment_members)

abbrev pub estimate : Option Float64 → Option Float64 → SegmentRow → SegmentRow
estimate lat lon r = record r { estimated_lat = storable lat; estimated_lon = storable lon }

unfoldable pub set_estimate : Text → Option Float64 → Option Float64 → M (Unit {0})
set_estimate id lat lon =
    exec (on_segments (update_where (keyed segment_key id) (estimate lat lon)))

-- No centroid is a NULL estimate; there is one unless there are no positions.
abbrev pub store_centroid : Text → Option Point → M (Unit {0})
store_centroid id none = set_estimate id none none
store_centroid id (some p) = set_estimate id (some p.lat) (some p.lon)

module _ (f : FloatOps) where
  unfoldable pub update_estimated_position : Text → M (Unit {0})
  update_estimated_position id =
      query (member_positions id) >>= λ points. store_centroid id (reference_centroid f points)

  unfoldable pub record_in_segment : Text → Text → NodeId → Context → Millis → M (Unit {0})
  unfolding upsert_segment upsert_member update_estimated_position
  record_in_segment id type entity c at =
      transaction
        do upsert_segment id c at; upsert_member id type entity c at; update_estimated_position id

  unfoldable pub record_membership : Library → Text → NodeId → Context → Millis → M (Unit {0})
  unfolding record_in_segment
  record_membership lib type entity c at =
      if not (valid c)
      then pure tt
      else if not (type == entity_node) && not (type == entity_hub)
      then fail bad_entity_type
      else record_in_segment (segment_id lib c) type entity c at

-- One segment of a listing, where a NULL text is empty.
pub record Segment : Type 0 where
  pub row : SegmentRow
  pub map_position : Option Float64 × Option Float64
  pub node_ids : List NodeId
  pub hub_ids : List NodeId

-- `segmentMapPosition`.
unfoldable pub segment_map_position :
    Option Float64
    → Option Float64
    → Option Float64
    → Option Float64
    → Option Float64 × Option Float64
segment_map_position (some lat) (some lon) est_lat est_lon = (some lat, some lon)
segment_map_position _ _ est_lat est_lon = (est_lat, est_lon)

-- `ORDER BY last_seen DESC`, for segments and for members.
unfoldable pub insert_segment : SegmentRow → List SegmentRow → List SegmentRow
insert_segment r [] = r ∷ []
insert_segment r (x ∷ l) =
    let rest = insert_segment r l in if leb x.last_seen r.last_seen then r ∷ x ∷ l else x ∷ rest

unfoldable pub order_segments : List SegmentRow → List SegmentRow
unfolding insert_segment
order_segments [] = []
order_segments (r ∷ l) = insert_segment r (order_segments l)

unfoldable pub insert_member : MemberRow → List MemberRow → List MemberRow
insert_member r [] = r ∷ []
insert_member r (x ∷ l) =
    let rest = insert_member r l in if leb x.last_seen r.last_seen then r ∷ x ∷ l else x ∷ rest

unfoldable pub order_members : List MemberRow → List MemberRow
unfolding insert_member
order_members [] = []
order_members (r ∷ l) = insert_member r (order_members l)

-- The ids of the members of one type.
unfoldable pub ids_of : Text → List MemberRow → List NodeId
ids_of type [] = []
ids_of type (r ∷ members) =
    let rest = ids_of type members in if r.entity_type == type then r.entity_id ∷ rest else rest

unfoldable pub members_for_segment : Text → M (List NodeId × List NodeId)
unfolding order_members ids_of
members_for_segment id = query (λ t.
    let members = order_members (select_where (λ r. r.segment_id == id) t.lan_segment_members) in
    (ids_of entity_node members, ids_of entity_hub members))

abbrev pub listed : SegmentRow → List NodeId × List NodeId → Segment
listed r ids = record {
  row = r;
  map_position = segment_map_position r.manual_lat r.manual_lon r.estimated_lat r.estimated_lon;
  node_ids = ids.0;
  hub_ids = ids.1;
}

unfoldable pub with_members : List SegmentRow → M (List Segment)
unfolding members_for_segment segment_map_position
with_members [] = pure []
with_members (r ∷ rows) = members_for_segment r.segment_id >>= λ ids.
    with_members rows >>= λ rest. pure (listed r ids ∷ rest)

unfoldable pub list : M (List Segment)
unfolding with_members order_segments
list = query (λ t. order_segments t.lan_segments) >>= with_members

abbrev pub place : Float64 → Float64 → SegmentRow → SegmentRow
place lat lon r = record r { manual_lat = some lat; manual_lon = some lon }

-- `RowsAffected` is the number of rows with the key.
unfoldable pub set_manual_position : Text → Float64 → Float64 → M (Unit {0})
set_manual_position id lat lon = λ db.
    after (exec (on_segments (update_where (keyed segment_key id) (place lat lon))) db) (λ u.
      if nat_beq (count_where (keyed segment_key id) db.tables.lan_segments) 0
      then fail no_rows
      else pure tt)
