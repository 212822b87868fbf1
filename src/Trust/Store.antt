-- ===== src/Trust/Store.antt =====
-- core/trust/store.go: proximity_events and trust_endorsements.
pub mod Endorse
use quake_mesh.Base.{
  ℕ, zero, suc, Bool, true, false, ◌&&◌, ◌<◌, List, [], ◌∷◌, Option, none, some, ltb, ◌==◌, nat_eq,
  if◌then◌else◌, any,
}
use quake_mesh.Base.Int.{ℤ, pos, negsuc}
use quake_mesh.Base.Text.{Text, codes, text_eq}
use quake_mesh.Base.Rows.{select_where, count_where, insert_row, upsert_row}
use quake_mesh.Base.Float.{FloatOps}
use quake_mesh.Storage.{
  NodeId, Millis, ProximityEvent, Endorsement, Tables, M, pure, fail, no_proximity_event, ◌>>=◌,
  ◌>>◌, query, exec,
}
use quake_mesh.Trust.Score.{Metrics, Breakdown, compute}

abbrev pub hub_direct : Text
hub_direct = codes "hub-direct"

abbrev pub hub_relay : Text
hub_relay = codes "hub-relay"

abbrev pub on_proximity : (List ProximityEvent → List ProximityEvent) → Tables → Tables
on_proximity f t = record t { proximity_events = f t.proximity_events }

abbrev pub on_endorsements : (List Endorsement → List Endorsement) → Tables → Tables
on_endorsements f t = record t { trust_endorsements = f t.trust_endorsements }

abbrev pub sighting : NodeId → NodeId → ℤ → Text → Millis → ProximityEvent
sighting observer observed rssi transport at = record {
  observer = observer;
  observed = observed;
  rssi = rssi;
  transport = transport;
  observed_at = at;
}

unfoldable pub record_proximity : NodeId → NodeId → ℤ → Text → Millis → M (Unit {0})
record_proximity observer observed rssi transport at =
    exec (on_proximity (insert_row (sighting observer observed rssi transport at)))

-- `WHERE observed_node_id = ?`, with a transport.
abbrev pub saw : NodeId → Text → ProximityEvent → Bool
saw observed transport p = p.observed == observed && p.transport == transport

-- The two counts that the loop over the groups picks out.
unfoldable pub proximity_counts : NodeId → M (ℕ × ℕ)
proximity_counts observed = query (λ t. (
  count_where (saw observed hub_direct) t.proximity_events,
  count_where (saw observed hub_relay) t.proximity_events,
))

-- `COUNT(DISTINCT endorser_node_id)`.
unfoldable pub distinct_endorsers : List Endorsement → ℕ
distinct_endorsers [] = 0
distinct_endorsers (r ∷ t) =
    let rest = distinct_endorsers t in
    if any (λ x. x.endorser == r.endorser) t then rest else suc rest

unfoldable pub endorsement_count : NodeId → M ℕ
unfolding distinct_endorsers
endorsement_count endorsed =
    query
      (λ t. distinct_endorsers (select_where (λ r. r.endorsed == endorsed) t.trust_endorsements))

abbrev pub observed_by : NodeId → NodeId → ProximityEvent → Bool
observed_by observer observed p = p.observer == observer && p.observed == observed

unfoldable pub has_proximity : NodeId → NodeId → M Bool
has_proximity endorser endorsed =
    query (λ t. ltb 0 (count_where (observed_by endorser endorsed) t.proximity_events))

-- `UNIQUE (endorser_node_id, endorsed_node_id)`.
abbrev pub is_endorsement : NodeId → NodeId → Endorsement → Bool
is_endorsement endorser endorsed r = r.endorser == endorser && r.endorsed == endorsed

abbrev pub new_endorsement : NodeId → NodeId → Text → Millis → Endorsement
new_endorsement endorser endorsed signature at = record {
  endorser = endorser;
  endorsed = endorsed;
  endorsed_at = at;
  signature = signature;
}

unfoldable pub store_endorsement : NodeId → NodeId → Text → Millis → M (Unit {0})
store_endorsement endorser endorsed signature at = exec (
    on_endorsements (
      upsert_row (is_endorsement endorser endorsed)
        (λ r. record r { endorsed_at = at; signature = signature })
        (new_endorsement endorser endorsed signature at)))

-- `if !ok { return errors.New(…) }` and what follows it.
unfoldable pub endorse_if : NodeId → NodeId → Text → Millis → Bool → M (Unit {0})
unfolding store_endorsement
endorse_if endorser endorsed signature at near =
    if near then store_endorsement endorser endorsed signature at else fail no_proximity_event

unfoldable pub add_endorsement : NodeId → NodeId → Text → Millis → M (Unit {0})
unfolding endorse_if
add_endorsement endorser endorsed signature at =
    has_proximity endorser endorsed >>= endorse_if endorser endorsed signature at

unfoldable pub has_endorsement : NodeId → NodeId → M Bool
has_endorsement endorser endorsed =
    query (λ t. ltb 0 (count_where (is_endorsement endorser endorsed) t.trust_endorsements))

-- `if !ok { RecordProximity }` and what follows it.
unfoldable pub contact_then_endorse : NodeId → NodeId → Millis → Bool → M (Unit {0})
contact_then_endorse endorser endorsed at near = do
  if near then pure tt else record_proximity endorser endorsed (negsuc 54) hub_direct at
  add_endorsement endorser endorsed (codes "quakemesh-endorse") at

unfoldable pub endorse_with_hub_contact : NodeId → NodeId → Millis → M (Unit {0})
unfolding contact_then_endorse
endorse_with_hub_contact endorser endorsed at =
    has_proximity endorser endorsed >>= contact_then_endorse endorser endorsed at

unfoldable pub score_for_node : FloatOps → NodeId → Millis → Millis → M Breakdown
score_for_node f id first_seen now = do
  (direct, relay) ← proximity_counts id
  endorsers ← endorsement_count id
  pure (
      compute f id (record {
        first_seen = first_seen;
        now = now;
        direct_hub_sightings = pos direct;
        relay_sightings = pos relay;
        unique_endorsers = pos endorsers;
      }))

unfoldable pub total_proximity_events : NodeId → M ℕ
total_proximity_events observed =
    query (λ t. count_where (λ p. p.observed == observed) t.proximity_events)
