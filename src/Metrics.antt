-- ===== src/Metrics.antt =====
-- core/metrics/store.go: recording a sample.
use quake_mesh.Base.{Option}
use quake_mesh.Base.Text.{Text, codes}
use quake_mesh.Base.Rows.{insert_row}
use quake_mesh.Storage.{NodeId, Millis, Float64, M, exec}

abbrev pub route_latency_ms : Text
route_latency_ms = codes "route_latency_ms"

unfoldable pub record_sample : Text → Option NodeId → Float64 → Millis → M (Unit {0})
record_sample name id value at = exec (λ t. record t {
  historical_metrics =
      insert_row (record { metric_name = name; node_id = id; value = value; recorded_at = at })
        t.historical_metrics;
})
