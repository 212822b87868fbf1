-- ===== src/Tests/Data.antt =====
-- Data that the tests share.
use quake_mesh.Base.{ℕ, false, none, refl}
use quake_mesh.Base.Text.{Text}
use quake_mesh.Storage.{Db, Tables, Healthy, Route, NodeRow}

-- A database whose statements all succeed.
abbrev pub database : Tables → Db
database t = record { tables = t; faults = λ _. false; done = 0 }

pub database-Healthy : (t : Tables) → Healthy (database t)
database-Healthy t n = refl

abbrev pub route_over : ℕ → ℕ → ℕ → Route
route_over destination next_hop tq = record {
  destination = destination;
  next_hop = next_hop;
  tq = tq;
  latency_ms = 10;
  hop_count = 1;
}

abbrev pub node_row : ℕ → ℕ → Text → NodeRow
node_row id last status = record {
  node_id = id;
  first_seen = 1;
  last_seen = last;
  last_lat = none;
  last_lon = none;
  status = status;
  handle = none;
  home_lat = none;
  home_lon = none;
}
