-- ===== src/Sync/Outgoing.antt =====
-- hub/internal/syncengine/syncengine.go: the message that a hub sends.
pub mod Reports
use quake_mesh.Base.{
  ℕ, ◌+◌, ◌%◌, ◌^◌, Bool, true, false, not, ◌&&◌, ◌||◌, Option, none, some, List, [], ◌∷◌, ◌++◌,
  map, ◌==◌, nat_eq, if◌then◌else◌,
}
use quake_mesh.Base.Float.{FloatOps}
use quake_mesh.Base.Text.{Text, Bytes, copy_into, slice_of, text_eq}
use quake_mesh.Storage.{
  NodeId, BanId, Millis, Float64, NodeRow, RelayHub, AppRecord, Proposal, Verdict, Db, M, Result,
  ok, err, pure, ◌>>=◌,
}
use quake_mesh.Registry.Nodes.{nodes, merge_gossip_node}
use quake_mesh.Registry.Relays.{list_relay_hubs, upsert_gossip_relay}
use quake_mesh.Apps
use quake_mesh.Bans.{
  list_proposals, list_all_verdicts, is_locally_enforced, merge_gossip_proposal,
  merge_gossip_verdict,
}
use quake_mesh.Sync.Wire.{
  NodeRecord, RelayRecord, PresenceRecord, BanRecord, VerdictRecord, Message, Config, Output,
  Engine, id_size, ban_size, ban_proposal_changed, ban_verdict_changed,
}

module _ (f : FloatOps) where
  abbrev pub value_or_zero : Option Float64 → Float64
  value_or_zero none = f.lit 0 0
  value_or_zero (some x) = x

  abbrev pub node_record : NodeRow → NodeRecord
  node_record n = record {
    node_id = slice_of id_size n.node_id;
    first_seen = n.first_seen;
    last_seen = n.last_seen;
    status = n.status;
    last_lat = value_or_zero n.last_lat;
    last_lon = value_or_zero n.last_lon;
  }

abbrev pub relay_record : RelayHub → RelayRecord
relay_record r = record {
  hub_id = slice_of id_size r.hub_id;
  ip = r.ip;
  port = r.port % 2 ^ 32;
  source = r.source;
  last_verified = r.last_verified;
}

abbrev pub presence_record : AppRecord → PresenceRecord
presence_record a = record {
  node_id = slice_of id_size a.node_id;
  app_id = a.app_id;
  app_name = a.app_name;
  app_version = a.app_version;
  last_reported = a.last_reported;
}

abbrev pub ban_record : Proposal → BanRecord
ban_record p = record {
  ban_id = slice_of ban_size p.ban_id;
  app_id = p.app_id;
  version_range = p.version_range;
  reason = p.reason;
  proposed_by = slice_of id_size p.proposed_by;
  proposed_at = p.proposed_at;
  signature = p.signature;
}

abbrev pub verdict_record : Verdict → VerdictRecord
verdict_record v = record {
  ban_id = slice_of ban_size v.ban_id;
  hub_id = slice_of id_size v.hub_id;
  agree = v.agree;
  decided_at = v.decided_at;
}

-- `err == nil && blocked`.
abbrev pub blocked : Result Bool → Bool
blocked (ok b) = b
blocked (err x) = false

module _ (f : FloatOps) (cfg : Config) where
  -- The loop over the apps: one that this hub enforces a ban on is left out, and an error of the
  -- test leaves it in.
  unfoldable pub unblocked : List AppRecord → Db → List PresenceRecord × Db
  unblocked [] db = ([], db)
  unblocked (a ∷ l) db =
      let tested = is_locally_enforced cfg.local_hub a.app_id a.app_version db in
      let skipped = unblocked l tested.1 in
      let rest = unblocked l db in
      if not cfg.has_bans
      then (presence_record a ∷ rest.0, rest.1)
      else if blocked tested.0
      then skipped
      else (presence_record a ∷ skipped.0, skipped.1)

  abbrev pub total : {A : Type 0} → A × Db → Result A × Db
  total r = (ok r.0, r.1)

  unfoldable pub app_records : M (List PresenceRecord)
  unfolding unblocked
  app_records = if cfg.has_apps then Apps.list >>= (λ l db. total (unblocked l db)) else pure []

  unfoldable pub ban_records : M (List BanRecord × List VerdictRecord)
  ban_records =
      if cfg.has_bans
      then (do
        ps ← list_proposals
        vs ← list_all_verdicts
        pure (map ban_record ps, map verdict_record vs))
      else pure ([], [])

  unfoldable pub build_message : M Message
  unfolding app_records ban_records
  build_message = do
    ns ← nodes
    rs ← list_relay_hubs
    apps ← app_records
    bans ← ban_records
    pure record {
      from_hub = slice_of id_size cfg.self_id;
      node_records = map (node_record f) ns;
      relay_hubs = map relay_record rs;
      app_presence = apps;
      ban_proposals = bans.0;
      ban_verdicts = bans.1;
    }
