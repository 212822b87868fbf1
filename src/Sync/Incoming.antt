-- ===== src/Sync/Incoming.antt =====
-- hub/internal/syncengine/syncengine.go: what a hub takes from a message.
pub mod Merges
use quake_mesh.Base.{
  ℕ, ◌+◌, ◌%◌, ◌^◌, Bool, true, false, not, ◌&&◌, ◌||◌, Option, none, some, List, [], ◌∷◌, ◌++◌,
  map, ◌==◌, nat_eq, if◌then◌else◌,
}
use quake_mesh.Base.Float.{FloatOps}
use quake_mesh.Base.Text.{Text, Bytes, copy_into, slice_of, text_eq}
use quake_mesh.Storage.{
  NodeId, BanId, Millis, Float64, NodeRow, RelayHub, AppRecord, Proposal, Verdict, Db, M, Result,
  ok, err, pure, ◌>>=◌,
}
use quake_mesh.Registry.Nodes.{nodes, merge_gossip_node}
use quake_mesh.Registry.Relays.{list_relay_hubs, upsert_gossip_relay}
use quake_mesh.Apps
use quake_mesh.Bans.{
  list_proposals, list_all_verdicts, is_locally_enforced, merge_gossip_proposal,
  merge_gossip_verdict,
}
use quake_mesh.Sync.Wire.{
  NodeRecord, RelayRecord, PresenceRecord, BanRecord, VerdictRecord, Message, Config, Output,
  Engine, id_size, ban_size, ban_proposal_changed, ban_verdict_changed,
}

module _ (f : FloatOps) (cfg : Config) where
  -- `rec.LastLat != 0 || rec.LastLon != 0`.
  abbrev pub has_position : NodeRecord → Bool
  has_position r = not (f.eq r.last_lat (f.lit 0 0)) || not (f.eq r.last_lon (f.lit 0 0))

  -- One step of each loop of `apply`. Errors are logged, and the loop goes on.
  unfoldable pub apply_node : NodeRecord → Db → Db
  apply_node r db =
      if not (r.node_id.size == id_size)
      then db
      else (let lat = if has_position r then some r.last_lat else none in
          let lon = if has_position r then some r.last_lon else none in
          (merge_gossip_node (copy_into id_size r.node_id) r.first_seen r.last_seen r.status lat lon
            db).1)

  unfoldable pub apply_relay : RelayRecord → Db → Db
  apply_relay r db =
      if not (r.hub_id.size == id_size) || r.ip == [] || r.port == 0
      then db
      else (upsert_gossip_relay (copy_into id_size r.hub_id) r.ip r.port r.last_verified db).1

  abbrev pub app_of : PresenceRecord → AppRecord
  app_of r = record {
    node_id = copy_into id_size r.node_id;
    app_id = r.app_id;
    app_name = r.app_name;
    app_version = r.app_version;
    last_reported = r.last_reported;
  }

  unfoldable pub apply_app : PresenceRecord → Db → Db
  apply_app r db =
      if not (r.node_id.size == id_size) || r.app_id == []
      then db
      else (Apps.merge_gossip (app_of r) db).1

  abbrev pub proposal_of : BanRecord → Proposal
  proposal_of r = record {
    ban_id = copy_into ban_size r.ban_id;
    app_id = r.app_id;
    version_range = r.version_range;
    reason = r.reason;
    proposed_by = copy_into id_size r.proposed_by;
    proposed_at = r.proposed_at;
    signature = r.signature;
  }

  abbrev pub verdict_of : VerdictRecord → Verdict
  verdict_of r = record {
    ban_id = copy_into ban_size r.ban_id;
    hub_id = copy_into id_size r.hub_id;
    agree = r.agree;
    decided_at = r.decided_at;
  }

  -- A merge that changed something is reported, where there is someone to report to.
  abbrev pub told : Output → Result Bool × Db → Engine → Engine
  told o (ok true, db) e = record e {
    db = db;
    out = if cfg.notifies then e.out ++ o ∷ [] else e.out;
  }
  told o (ok false, db) e = record e { db = db }
  told o (err x, db) e = record e { db = db }

  unfoldable pub apply_ban : BanRecord → Engine → Engine
  apply_ban r e =
      if not (r.ban_id.size == ban_size)
      then e
      else (let p = proposal_of r in
          told (ban_proposal_changed p.ban_id r.app_id r.version_range)
            (merge_gossip_proposal p e.db) e)

  unfoldable pub apply_verdict : VerdictRecord → Engine → Engine
  apply_verdict r e =
      if not (r.ban_id.size == ban_size) || not (r.hub_id.size == id_size)
      then e
      else (let v = verdict_of r in
          told (ban_verdict_changed v.ban_id v.hub_id r.agree) (merge_gossip_verdict v e.db) e)

abbrev pub for_each {ℓ} : {A S : Type ℓ} → (A → S → S) → List A → S → S
for_each step [] s = s
for_each step (x ∷ l) s = for_each step l (step x s)

module _ (f : FloatOps) (cfg : Config) where
  unfoldable pub apply_apps : List PresenceRecord → Db → Db
  unfolding apply_app
  apply_apps l db = if cfg.has_apps then for_each (apply_app f cfg) l db else db

  unfoldable pub apply_bans : List BanRecord → List VerdictRecord → Engine → Engine
  unfolding apply_ban apply_verdict
  apply_bans ps vs e =
      if cfg.has_bans
      then for_each (apply_verdict f cfg) vs (for_each (apply_ban f cfg) ps e)
      else e

  unfoldable pub apply : Message → Engine → Engine
  unfolding apply_node apply_relay apply_apps apply_bans
  apply m e =
      let db₁ = for_each (apply_node f cfg) m.node_records e.db in
      let db₂ = for_each (apply_relay f cfg) m.relay_hubs db₁ in
      let db₃ = apply_apps m.app_presence db₂ in
      apply_bans m.ban_proposals m.ban_verdicts (record e { db = db₃ })

  -- The body of `receiveLoop`, for a datagram that parses: a hub's own message is passed over.
  unfoldable pub receive : Message → Engine → Engine
  unfolding apply
  receive m e =
      if m.from_hub.size == id_size && copy_into id_size m.from_hub == cfg.self_id
      then e
      else apply m e
