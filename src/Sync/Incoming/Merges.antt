-- ===== src/Sync/Incoming/Merges.antt =====
-- Gossip never takes back a sighting of a node.
use quake_mesh.Base.{
  ◌≡◌, ◌∙◌, refl, sym, ap, ℕ, ◌≤◌, none, some, List, [], ◌∷◌, arith, if_elim, Bool-cases, nat_beq,
  nat_beq_iff, not, ◌⊎◌, inl, inr, ◌==◌, nat_eq, if◌then◌else◌,
}
use quake_mesh.Base.Float.{FloatOps}
use quake_mesh.Base.Text.{copy_into}
use quake_mesh.Storage.{NodeId, NodeRow, Db, Result, ok, err, query, exec, exec_checked, Error}
use quake_mesh.Registry.Nodes.{node}
use quake_mesh.Registry.Nodes.Merge.{
  merge, merged, merge_gossip_node-rows, merge_gossip_node-err, News,
}
use quake_mesh.Registry.Relays.{upsert_gossip_relay, merge_relay}
use quake_mesh.Apps
use quake_mesh.Bans.{
  merge_gossip_proposal, merge_gossip_verdict, merge_proposal, merge_verdict, set_verdict, propose,
}
use quake_mesh.Sync.Wire.{
  Config, Engine, Message, NodeRecord, RelayRecord, PresenceRecord, BanRecord, VerdictRecord,
  id_size,
}
use quake_mesh.Sync.Incoming.{
  apply_node, apply_relay, apply_app, apply_ban, apply_verdict, apply_apps, apply, for_each,
  has_position,
}

Result-cases : {A : Type 0} (r : Result A) → ((a : A) × (r ≡ ok a)) ⊎ ((e : Error) × (r ≡ err e))
Result-cases (ok a) = inl (a, refl)
Result-cases (err e) = inr (e, refl)

-- The node is known with a last sighting no earlier than `m`.
pub record SeenBy (id : NodeId) (m : ℕ) (db : Db) : Type 0 where
  pub row : NodeRow
  pub found : node id db.tables ≡ some row
  pub late : m ≤ row.last_seen

apply_relay-nodes :
    (f : FloatOps) (cfg : Config) (r : RelayRecord) (db : Db)
    → (apply_relay f cfg r db).tables.node_registry ≡ db.tables.node_registry
unfolding apply_relay upsert_gossip_relay merge_relay exec query
apply_relay-nodes f cfg r db = ground arith

apply_app-nodes :
    (f : FloatOps) (cfg : Config) (r : PresenceRecord) (db : Db)
    → (apply_app f cfg r db).tables.node_registry ≡ db.tables.node_registry
unfolding apply_app Apps.merge_gossip Apps.merge Apps.upsert exec query
apply_app-nodes f cfg r db = ground arith

apply_ban-nodes :
    (f : FloatOps) (cfg : Config) (r : BanRecord) (e : Engine)
    → (apply_ban f cfg r e).db.tables.node_registry ≡ e.db.tables.node_registry
unfolding apply_ban merge_gossip_proposal merge_proposal propose exec_checked query
apply_ban-nodes f cfg r e = ground arith

apply_verdict-nodes :
    (f : FloatOps) (cfg : Config) (r : VerdictRecord) (e : Engine)
    → (apply_verdict f cfg r e).db.tables.node_registry ≡ e.db.tables.node_registry
unfolding apply_verdict merge_gossip_verdict merge_verdict set_verdict exec_checked query
apply_verdict-nodes f cfg r e = ground arith

merged-late :
    (id : NodeId) (n : News) (r : NodeRow) → r.last_seen ≤ (merged id n (some r)).last_seen
merged-late id n r = ground arith

same-SeenBy :
    {j : NodeId} {m : ℕ} (db db' : Db)
    → db'.tables.node_registry ≡ db.tables.node_registry
    → SeenBy j m db
    → SeenBy j m db'
same-SeenBy {j} db db' same s = record { row = s.row; found = rw same s.found; late = s.late }

merge-SeenBy :
    {m : ℕ} (id j : NodeId) (n : News) (db : Db) → SeenBy j m db → SeenBy j m (merge id n db).1
merge-SeenBy {m} id j n db s = elim (Result-cases (merge id n db).0) [
  | inr (e, failed) ↦
      same-SeenBy db (merge id n db).1
        (ap (λ t. t.node_registry) (merge_gossip_node-err id n db failed)) s
  | inl (b, done) ↦
      (let after = (merge_gossip_node-rows id j n db done).1 in
        elim (Bool-cases (nat_beq id j)) [
          | inr other ↦ record { row = s.row; found = after ∙ rw other s.found; late = s.late }
          | inl own ↦
              (let known = rw (sym ((nat_beq_iff id j).0 own)) at s.found in
                record {
                  row = merged id n (some s.row);
                  found = after ∙ rw (own, known) refl;
                  late = omega (arith, s.late, merged-late id n s.row);
                })
        ])
]

apply_node-SeenBy :
    {j : NodeId} {m : ℕ} (f : FloatOps) (cfg : Config) (r : NodeRecord) (db : Db)
    → SeenBy j m db
    → SeenBy j m (apply_node f cfg r db)
unfolding apply_node
apply_node-SeenBy {j} {m} f cfg r db s = if_elim (SeenBy j m) (not (r.node_id.size == id_size)) s (
    merge-SeenBy (copy_into id_size r.node_id) j
      (record {
        first = r.first_seen;
        last = r.last_seen;
        status = r.status;
        lat = if has_position f cfg r then some r.last_lat else none;
        lon = if has_position f cfg r then some r.last_lon else none;
      })
      db s)

for_each-keeps :
    {A S : Type 0} (P : S → Type 0) (step : A → S → S)
    → ((x : A) (s : S) → P s → P (step x s))
    → (l : List A) (s : S) → P s
    → P (for_each step l s)
for_each-keeps P step keep [] s h = h
for_each-keeps P step keep (x ∷ l) s h = for_each-keeps P step keep l (step x s) (keep x s h)

-- Whatever a gossip message says and whichever statements fail, a node that the hub knows stays
-- known, and its last sighting is never set back.
pub apply-SeenBy :
    (f : FloatOps) (cfg : Config) (msg : Message) (e : Engine) (j : NodeId) (m : ℕ)
    → SeenBy j m e.db
    → SeenBy j m (apply f cfg msg e).db
unfolding apply
apply-SeenBy f cfg msg e j m s =
    let keep_db = λ (db : Db). SeenBy j m db in
    let keep = λ (e : Engine). SeenBy j m e.db in
    let s₁ =
      for_each-keeps keep_db (apply_node f cfg) (apply_node-SeenBy f cfg) msg.node_records e.db s in
    let db₁ = for_each (apply_node f cfg) msg.node_records e.db in
    let s₂ =
      for_each-keeps keep_db (apply_relay f cfg)
        (λ r db. same-SeenBy db (apply_relay f cfg r db) (apply_relay-nodes f cfg r db))
        msg.relay_hubs db₁ s₁ in
    let db₂ = for_each (apply_relay f cfg) msg.relay_hubs db₁ in
    let s₃ =
      if_elim keep_db cfg.has_apps
        (for_each-keeps keep_db (apply_app f cfg)
          (λ r db. same-SeenBy db (apply_app f cfg r db) (apply_app-nodes f cfg r db))
          msg.app_presence db₂ s₂)
        s₂ in
    let db₃ = apply_apps f cfg msg.app_presence db₂ in
    let e₃ = record e { db = db₃ } in
    let s₄ =
      for_each-keeps keep (apply_ban f cfg)
        (λ r e. same-SeenBy e.db (apply_ban f cfg r e).db (apply_ban-nodes f cfg r e))
        msg.ban_proposals e₃ s₃ in
    let e₄ = for_each (apply_ban f cfg) msg.ban_proposals e₃ in
    if_elim keep cfg.has_bans
      (for_each-keeps keep (apply_verdict f cfg)
        (λ r e. same-SeenBy e.db (apply_verdict f cfg r e).db (apply_verdict-nodes f cfg r e))
        msg.ban_verdicts e₄ s₄)
      s₃
