-- ===== src/Apps/Presence.antt =====
-- app_presence as a map from a node and an app to the last report, and who runs an app.
use quake_mesh.Base.{
  ◌≡◌, ◌∙◌, refl, sym, ap, ◌≤◌, Bool, true, false, not, ◌&&◌, ◌||◌, Option, none, some, List, [],
  ◌∷◌, arith, any, leb, inl, inr, Bool-cases, nat_beq, ◌==◌, nat_eq, nat_beq_iff, pair_eq,
  if◌then◌else◌,
}
use quake_mesh.Base.Text.{Text, text_eq, text_beq_iff}
use quake_mesh.Base.Rows.{row_at, row_at-upsert_row, row_at-key, written, count_where}
use quake_mesh.Storage.{NodeId, AppRecord, Db, ok, query, ran}
use quake_mesh.Storage.Laws.{query_bind-ok, exec-ok, before_pure}
use quake_mesh.Apps.{
  app_key, presence, report, upsert, insert_by_report, order_by_report, list, runs, collect_peers,
  discover_peers, merge, merge_gossip,
}

report-own :
    (r : AppRecord) (o : Option AppRecord)
    → ((x : AppRecord) → o ≡ some x → app_key x ≡ app_key r)
    → written (report r) r o ≡ r
report-own r none own = refl
report-own r (some x) own =
    let id = ap (λ k. k.0) (own x refl) in let app = ap (λ k. k.1) (own x refl) in rw (id, app) refl

-- A successful `Upsert` makes the given report the one stored for its node and app, and leaves every
-- other node and app alone.
pub upsert-rows :
    (r : AppRecord) (id : NodeId) (app : Text) (db : Db)
    → (upsert r db).0 ≡ ok tt
    → presence id app (upsert r db).1.tables
      ≡ (if r.node_id == id && r.app_id == app then some r else presence id app db.tables)
unfolding upsert
upsert-rows r id app db h = elim (Bool-cases (r.app_id == [])) [
  | inl empty ↦ ground (arith, rw empty at h)
  | inr named ↦
      (let rows = db.tables.app_presence in
        rw (named, exec-ok _ db (rw named at h))
          (row_at-upsert_row app_key (app_key r) (id, app) (report r) r refl (λ x. refl) rows
            ∙ rw (
                report-own r (row_at app_key (app_key r) rows)
                  (row_at-key app_key (app_key r) rows))))
]

-- The later of two reports, the one that is stored where they are as late.
abbrev pub later : AppRecord → Option AppRecord → AppRecord
later r none = r
later r (some old) = if leb r.last_reported old.last_reported then old else r

merge-rows :
    (r : AppRecord) (id : NodeId) (app : Text) (db : Db) (found : Option AppRecord) {b : Bool}
    → presence r.node_id r.app_id db.tables ≡ found
    → (merge r found db).0 ≡ ok b
    → presence id app (merge r found db).1.tables ≡ (
        if r.node_id == id && r.app_id == app
        then some (later r found)
        else presence id app db.tables)
unfolding merge
merge-rows r id app db none e h =
    let w = before_pure (upsert r) true db h in rw w.1 (upsert-rows r id app db w.0)
merge-rows r id app db (some old) e h = elim (Bool-cases (leb r.last_reported old.last_reported)) [
  | inl stays ↦ rw stays (ground (arith, e, nat_beq_iff r.node_id id, text_beq_iff r.app_id app))
  | inr newer ↦
      (let w = before_pure (upsert r) true db (rw newer at h) in
        rw (newer, w.1) (upsert-rows r id app db w.0))
]

-- After a successful `MergeGossip` the report of that app on that node is the later of the stored one
-- and the gossiped one, the stored one on a tie, and no other report has changed.
pub merge_gossip-rows :
    (r : AppRecord) (id : NodeId) (app : Text) (db : Db) {b : Bool}
    → (merge_gossip r db).0 ≡ ok b
    → presence id app (merge_gossip r db).1.tables ≡ (
        if r.node_id == id && r.app_id == app
        then some (later r (presence r.node_id r.app_id db.tables))
        else presence id app db.tables)
unfolding merge_gossip
merge_gossip-rows r id app db h =
    let rest = query_bind-ok (presence r.node_id r.app_id) (merge r) db h in
    rw rest (merge-rows r id app (ran db) _ refl (rw rest at h))

abbrev has_id : NodeId → List NodeId → Bool
has_id id = any (λ x. x == id)

any-insert_by_report :
    (q : AppRecord → Bool) (r : AppRecord) (l : List AppRecord)
    → any q (insert_by_report r l) ≡ any q (r ∷ l)
unfolding insert_by_report
any-insert_by_report q r [] = refl
any-insert_by_report q r (x ∷ l) = ground (arith, any-insert_by_report q r l)

any-order_by_report :
    (q : AppRecord → Bool) (l : List AppRecord) → any q (order_by_report l) ≡ any q l
unfolding order_by_report
any-order_by_report q [] = refl
any-order_by_report q (r ∷ l) =
    any-insert_by_report q r (order_by_report l) ∙ ap (λ b. q r || b) (any-order_by_report q l)

seen_as :
    (id n : NodeId) (seen : List NodeId) (b : Bool)
    → nat_beq n id ≡ true
    → has_id n seen ≡ b
    → has_id id seen ≡ b
seen_as id n seen b same h = rw (sym ((nat_beq_iff n id).0 same)) h

-- A node is collected where it was not seen before and has a record that matches, and then once.
collect_peers_lem :
    (app constraint : Text) (id : NodeId) (seen : List NodeId) (l : List AppRecord)
    → (has_id id (collect_peers app constraint seen l)
        ≡ (not (has_id id seen) && any (λ r. runs app constraint r && r.node_id == id) l))
      × (count_where (λ x. x == id) (collect_peers app constraint seen l) ≤ 1)
      × (has_id id seen ≡ true
          → count_where (λ x. x == id) (collect_peers app constraint seen l) ≡ 0)
unfolding collect_peers count_where
collect_peers_lem app constraint id seen [] = (ground arith, omega arith, λ h. refl)
collect_peers_lem app constraint id seen (r ∷ l) =
    let skip = collect_peers_lem app constraint id seen l in
    let take = collect_peers_lem app constraint id (r.node_id ∷ seen) l in
    elim (Bool-cases (runs app constraint r)) [
      | inr other ↦ rw other skip
      | inl match ↦ rw match (elim (Bool-cases (has_id r.node_id seen)) [
        | inl old ↦ rw old (ground (arith, skip.0, seen_as id r.node_id seen true), skip.1, skip.2)
        | inr new ↦ rw new (elim (Bool-cases (nat_beq r.node_id id)) [
          | inl same ↦ rw same (
              let fresh = seen_as id r.node_id seen false same new in
              let rest = take.2 (rw same refl) in (rw fresh refl, omega (arith, rest), λ h. cc))
          | inr apart ↦ rw apart (rw apart at take)
        ])
      ])
    ]

-- A successful `DiscoverPeers` returns the nodes with a report of the app in a version that matches,
-- each once.
pub discover_peers_lem :
    (app constraint : Text) (id : NodeId) (db : Db) {peers : List NodeId}
    → (discover_peers app constraint db).0 ≡ ok peers
    → (has_id id peers ≡ any (λ r. runs app constraint r && r.node_id == id) db.tables.app_presence)
      × (count_where (λ x. x == id) peers ≤ 1)
unfolding discover_peers list query
discover_peers_lem app constraint id db h =
    let q = λ (r : AppRecord). runs app constraint r && r.node_id == id in
    let once = collect_peers_lem app constraint id [] (order_by_report db.tables.app_presence) in
    let all = any-order_by_report q db.tables.app_presence in
    (ground (arith, once.0, all), ground (arith, once.1))
