-- ===== src/Sync/Outgoing/Reports.antt =====
-- What a hub's gossip message says of apps.
use quake_mesh.Base.{
  ◌≡◌, ◌∙◌, refl, sym, ap, suc, Bool, true, not, List, [], ◌∷◌, map, any, inl, inr, Bool-cases,
}
use quake_mesh.Base.Float.{FloatOps}
use quake_mesh.Base.Rows.{select_where}
use quake_mesh.Storage.{NodeId, AppRecord, Tables, Db, ok, query, ran, Healthy}
use quake_mesh.Storage.Laws.{query_bind_up, bind-ok, ok_inj}
use quake_mesh.Apps
use quake_mesh.Apps.{order_by_report}
use quake_mesh.Bans.{is_locally_enforced}
use quake_mesh.Bans.Enforcement.{enforces, is_locally_enforced_lem}
use quake_mesh.Registry.Nodes.{nodes}
use quake_mesh.Registry.Relays.{list_relay_hubs}
use quake_mesh.Sync.Wire.{Config, Message}
use quake_mesh.Sync.Outgoing.{
  presence_record, unblocked, app_records, ban_records, build_message, total,
}

-- Whether the local hub enforces a ban on the reported app.
abbrev pub is_banned : NodeId → Tables → AppRecord → Bool
is_banned hub t a = any (enforces hub a.app_id a.app_version t) t.ban_list

two_reads : (db : Db) → Healthy db → (list_relay_hubs (nodes db).1).1 ≡ ran (ran db)
unfolding nodes list_relay_hubs query
two_reads db up = rw (up db.done, up (suc db.done))

module _ (f : FloatOps) (cfg : Config) where
  unblocked_up :
      (l : List AppRecord) (db : Db) (t : Tables)
      → Healthy db
      → db.tables ≡ t
      → cfg.has_bans ≡ true
      → (unblocked f cfg l db).0
        ≡ map presence_record (select_where (λ a. not (is_banned cfg.local_hub t a)) l)
  unfolding unblocked select_where
  unblocked_up [] db t up same on = refl
  unblocked_up (a ∷ l) db t up same on =
      let tested = is_locally_enforced_lem cfg.local_hub a.app_id a.app_version db up in
      let db' = (is_locally_enforced cfg.local_hub a.app_id a.app_version db).1 in
      let rest = unblocked_up l db' t tested.2 (tested.1 ∙ same) on in
      rw (on, tested.0 ∙ ap (λ t. ok (is_banned cfg.local_hub t a)) same)
        (elim (Bool-cases (is_banned cfg.local_hub t a)) [
          | inl banned ↦ rw banned rest
          | inr free ↦ rw free (ap (λ rs. presence_record a ∷ rs) rest)
        ])

  app_records_up :
      (db : Db)
      → Healthy db
      → cfg.has_apps ≡ true
      → cfg.has_bans ≡ true
      → (app_records f cfg db).0
        ≡ ok (
            map presence_record (
              select_where
                (λ a. not (is_banned cfg.local_hub db.tables a))
                (order_by_report db.tables.app_presence)))
  unfolding app_records Apps.list
  app_records_up db up apps bans =
      let told =
        unblocked_up (order_by_report db.tables.app_presence) (ran db) db.tables up refl bans in
      rw
        (
          apps,
          query_bind_up (λ t. order_by_report t.app_presence)
              (λ l db. total f cfg (unblocked f cfg l db)) db up,
        )
        (ap ok told)

  -- Where the database works and both stores are set, the message that `buildMessage` makes reports
  -- just the stored apps that no ban enforced by the local hub covers, the last reported first.
  pub build_message-apps :
      (db : Db) (m : Message)
      → Healthy db
      → cfg.has_apps ≡ true
      → cfg.has_bans ≡ true
      → (build_message f cfg db).0 ≡ ok m
      → m.app_presence
        ≡ map presence_record (
            select_where
              (λ a. not (is_banned cfg.local_hub db.tables a))
              (order_by_report db.tables.app_presence))
  unfolding build_message app_records
  build_message-apps db m up apps bans h =
      let ns = bind-ok nodes _ db h in
      let rs = bind-ok list_relay_hubs _ (nodes db).1 ns.2 in
      let two = two_reads db up in
      let records = bind-ok (app_records f cfg) _ (list_relay_hubs (nodes db).1).1 rs.2 in
      let told = app_records_up (ran (ran db)) up apps bans in
      let bs =
        bind-ok (ban_records f cfg) _ (app_records f cfg (list_relay_hubs (nodes db).1).1).1
          records.2 in
      sym (ap (λ m. m.app_presence) (ok_inj _ m bs.2))
      ∙ ok_inj records.0 _ (sym records.1 ∙ (rw two told))
