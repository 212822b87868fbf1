-- ===== src/Monitor/Banning/Once.antt =====
-- A hub's monitor can propose one ban.
use quake_mesh.Base.{
  ◌≡◌, ◌≢◌, refl, ◌∙◌, Option, none, some, List, [], ◌∷◌, ◌==◌, arith, Bool-cases, inl, inr, nat_eq,
  nat_beq_iff,
}
use quake_mesh.Base.Text.{Text, Bytes, text_eq}
use quake_mesh.Base.Rows.{row_at-insert_row}
use quake_mesh.Storage.{
  BanId, NodeId, Millis, Proposal, Tables, Db, M, Result, ok, err, Error, after, ◌>>=◌, pure, query,
  exec_checked,
}
use quake_mesh.Storage.Laws.{query-tables, exec_checked-ok, bind-ok}
use quake_mesh.Bans.{
  Tally, completed, insert_proposal, list_proposals, proposal, propose, tally_verdicts,
  verdict_for_hub,
}
use quake_mesh.Bans
use quake_mesh.Monitor.Banning.{
  BanEntry, ban_list, entries_of, entry_of, find_entry, list_for, local_hub_id, local_proposal,
  propose_as, propose_ban, with_local,
}

-- A read leaves the tables alone.
abbrev Reads : {A : Type 0} → M A → Type 0
Reads m = (db : Db) → (m db).1.tables ≡ db.tables

after-Reads :
    {A B : Type 0} (r : Result A × Db) (k : A → M B)
    → ((a : A) → Reads (k a))
    → (after r k).1.tables ≡ r.1.tables
after-Reads (ok a, db) k each = each a db
after-Reads (err e, db) k each = refl

bind-Reads :
    {A B : Type 0} (m : M A) (k : A → M B) → Reads m → ((a : A) → Reads (k a)) → Reads (m >>= k)
bind-Reads m k first each db = after-Reads (m db) k each ∙ first db

tally_verdicts-Reads : (id : BanId) → Reads (tally_verdicts id)
unfolding tally_verdicts
tally_verdicts-Reads id =
    bind-Reads (query _) _ (query-tables _)
      (λ n. bind-Reads (query _) _ (query-tables _) (λ k db. refl))

with_local-Reads : (local : Result NodeId) (e : BanEntry) → Reads (with_local local e)
unfolding with_local verdict_for_hub
with_local-Reads (ok hub) e db = query-tables _ db
with_local-Reads (err x) e db = refl

entries_of-Reads : (local : Result NodeId) (ps : List Proposal) → Reads (entries_of local ps)
unfolding entries_of
entries_of-Reads local [] = λ db. refl
entries_of-Reads local (p ∷ rest) =
    bind-Reads (tally_verdicts p.ban_id) _ (tally_verdicts-Reads p.ban_id) (λ tally.
      bind-Reads (with_local local (entry_of p tally)) _ (with_local-Reads local (entry_of p tally))
        (λ e. bind-Reads (entries_of local rest) _ (entries_of-Reads local rest) (λ es db. refl)))

module _ (hex : Text → Option Bytes) where
  local_hub_id-Reads : Reads (local_hub_id hex)
  unfolding local_hub_id
  local_hub_id-Reads db = query-tables _ db

  list_for-Reads : (ps : List Proposal) → Reads (list_for hex ps)
  unfolding list_for
  list_for-Reads ps db =
      entries_of-Reads (local_hub_id hex db).0 ps (local_hub_id hex db).1 ∙ local_hub_id-Reads db

  ban_list-Reads : Reads (ban_list hex)
  unfolding ban_list list_proposals
  ban_list-Reads = bind-Reads (query _) (list_for hex) (query-tables _) list_for-Reads

after_at :
    {A B : Type 0} (r : Result A × Db) (k : A → M B) (a : A) → r.0 ≡ ok a → after r k ≡ k a r.1
after_at (ok a, db) k b h = let same : a ≡ b = cc in rw same refl
after_at (err e, db) k b h = cc

-- What cannot succeed fails.
refused_at :
    {A B : Type 0} (r : Result A × Db) (k : A → M B)
    → ((a : A) → r.0 ≢ ok a)
    → (x : Error) × ((after r k).0 ≡ err x)
refused_at (ok a, db) k never = absurd (never a refl)
refused_at (err x, db) k never = (x, refl)

insert_proposal-ok :
    (p : Proposal) (o : Option Proposal) (t t' : Tables)
    → proposal p.ban_id t ≡ o
    → insert_proposal (completed p) o t ≡ ok t'
    → (o ≡ none) × (proposal p.ban_id t' ≡ some (completed p))
insert_proposal-ok p none t t' e h =
    let rows = row_at-insert_row Bans.ban_id p.ban_id (completed p) t.ban_list in
    (refl, ground (arith, e, rows, h, nat_beq_iff p.ban_id p.ban_id))
insert_proposal-ok p (some old) t t' e h = cc

-- A proposal that is stored has an id that no other one had.
propose-ok :
    (p : Proposal) (db : Db) {u : Unit {0}}
    → (propose p db).0 ≡ ok u
    → (proposal p.ban_id db.tables ≡ none)
      × (proposal p.ban_id (propose p db).1.tables ≡ some (completed p))
unfolding propose
propose-ok p db h = elim (Bool-cases (p.app_id == [])) [
  | inl missing ↦ absurd (ground (arith, missing, h))
  | inr given ↦
      let w = exec_checked-ok _ db (rw given at h) in
      rw (given, w.2) (insert_proposal-ok p (proposal p.ban_id db.tables) db.tables w.0 refl w.1)
]

propose-taken :
    (p : Proposal) (old : Proposal) (db : Db)
    → proposal p.ban_id db.tables ≡ some old
    → (propose p db).1.tables ≡ db.tables
unfolding propose exec_checked
propose-taken p old db taken = elim (Bool-cases (p.app_id == [])) [
  | inl missing ↦ rw missing refl
  | inr given ↦ elim (Bool-cases (db.faults db.done)) [
    | inl down ↦ rw (given, down) refl
    | inr up ↦ rw (given, up, taken) refl
  ]
]

module _ (hex : Text → Option Bytes) where
  propose_as-stores :
      (p : Proposal) (db : Db) {e : BanEntry}
      → (propose_as hex p db).0 ≡ ok e
      → proposal p.ban_id (propose_as hex p db).1.tables ≡ some (completed p)
  unfolding propose_as
  propose_as-stores p db h =
      let first = bind-ok (propose p) _ db h in
      let kept =
        bind-Reads (ban_list hex) (λ es. pure (find_entry p es)) (ban_list-Reads hex) (λ es d. refl)
          (propose p db).1 in
      rw
        (after_at (propose p db) (λ _. ban_list hex >>= λ es. pure (find_entry p es)) first.0
          first.1)
        (rw kept (propose-ok p db first.1).1)

  propose_ban-stores :
      (app range reason : Text) (now : Millis) (db : Db) {e : BanEntry}
      → (propose_ban hex app range reason now db).0 ≡ ok e
      → (old : Proposal) × (proposal 0 (propose_ban hex app range reason now db).1.tables
          ≡ some old)
  unfolding propose_ban
  propose_ban-stores app range reason now db h =
      let first = bind-ok (local_hub_id hex) _ db h in
      let p = local_proposal first.0 app range reason now in
      (
        completed p,
        rw
            (after_at (local_hub_id hex db)
              (λ hub. propose_as hex (local_proposal hub app range reason now)) first.0 first.1)
            (propose_as-stores p (local_hub_id hex db).1 first.2),
      )

  -- It fails and has changed no table.
  abbrev Refused : Db → Result BanEntry × Db → Type 0
  Refused db r = (x : Error) × (r.0 ≡ err x) × (r.1.tables ≡ db.tables)

  after-Refused :
      (r : Result NodeId × Db) (k : NodeId → M BanEntry) (db : Db)
      → r.1.tables ≡ db.tables
      → ((hub : NodeId) → Refused r.1 (k hub r.1))
      → Refused db (after r k)
  after-Refused (err x, d) k db kept each = (x, refl, kept)
  after-Refused (ok hub, d) k db kept each =
      let (x, says, same) = each hub in (x, says, same ∙ kept)

  propose_as-taken :
      (p old : Proposal) (db : Db)
      → proposal p.ban_id db.tables ≡ some old
      → Refused db (propose_as hex p db)
  unfolding propose_as
  propose_as-taken p old db taken =
      let rest : M BanEntry = ban_list hex >>= λ es. pure (find_entry p es) in
      let kept =
        after-Reads (propose p db) (λ u. rest)
          (λ u.
            bind-Reads (ban_list hex) (λ es. pure (find_entry p es)) (ban_list-Reads hex)
              (λ es d. refl)) in
      let (x, says) =
        refused_at (propose p db) (λ u. rest) (λ u h. let free = (propose-ok p db h).0 in cc) in
      (x, says, kept ∙ propose-taken p old db taken)

  propose_ban-taken :
      (app range reason : Text) (now : Millis) (old : Proposal) (db : Db)
      → proposal 0 db.tables ≡ some old
      → Refused db (propose_ban hex app range reason now db)
  unfolding propose_ban
  propose_ban-taken app range reason now old db taken =
      after-Refused (local_hub_id hex db)
        (λ hub. propose_as hex (local_proposal hub app range reason now)) db
        (local_hub_id-Reads hex db)
        (λ hub.
          propose_as-taken (local_proposal hub app range reason now) old (local_hub_id hex db).1
            (rw (local_hub_id-Reads hex db) taken))

-- Once the monitor of a hub has proposed a ban, every further proposal of it fails, whatever app and
-- versions it names, and changes nothing.
pub propose_ban_once :
    (hex : Text → Option Bytes) (app range reason app' range' reason' : Text) (now now' : Millis)
    (db : Db) (e : BanEntry)
    → (propose_ban hex app range reason now db).0 ≡ ok e
    → let db' = (propose_ban hex app range reason now db).1 in
      (x : Error) × ((propose_ban hex app' range' reason' now' db').0 ≡ err x)
      × ((propose_ban hex app' range' reason' now' db').1.tables ≡ db'.tables)
propose_ban_once hex app range reason app' range' reason' now now' db e h =
    let (old, taken) = propose_ban-stores hex app range reason now db h in
    propose_ban-taken hex app' range' reason' now' old (propose_ban hex app range reason now db).1
      taken
