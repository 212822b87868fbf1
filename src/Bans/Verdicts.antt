-- ===== src/Bans/Verdicts.antt =====
-- ban_verdicts as a map from a ban and a hub to a verdict, and what a hub enforces.
use quake_mesh.Base.{
  ◌≡◌, ◌≢◌, refl, ap, Bool, true, ◌&&◌, Option, none, some, arith, leb, inl, inr, Bool-cases, ◌==◌,
  nat_eq, nat_beq_iff, pair_eq, if◌then◌else◌,
}
use quake_mesh.Base.Rows.{row_at-insert_row, row_at-update_where, row_at-key}
use quake_mesh.Storage.{NodeId, BanId, Proposal, Verdict, Tables, Db, Error, ok, err, ran}
use quake_mesh.Storage.Laws.{query_bind-ok, before_pure, exec_checked-ok, exec_checked-err}
use quake_mesh.Bans.{
  proposal, verdict, verdict_key, set_verdict, store_verdict, decide, merge_verdict,
  merge_gossip_verdict,
}

decide-own :
    (v old : Verdict) → verdict_key old ≡ verdict_key v → decide v.agree v.decided_at old ≡ v
decide-own v old same = let b = ap (λ k. k.0) same in let h = ap (λ k. k.1) same in rw (b, h) refl

store_verdict-rows :
    (v : Verdict) (id : BanId) (hub : NodeId) (t t' : Tables) (found : Option Verdict)
    (ban : Option Proposal)
    → verdict v.ban_id v.hub_id t ≡ found
    → proposal v.ban_id t ≡ ban
    → store_verdict v found ban t ≡ ok t'
    → (verdict id hub t' ≡ (if v.ban_id == id && v.hub_id == hub then some v else verdict id hub t))
      × (found ≡ none → ban ≢ none)
store_verdict-rows v id hub t t' none none e b h = ground arith
store_verdict-rows v id hub t t' none (some p) e b h =
    let rows = row_at-insert_row verdict_key (id, hub) v t.ban_verdicts in
    (ground (arith, e, rows, nat_beq_iff v.ban_id id, nat_beq_iff v.hub_id hub), λ _ absent. cc)
store_verdict-rows v id hub t t' (some old) ban e b h =
    let own = row_at-key verdict_key (v.ban_id, v.hub_id) t.ban_verdicts old e in
    let rows =
      row_at-update_where verdict_key (verdict_key v) (id, hub) (decide v.agree v.decided_at)
        (λ x. refl) t.ban_verdicts in
    (
      ground
          (arith, e, rows, decide-own v old own, nat_beq_iff v.ban_id id, nat_beq_iff v.hub_id hub),
      λ absent _. cc,
    )

-- A successful `SetVerdict` stores the verdict for its ban and hub and leaves every other one alone;
-- the ban is a stored one unless the hub had a verdict on it before.
pub set_verdict-rows :
    (v : Verdict) (id : BanId) (hub : NodeId) (db : Db)
    → (set_verdict v db).0 ≡ ok tt
    → (verdict id hub (set_verdict v db).1.tables
        ≡ (if v.ban_id == id && v.hub_id == hub then some v else verdict id hub db.tables))
      × (verdict v.ban_id v.hub_id db.tables ≡ none → proposal v.ban_id db.tables ≢ none)
unfolding set_verdict
set_verdict-rows v id hub db h =
    let w = exec_checked-ok _ db h in
    rw w.2 (store_verdict-rows v id hub db.tables w.0 _ _ refl refl w.1)

-- A `SetVerdict` that fails leaves the tables alone.
set_verdict-err :
    (v : Verdict) (db : Db) {e : Error}
    → (set_verdict v db).0 ≡ err e
    → (set_verdict v db).1.tables ≡ db.tables
unfolding set_verdict
set_verdict-err v db h = rw (exec_checked-err _ db h)

-- The later of two verdicts, the one that is stored where they are as late.
abbrev pub later : Verdict → Option Verdict → Verdict
later v none = v
later v (some old) = if leb v.decided_at old.decided_at then old else v

merge_verdict-rows :
    (v : Verdict) (id : BanId) (hub : NodeId) (db : Db) (found : Option Verdict) {b : Bool}
    → verdict v.ban_id v.hub_id db.tables ≡ found
    → (merge_verdict v found db).0 ≡ ok b
    → verdict id hub (merge_verdict v found db).1.tables ≡ (
        if v.ban_id == id && v.hub_id == hub
        then some (later v found)
        else verdict id hub db.tables)
unfolding merge_verdict
merge_verdict-rows v id hub db none e h =
    let w = before_pure (set_verdict v) true db h in rw w.1 (set_verdict-rows v id hub db w.0).0
merge_verdict-rows v id hub db (some old) e h =
    elim (Bool-cases (leb v.decided_at old.decided_at)) [
      | inl stays ↦ rw stays (ground (arith, e, nat_beq_iff v.ban_id id, nat_beq_iff v.hub_id hub))
      | inr newer ↦
          (let w = before_pure (set_verdict v) true db (rw newer at h) in
            rw (newer, w.1) (set_verdict-rows v id hub db w.0).0)
    ]

-- After a successful `MergeGossipVerdict` the verdict of that hub on that ban is the later of the
-- stored one and the gossiped one, the stored one on a tie, and no other verdict has changed.
pub merge_gossip_verdict-rows :
    (v : Verdict) (id : BanId) (hub : NodeId) (db : Db) {b : Bool}
    → (merge_gossip_verdict v db).0 ≡ ok b
    → verdict id hub (merge_gossip_verdict v db).1.tables ≡ (
        if v.ban_id == id && v.hub_id == hub
        then some (later v (verdict v.ban_id v.hub_id db.tables))
        else verdict id hub db.tables)
unfolding merge_gossip_verdict
merge_gossip_verdict-rows v id hub db h =
    let rest = query_bind-ok (verdict v.ban_id v.hub_id) (merge_verdict v) db h in
    rw rest (merge_verdict-rows v id hub (ran db) _ refl (rw rest at h))
