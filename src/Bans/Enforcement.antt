-- ===== src/Bans/Enforcement.antt =====
-- What a hub enforces, how a ban is tallied, and gossip of proposals.
use quake_mesh.Base.{
  ◌≡◌, ◌∙◌, refl, ap, ◌+◌, Bool, true, false, ◌&&◌, ◌||◌, Option, none, some, List, [], ◌∷◌, arith,
  any, ltb, inl, inr, Bool-cases, ◌==◌, nat_eq, if◌then◌else◌,
}
use quake_mesh.Base.Text.{Text}
use quake_mesh.Base.Rows.{count_where}
use quake_mesh.Storage.{
  NodeId, BanId, Proposal, Verdict, Tables, Db, ok, err, not_null, query, ran, pure, Healthy,
}
use quake_mesh.Storage.Laws.{query_bind_up, exec_checked_up}
use quake_mesh.Bans.{
  proposal, verdict, tally_verdicts, Tally, is_verdict, order_by_date, insert_by_date, covers,
  agreed, enforced_among, is_locally_enforced, list_proposals, verdict_for_hub,
  merge_gossip_proposal, merge_proposal, replace_proposal,
}

-- The ban covers the app's version and the hub has agreed to it.
abbrev pub enforces : NodeId → Text → Text → Tables → Proposal → Bool
enforces hub app version t p = covers app version p && agreed (verdict p.ban_id hub t)

any-insert_by_date :
    (q : Proposal → Bool) (p : Proposal) (l : List Proposal)
    → any q (insert_by_date p l) ≡ any q (p ∷ l)
unfolding insert_by_date
any-insert_by_date q p [] = refl
any-insert_by_date q p (x ∷ l) = ground (arith, any-insert_by_date q p l)

any-order_by_date : (q : Proposal → Bool) (l : List Proposal) → any q (order_by_date l) ≡ any q l
unfolding order_by_date
any-order_by_date q [] = refl
any-order_by_date q (p ∷ l) =
    any-insert_by_date q p (order_by_date l) ∙ ap (λ b. q p || b) (any-order_by_date q l)

enforced_among_up :
    (hub : NodeId) (app version : Text) (l : List Proposal) (db : Db)
    → Healthy db
    → ((enforced_among hub app version l db).0 ≡ ok (any (enforces hub app version db.tables) l))
      × ((enforced_among hub app version l db).1.tables ≡ db.tables)
      × Healthy (enforced_among hub app version l db).1
unfolding enforced_among verdict_for_hub
enforced_among_up hub app version [] db up = (refl, refl, up)
enforced_among_up hub app version (p ∷ l) db up =
    let rest =
      λ (v : Option Verdict). if agreed v then pure true else enforced_among hub app version l in
    elim (Bool-cases (covers app version p)) [
      | inl match ↦
          rw (match, query_bind_up (verdict p.ban_id hub) rest db up)
            (elim (Bool-cases (agreed (verdict p.ban_id hub db.tables))) [
              | inl told ↦ rw told (refl, refl, up)
              | inr held ↦ rw held (enforced_among_up hub app version l (ran db) up)
            ])
      | inr other ↦ rw other (enforced_among_up hub app version l db up)
    ]

-- Where the database works, `IsLocallyEnforced` says whether some stored ban covers the version of
-- the app and has the hub's agreement; it changes nothing, and the database works after it.
pub is_locally_enforced_lem :
    (hub : NodeId) (app version : Text) (db : Db)
    → Healthy db
    → ((is_locally_enforced hub app version db).0
        ≡ ok (any (enforces hub app version db.tables) db.tables.ban_list))
      × ((is_locally_enforced hub app version db).1.tables ≡ db.tables)
      × Healthy (is_locally_enforced hub app version db).1
unfolding is_locally_enforced list_proposals
is_locally_enforced_lem hub app version db up =
    let bans = order_by_date db.tables.ban_list in
    let r = enforced_among_up hub app version bans (ran db) up in
    rw (query_bind_up (λ t. order_by_date t.ban_list) (enforced_among hub app version) db up) (
      r.0 ∙ rw (any-order_by_date (enforces hub app version db.tables) db.tables.ban_list),
      r.1,
      r.2,
    )

both_sides :
    (id : BanId) (l : List Verdict)
    → count_where (is_verdict id true) l + count_where (is_verdict id false) l
      ≡ count_where (λ v. v.ban_id == id) l
unfolding count_where
both_sides id [] = omega arith
both_sides id (v ∷ l) = ground (arith, both_sides id l)

-- A successful `TallyVerdicts` counts each verdict on the ban once, on one side or the other.
pub tally_verdicts-sum :
    (id : BanId) (db : Db) {t : Tally}
    → (tally_verdicts id db).0 ≡ ok t
    → t.agrees + t.disagrees ≡ count_where (λ v. v.ban_id == id) db.tables.ban_verdicts
unfolding tally_verdicts query
tally_verdicts-sum id db h = ground (arith, both_sides id db.tables.ban_verdicts)

-- Gossip of a stored ban that carries no signature is never merged: where it is not older than the
-- stored one it fails on the column that takes no NULL, and either way the tables stay as they were.
pub merge_gossip_proposal_unsigned :
    (p old : Proposal) (db : Db)
    → Healthy db
    → p.signature ≡ none
    → proposal p.ban_id db.tables ≡ some old
    → ((merge_gossip_proposal p db).0
        ≡ (if ltb p.proposed_at old.proposed_at then ok false else err not_null))
      × ((merge_gossip_proposal p db).1.tables ≡ db.tables)
unfolding merge_gossip_proposal merge_proposal
merge_gossip_proposal_unsigned p old db up bare found =
    elim (Bool-cases (ltb p.proposed_at old.proposed_at)) [
      | inl older ↦
          rw (query_bind_up (proposal p.ban_id) (merge_proposal p) db up, found)
            (rw older (refl, refl))
      | inr fresh ↦
          rw (query_bind_up (proposal p.ban_id) (merge_proposal p) db up, found)
            (rw (fresh, exec_checked_up (replace_proposal p p.signature) (ran db) up)
              (rw bare (refl, refl)))
    ]
