-- ===== src/Trust/Store/Endorse.antt =====
-- Who may endorse, and what an endorsement leaves.
use quake_mesh.Base.{
  ◌≡◌, refl, sym, suc, ℕ, ◌<◌, max, Bool, true, false, ltb, ltb→lt, lt→ltb, nat_eq, nat_beq_iff,
  arith,
}
use quake_mesh.Base.Int.{negsuc}
use quake_mesh.Base.Text.{Text, codes}
use quake_mesh.Base.Rows.{insert_row, count_where, count_where-insert_row, count_where-upsert_row}
use quake_mesh.Storage.{
  NodeId, Millis, Endorsement, Tables, Db, ok, err, no_proximity_event, query, exec, ran, Healthy,
}
use quake_mesh.Storage.Laws.{query_bind-ok, exec-ok, query_bind_up, exec_up}
use quake_mesh.Trust.Store.{
  observed_by, is_endorsement, has_proximity, store_endorsement, new_endorsement, endorse_if,
  contact_then_endorse, add_endorsement, record_proximity, endorse_with_hub_contact, hub_direct,
  sighting, on_proximity,
}

abbrev endorse_text : Text
endorse_text = codes "quakemesh-endorse"

-- How often the one node was seen by the other, and how many endorsements are stored.
abbrev pub sightings : NodeId → NodeId → Tables → ℕ
sightings endorser endorsed t = count_where (observed_by endorser endorsed) t.proximity_events

abbrev pub endorsements : NodeId → NodeId → Tables → ℕ
endorsements endorser endorsed t =
    count_where (is_endorsement endorser endorsed) t.trust_endorsements

own_pair :
    (a b : NodeId) (r : Endorsement) → r.endorser ≡ a → r.endorsed ≡ b → is_endorsement a b r ≡ true
own_pair a b r h k = ground (arith, nat_beq_iff r.endorser a, nat_beq_iff r.endorsed b)

store_endorsement-count :
    (a b : NodeId) (signature : Text) (at : Millis) (db : Db) {u : Unit {0}}
    → (store_endorsement a b signature at db).0 ≡ ok u
    → endorsements a b (store_endorsement a b signature at db).1.tables
      ≡ max 1 (endorsements a b db.tables)
unfolding store_endorsement
store_endorsement-count a b signature at db h = rw (exec-ok _ db h) (
    count_where-upsert_row (is_endorsement a b) _ _
      (own_pair a b (new_endorsement a b signature at) refl refl) (λ x. refl)
      db.tables.trust_endorsements)

endorse_if-count :
    (a b : NodeId) (signature : Text) (at : Millis) (near : Bool) (db : Db) {u : Unit {0}}
    → (endorse_if a b signature at near db).0 ≡ ok u
    → (near ≡ true)
      × (endorsements a b (endorse_if a b signature at near db).1.tables
          ≡ max 1 (endorsements a b db.tables))
unfolding endorse_if
endorse_if-count a b signature at true db h = (refl, store_endorsement-count a b signature at db h)
endorse_if-count a b signature at false db h = cc

-- An endorsement that is accepted rests on a recorded sighting, and is then stored once, however
-- often it is given.
pub add_endorsement-count :
    (a b : NodeId) (signature : Text) (at : Millis) (db : Db) {u : Unit {0}}
    → (add_endorsement a b signature at db).0 ≡ ok u
    → (0 < sightings a b db.tables)
      × (endorsements a b (add_endorsement a b signature at db).1.tables
          ≡ max 1 (endorsements a b db.tables))
unfolding add_endorsement has_proximity
add_endorsement-count a b signature at db h =
    let near = λ (t : Tables). ltb 0 (sightings a b t) in
    let rest = query_bind-ok near (endorse_if a b signature at) db h in
    let done = endorse_if-count a b signature at (near db.tables) (ran db) (rw rest at h) in
    (ltb→lt _ _ done.0, rw rest done.1)

-- Without a recorded sighting an endorsement is refused and nothing is stored.
pub add_endorsement_refused :
    (a b : NodeId) (signature : Text) (at : Millis) (db : Db)
    → Healthy db
    → sightings a b db.tables ≡ 0
    → add_endorsement a b signature at db ≡ (err no_proximity_event, ran db)
unfolding add_endorsement has_proximity query
add_endorsement_refused a b signature at db up none_seen = ground (arith, up db.done)

add_endorsement_accepted :
    (a b : NodeId) (signature : Text) (at : Millis) (db : Db)
    → Healthy db
    → 0 < sightings a b db.tables
    → ((add_endorsement a b signature at db).0 ≡ ok tt)
      × (sightings a b (add_endorsement a b signature at db).1.tables ≡ sightings a b db.tables)
unfolding add_endorsement has_proximity store_endorsement query exec
add_endorsement_accepted a b signature at db up seen =
    rw (up db.done, lt→ltb _ _ seen, up (suc db.done)) (refl, refl)

abbrev recorded : NodeId → NodeId → Millis → Db → Db
recorded a b at db = record db {
  tables = on_proximity (insert_row (sighting a b (negsuc 54) hub_direct at)) db.tables;
  done = suc db.done;
}

recorded-seen :
    (a b : NodeId) (at : Millis) (db : Db) → 0 < sightings a b (recorded a b at db).tables
recorded-seen a b at db =
    let own = sighting a b (negsuc 54) hub_direct at in
    ground (
      arith,
      count_where-insert_row (observed_by a b) own db.tables.proximity_events,
      nat_beq_iff a a,
      nat_beq_iff b b,
    )

record_proximity_up :
    (a b : NodeId) (at : Millis) (db : Db)
    → Healthy db
    → record_proximity a b (negsuc 54) hub_direct at db ≡ (ok tt, recorded a b at db)
unfolding record_proximity
record_proximity_up a b at db up = exec_up _ db up

contact_then_endorse-count :
    (a b : NodeId) (at : Millis) (near : Bool) (db : Db)
    → Healthy db
    → near ≡ ltb 0 (sightings a b db.tables)
    → let r = contact_then_endorse a b at near db in
      (r.0 ≡ ok tt)
      × (0 < sightings a b r.1.tables)
      × (endorsements a b r.1.tables ≡ max 1 (endorsements a b db.tables))
unfolding contact_then_endorse
contact_then_endorse-count a b at true db up e =
    let seen = ltb→lt _ _ (sym e) in
    let done = add_endorsement_accepted a b endorse_text at db up seen in
    (done.0, rw done.1 seen, (add_endorsement-count a b endorse_text at db done.0).1)
contact_then_endorse-count a b at false db up e =
    let db' = recorded a b at db in
    let seen = recorded-seen a b at db in
    let done = add_endorsement_accepted a b endorse_text at db' up seen in
    rw (record_proximity_up a b at db up)
      (done.0, rw done.1 seen, (add_endorsement-count a b endorse_text at db' done.0).1)

-- Hub contact always ends in an endorsement: where no sighting is recorded yet one is recorded
-- first.
pub endorse_with_hub_contact-count :
    (a b : NodeId) (at : Millis) (db : Db)
    → Healthy db
    → let r = endorse_with_hub_contact a b at db in
      (r.0 ≡ ok tt)
      × (0 < sightings a b r.1.tables)
      × (endorsements a b r.1.tables ≡ max 1 (endorsements a b db.tables))
unfolding endorse_with_hub_contact has_proximity
endorse_with_hub_contact-count a b at db up =
    rw (query_bind_up (λ t. ltb 0 (sightings a b t)) (contact_then_endorse a b at) db up)
      (contact_then_endorse-count a b at _ (ran db) up refl)
