-- ===== src/Dtn/Engine/Delivery.antt =====
-- What a round of delivery does to the queue, and when a depth is reported.
use mathlib.Core.Option
use quake_mesh.Base.{
  ◌≡◌, ◌≢◌, inl, inr, refl, ap, ℕ, ◌+◌, Bool, false, not, ◌&&◌, Option, none, some, List, [], ◌∷◌,
  ◌++◌, arith, All, Bool-cases, if_elim, nat_beq, leb, ◌==◌, nat_eq, nat_beq_iff, if◌then◌else◌,
}
use quake_mesh.Base.Rows.{count_where, select_where}
use quake_mesh.Storage.{NodeRow, Millis, Bundle, Db, ok, err, ran, query, Healthy}
use quake_mesh.Storage.Laws.{query-tables, query_up}
use quake_mesh.Registry.Nodes.{nodes}
use quake_mesh.Registry.Routes.{get_route, route}
use quake_mesh.Dtn.Queue
use quake_mesh.Dtn.Queue.{bundle, retry, is_live, order_by_expiry}
use quake_mesh.Dtn.Queue.Contents.{delete-rows, increment_retry-rows}
use quake_mesh.Dtn.Engine.{
  Config, Engine, queue_depth_changed, Fate, retried, refused, delivered, forwarded, is_online,
  has_route, fate, meet, deliver_one, deliver_each, deliver_listed, deliver_pending, depth_read,
  publish_depth, same_depth, with_db,
}

not_beq : (i j : ℕ) → i ≢ j → nat_beq i j ≡ false
not_beq i j other = ground arith

-- A stored bundle that no delivery takes: it is as it was but for its retry count.
pub record Kept (b : Bundle) (o : Option Bundle) : Type 0 where
  pub retries : ℕ
  pub stored : o ≡ some (record b { retry_count = retries })

Kept-retry : {b : Bundle} (o : Option Bundle) → Kept b o → Kept b (Option.map retry o)
Kept-retry o h = record { retries = h.retries + 1; stored = ap (λ x. Option.map retry x) h.stored }

increment_retry-Kept :
    {b : Bundle} (id j : ℕ) (db : Db)
    → Kept b (bundle j db.tables)
    → Kept b (bundle j (Queue.increment_retry id db).1.tables)
increment_retry-Kept {b} id j db h =
    let before = bundle j db.tables in
    rw (increment_retry-rows id j db)
      (elim (Queue.increment_retry id db).0
        as (λ r. Kept b (elim r [
          | ok u ↦ (if id == j then Option.map retry before else before)
          | err e ↦ before
        ])) [ ok u ↦ if_elim (Kept b) (id == j) (Kept-retry before h) h | err e ↦ h ])

delete-Kept :
    {b : Bundle} (id j : ℕ) (db : Db)
    → id ≢ j
    → Kept b (bundle j db.tables)
    → Kept b (bundle j (Queue.delete id db).1.tables)
delete-Kept {b} id j db other h =
    let before = bundle j db.tables in
    rw (delete-rows id j db)
      (elim (Queue.delete id db).0
        as (λ r. Kept b (elim r [ ok u ↦ (if id == j then none else before) | err e ↦ before ])) [
          | ok u ↦ rw (not_beq id j other) h
          | err e ↦ h
        ])

every_offline :
    (j : ℕ) (l : List Bundle) → All (λ x. x.bundle_id ≡ j → is_online x.dst_node_id [] ≡ false) l
every_offline j [] = tt
every_offline j (x ∷ l) = (λ same. refl, every_offline j l)

All-insert_by_expiry :
    (P : Bundle → Type 0) (b : Bundle) (l : List Bundle)
    → P b
    → All P l
    → All P (Queue.insert_by_expiry b l)
unfolding Queue.insert_by_expiry
All-insert_by_expiry P b [] hb h = (hb, tt)
All-insert_by_expiry P b (x ∷ l) hb h =
    if_elim (All P) (leb b.expires_at x.expires_at) (hb, h) (h.0, All-insert_by_expiry P b l hb h.1)

All-order_by_expiry : (P : Bundle → Type 0) (l : List Bundle) → All P l → All P (order_by_expiry l)
unfolding order_by_expiry
All-order_by_expiry P [] h = tt
All-order_by_expiry P (b ∷ l) h =
    All-insert_by_expiry P b (order_by_expiry l) h.0 (All-order_by_expiry P l h.1)

All-select_where :
    (P : Bundle → Type 0) (p : Bundle → Bool) (l : List Bundle) → All P l → All P (select_where p l)
unfolding select_where
All-select_where P p [] h = tt
All-select_where P p (b ∷ l) h =
    let rest = All-select_where P p l h.1 in if_elim (All P) (p b) (h.0, rest) rest

module _ (cfg : Config) where
  meet-Kept :
      {b : Bundle} (j : ℕ) (x : Bundle) (e : Engine) (f : Fate)
      → (x.bundle_id ≡ j → f ≡ retried)
      → Kept b (bundle j e.db.tables)
      → Kept b (bundle j (meet cfg f x e).db.tables)
  unfolding meet
  meet-Kept j x e retried stays h = increment_retry-Kept x.bundle_id j e.db h
  meet-Kept j x e refused stays h = increment_retry-Kept x.bundle_id j e.db h
  meet-Kept j x e delivered stays h = delete-Kept x.bundle_id j e.db (λ same. cc (stays same)) h
  meet-Kept j x e forwarded stays h = delete-Kept x.bundle_id j e.db (λ same. cc (stays same)) h

  offline_retried :
      (j : ℕ) (rows : List NodeRow) (routed : Bool) (x : Bundle)
      → (x.bundle_id ≡ j → is_online x.dst_node_id rows ≡ false)
      → x.bundle_id ≡ j
      → fate cfg rows routed x ≡ retried
  unfolding fate
  offline_retried j rows routed x off same = rw (off same)

  deliver_one-Kept :
      {b : Bundle} (j : ℕ) (rows : List NodeRow) (x : Bundle) (e : Engine)
      → (x.bundle_id ≡ j → is_online x.dst_node_id rows ≡ false)
      → Kept b (bundle j e.db.tables)
      → Kept b (bundle j (deliver_one cfg rows x e).db.tables)
  unfolding deliver_one get_route
  deliver_one-Kept {b} j rows x e off h =
      let r = get_route x.dst_node_id e.db in
      let e₁ = with_db e r.1 in
      if_elim (λ (e' : Engine). Kept b (bundle j e'.db.tables)) (is_online x.dst_node_id rows)
        (meet-Kept j x e₁ (fate cfg rows (has_route r.0) x)
          (offline_retried j rows (has_route r.0) x off)
          (rw (query-tables (route x.dst_node_id) e.db) h))
        (meet-Kept j x e (fate cfg rows false x) (offline_retried j rows false x off) h)

  deliver_each-Kept :
      {b : Bundle} (j : ℕ) (rows : List NodeRow) (l : List Bundle) (e : Engine)
      → All (λ x. x.bundle_id ≡ j → is_online x.dst_node_id rows ≡ false) l
      → Kept b (bundle j e.db.tables)
      → Kept b (bundle j (deliver_each cfg rows l e).db.tables)
  unfolding deliver_each
  deliver_each-Kept j rows [] e off h = h
  deliver_each-Kept j rows (x ∷ l) e off h =
      deliver_each-Kept j rows l (deliver_one cfg rows x e) off.1
        (deliver_one-Kept j rows x e off.0 h)

  publish_depth_up :
      (now : Millis) (e : Engine)
      → Healthy e.db
      → publish_depth cfg now e
        ≡ depth_read cfg e (ok (count_where (is_live now) e.db.tables.dtq_queue), ran e.db)
  unfolding publish_depth Queue.depth
  publish_depth_up now e up = ap (depth_read cfg e) (query_up _ e.db up)

  depth_read_lem :
      (e : Engine) (d : ℕ) (db : Db)
      → let e' = depth_read cfg e (ok d, db) in
        (e'.out ≡ (
          if not (same_depth cfg d e.last_depth) && cfg.has_handler
          then e.out ++ queue_depth_changed d ∷ []
          else e.out))
        × (e'.last_depth ≡ some d)
        × (e'.db ≡ db)
  unfolding depth_read
  depth_read_lem e d db =
      elim (Bool-cases (not (same_depth cfg d e.last_depth) && cfg.has_handler)) [
        | inl t ↦ rw t (refl, refl, refl)
        | inr f ↦ rw f (refl, refl, refl)
      ]

  -- Where the database works, `publishDepth` remembers how many live bundles the queue holds, sends
  -- that number if it is not the one remembered and a handler is set, and leaves the tables alone.
  pub publish_depth_lem :
      (now : Millis) (e : Engine)
      → Healthy e.db
      → let d = count_where (is_live now) e.db.tables.dtq_queue in
        let e' = publish_depth cfg now e in
        (e'.out ≡ (
          if not (same_depth cfg d e.last_depth) && cfg.has_handler
          then e.out ++ queue_depth_changed d ∷ []
          else e.out))
        × (e'.last_depth ≡ some d)
        × (e'.db.tables ≡ e.db.tables)
  publish_depth_lem now e up =
      let d = count_where (is_live now) e.db.tables.dtq_queue in
      let r = depth_read_lem e d (ran e.db) in
      rw (publish_depth_up now e up) (r.0, r.1, rw r.2 refl)

  depth_read_again :
      (e : Engine) (d : ℕ) (db : Db)
      → e.last_depth ≡ some d
      → (depth_read cfg e (ok d, db)).out ≡ e.out
  unfolding depth_read
  depth_read_again e d db last = rw (last, (nat_beq_iff d d).1 refl) refl

  -- A second report right after the first sends nothing, where the database works.
  pub publish_depth_again :
      (now : Millis) (e : Engine)
      → Healthy e.db
      → (publish_depth cfg now (publish_depth cfg now e)).out ≡ (publish_depth cfg now e).out
  publish_depth_again now e up =
      let d = count_where (is_live now) e.db.tables.dtq_queue in
      let r = depth_read_lem e d (ran e.db) in
      let e₁ = depth_read cfg e (ok d, ran e.db) in
      rw (publish_depth_up now e up) (
        rw (publish_depth_up now e₁ (rw r.2 up))
          (depth_read_again e₁ _ (ran e₁.db) (rw (r.1, r.2) refl)))

  deliver_listed-Kept :
      {b : Bundle} (j : ℕ) (l : List Bundle) (e : Engine) (db : Db)
      → All (λ x. x.bundle_id ≡ j → is_online x.dst_node_id db.tables.node_registry ≡ false) l
      → Kept b (bundle j db.tables)
      → Kept b (bundle j (deliver_listed cfg e (ok l, db)).db.tables)
  unfolding deliver_listed nodes query
  deliver_listed-Kept {b} j l e db off h = elim (Bool-cases (db.faults db.done)) [
    | inl down ↦ rw down (deliver_each-Kept j [] l (with_db e (ran db)) (every_offline j l) h)
    | inr up ↦ rw up (deliver_each-Kept j db.tables.node_registry l (with_db e (ran db)) off h)
  ]

  -- A stored bundle for a destination that is not online stays in the queue through a round of
  -- deliveries, whichever statements fail: only its retry count may change.
  pub deliver_pending-Kept :
      (now : Millis) (j : ℕ) (b : Bundle) (e : Engine)
      → All
          (λ x. x.bundle_id ≡ j → is_online x.dst_node_id e.db.tables.node_registry ≡ false)
          e.db.tables.dtq_queue
      → bundle j e.db.tables ≡ some b
      → Kept b (bundle j (deliver_pending cfg now e).db.tables)
  unfolding deliver_pending deliver_listed Queue.list query
  deliver_pending-Kept now j b e off found =
      let live = select_where (is_live now) e.db.tables.dtq_queue in
      elim (Bool-cases (e.db.faults e.db.done)) [
        | inl down ↦ rw down (record { retries = b.retry_count; stored = found })
        | inr up ↦ rw up (
            deliver_listed-Kept j (order_by_expiry live) e (ran e.db)
              (All-order_by_expiry _ live
                (All-select_where _ (is_live now) e.db.tables.dtq_queue off))
              (record { retries = b.retry_count; stored = found }))
      ]
