-- ===== src/Dtn/Queue/Contents.antt =====
-- What each statement on the queue does to it, and the listing as a sorted view of its live part.
use mathlib.Core.Option
use quake_mesh.Base.{
  ◌≡◌, ◌≢◌, refl, ℕ, ◌+◌, ◌≤◌, Bool, false, ◌&&◌, none, some, List, [], ◌∷◌, arith, length, ◌==◌,
  nat_eq, nat_beq_iff, if◌then◌else◌,
}
use quake_mesh.Base.Text.{Text}
use quake_mesh.Base.Rows.{
  keyed, row_at, row_at-insert_row, row_at-update_where, select_first, select_where, count_where,
  delete_where, count_where-delete_where, select_first-survives, delete_where-length,
}
use quake_mesh.Storage.{NodeId, Millis, Bundle, Db, Error, ok, err, exec, exec_checked, query}
use quake_mesh.Dtn.Queue.{
  bundle_id, bundle, new_bundle, enqueue, is_live, insert_by_expiry, order_by_expiry, list, delete,
  is_expired, expire_before, retry, increment_retry,
}

-- A successful `Enqueue` returns the new bundle and stores it under an id that was free, and every
-- other id keeps its bundle.
pub enqueue-rows :
    (id j : ℕ) (src dst : NodeId) (payload : Text) (ttl : ℕ) (now : Millis) (db : Db) {b : Bundle}
    → (enqueue id src dst payload ttl now db).0 ≡ ok b
    → (b ≡ new_bundle id src dst payload (now + ttl))
      × (bundle id db.tables ≡ none)
      × (bundle j (enqueue id src dst payload ttl now db).1.tables
          ≡ (if id == j then some b else bundle j db.tables))
unfolding enqueue exec_checked
enqueue-rows id j src dst payload ttl now db h =
    let b = new_bundle id src dst payload (now + ttl) in
    ground (arith, nat_beq_iff id j, row_at-insert_row bundle_id j b db.tables.dtq_queue)

-- An `Enqueue` that fails, as one does under an id that is taken, leaves the queue alone.
pub enqueue-err :
    (id : ℕ) (src dst : NodeId) (payload : Text) (ttl : ℕ) (now : Millis) (db : Db)
    → ((e : Error)
        → (enqueue id src dst payload ttl now db).0 ≡ err e
        → (enqueue id src dst payload ttl now db).1.tables ≡ db.tables)
      × ((old b : Bundle)
          → bundle id db.tables ≡ some old
          → (enqueue id src dst payload ttl now db).0 ≢ ok b)
unfolding enqueue exec_checked
enqueue-err id src dst payload ttl now db = (λ e h. ground arith, λ old b taken h. ground arith)

-- After a successful `ExpireBefore` no bundle in the queue has expired, every other bundle is still
-- there, and the result is the number of bundles that are gone.
pub expire_before-rows :
    (before : Millis) (db : Db) {n : ℕ}
    → (expire_before before db).0 ≡ ok n
    → let t = (expire_before before db).1.tables in
      (count_where (is_expired before) t.dtq_queue ≡ 0)
      × ((j : ℕ) (b : Bundle)
          → bundle j db.tables ≡ some b
          → is_expired before b ≡ false
          → bundle j t ≡ some b)
      × (length t.dtq_queue + n ≡ length db.tables.dtq_queue)
unfolding expire_before exec
expire_before-rows before db h =
    let q = db.tables.dtq_queue in
    (
      ground (arith, count_where-delete_where (is_expired before) q),
      λ j b found live.
          ground (arith, select_first-survives (keyed bundle_id j) (is_expired before) q b),
      ground (arith, delete_where-length (is_expired before) q),
    )

-- No bundle expires before the head of the list, and so on down the list.
unfoldable pub FromTime : Millis → List Bundle → Type 0
FromTime m [] = Unit
FromTime m (b ∷ l) = (m ≤ b.expires_at) × FromTime b.expires_at l

unfoldable pub Ordered : List Bundle → Type 0
unfolding FromTime
Ordered l = FromTime 0 l

insert_by_expiry-FromTime :
    (b : Bundle) (m : Millis) (l : List Bundle)
    → m ≤ b.expires_at
    → FromTime m l
    → FromTime m (insert_by_expiry b l)
unfolding insert_by_expiry FromTime
insert_by_expiry-FromTime b m [] low h = (low, tt)
insert_by_expiry-FromTime b m (x ∷ l) low h =
    ground (arith, insert_by_expiry-FromTime b x.expires_at l)

order_by_expiry-Ordered : (l : List Bundle) → Ordered (order_by_expiry l)
unfolding order_by_expiry Ordered
order_by_expiry-Ordered [] = tt
order_by_expiry-Ordered (b ∷ l) =
    insert_by_expiry-FromTime b 0 (order_by_expiry l) (omega arith) (order_by_expiry-Ordered l)

count_where-insert_by_expiry :
    (p : Bundle → Bool) (b : Bundle) (l : List Bundle)
    → count_where p (insert_by_expiry b l) ≡ count_where p (b ∷ l)
unfolding count_where insert_by_expiry
count_where-insert_by_expiry p b [] = refl
count_where-insert_by_expiry p b (x ∷ l) = ground (arith, count_where-insert_by_expiry p b l)

count_where-listed :
    (p : Bundle → Bool) (now : Millis) (q : List Bundle)
    → count_where p (order_by_expiry (select_where (is_live now) q))
      ≡ count_where (λ b. is_live now b && p b) q
unfolding count_where select_where order_by_expiry
count_where-listed p now [] = refl
count_where-listed p now (b ∷ q) = ground (
  arith,
  count_where-listed p now q,
  count_where-insert_by_expiry p b (order_by_expiry (select_where (is_live now) q)),
)

-- A successful `List` is ordered by expiry and holds the live bundles of the queue, each as often
-- as the queue does: any test holds of as many listed bundles as live ones.
pub list-live :
    (now : Millis) (db : Db) {l : List Bundle}
    → (list now db).0 ≡ ok l
    → Ordered l
      × ((p : Bundle → Bool)
          → count_where p l ≡ count_where (λ b. is_live now b && p b) db.tables.dtq_queue)
unfolding list query
list-live now db h =
    let live = select_where (is_live now) db.tables.dtq_queue in
    (
      ground (arith, order_by_expiry-Ordered live),
      λ p. ground (arith, count_where-listed p now db.tables.dtq_queue),
    )

row_at-deleted :
    (id j : ℕ) (q : List Bundle)
    → row_at bundle_id j (delete_where (keyed bundle_id id) q)
      ≡ (if id == j then none else row_at bundle_id j q)
unfolding select_first delete_where
row_at-deleted id j [] = ground arith
row_at-deleted id j (b ∷ q) = ground (
  arith,
  nat_beq_iff b.bundle_id id,
  nat_beq_iff b.bundle_id j,
  nat_beq_iff id j,
  row_at-deleted id j q,
)

-- `Delete` and `IncrementRetry` change the bundle of their id alone where they succeed, and change
-- nothing where they fail.
pub delete-rows :
    (id j : ℕ) (db : Db)
    → bundle j (delete id db).1.tables ≡ elim (delete id db).0 [
      | ok u ↦ (if id == j then none else bundle j db.tables)
      | err e ↦ bundle j db.tables
    ]
unfolding delete exec
delete-rows id j db = ground (arith, row_at-deleted id j db.tables.dtq_queue)

pub increment_retry-rows :
    (id j : ℕ) (db : Db)
    → bundle j (increment_retry id db).1.tables ≡ elim (increment_retry id db).0 [
      | ok u ↦ (if id == j then Option.map retry (bundle j db.tables) else bundle j db.tables)
      | err e ↦ bundle j db.tables
    ]
unfolding increment_retry exec
increment_retry-rows id j db =
    ground (arith, row_at-update_where bundle_id id j retry (λ b. refl) db.tables.dtq_queue)
