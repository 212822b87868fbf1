-- ===== src/Dtn/Queue.antt =====
-- core/dtn/store.go: dtq_queue.
pub mod Contents
use quake_mesh.Base.{
  ℕ, ◌+◌, Bool, true, false, ◌<◌, Option, none, some, List, [], ◌∷◌, leb, ltb, ◌==◌, nat_eq,
  if◌then◌else◌,
}
use quake_mesh.Base.Text.{Text}
use quake_mesh.Base.Rows.{
  keyed, row_at, select_where, count_where, update_where, delete_where, insert_row,
}
use quake_mesh.Storage.{
  NodeId, Millis, Bundle, Tables, M, Result, ok, err, unique_key, pure, ◌>>=◌, ◌>>◌, query, exec,
  exec_checked,
}

-- The key column.
abbrev pub bundle_id : Bundle → ℕ
bundle_id b = b.bundle_id

abbrev pub bundle : ℕ → Tables → Option Bundle
bundle id t = row_at bundle_id id t.dtq_queue

abbrev pub with_queue : Tables → List Bundle → Tables
with_queue t q = record t { dtq_queue = q }

abbrev pub on_queue : (List Bundle → List Bundle) → Tables → Tables
on_queue f t = with_queue t (f t.dtq_queue)

abbrev pub new_bundle : ℕ → NodeId → NodeId → Text → Millis → Bundle
new_bundle id src dst payload expires = record {
  bundle_id = id;
  src_node_id = src;
  dst_node_id = dst;
  payload = payload;
  expires_at = expires;
  retry_count = 0;
}

-- `INSERT` under the primary key.
abbrev pub insert_bundle : Bundle → Option Bundle → Tables → Result Tables
insert_bundle b none t = ok (on_queue (insert_row b) t)
insert_bundle b (some old) t = err unique_key

-- `id` is what `rand.Read` made; its own failure is not modelled.
unfoldable pub enqueue : ℕ → NodeId → NodeId → Text → ℕ → Millis → M Bundle
enqueue id src dst payload ttl now =
    let b = new_bundle id src dst payload (now + ttl) in
    exec_checked (λ t. insert_bundle b (bundle id t) t) >> pure b

-- `WHERE expires_at > ?`.
abbrev pub is_live : Millis → Bundle → Bool
is_live now b = ltb now b.expires_at

-- `ORDER BY expires_at`.
unfoldable pub insert_by_expiry : Bundle → List Bundle → List Bundle
insert_by_expiry b [] = b ∷ []
insert_by_expiry b (x ∷ l) =
    let rest = insert_by_expiry b l in if leb b.expires_at x.expires_at then b ∷ x ∷ l else x ∷ rest

unfoldable pub order_by_expiry : List Bundle → List Bundle
unfolding insert_by_expiry
order_by_expiry [] = []
order_by_expiry (b ∷ l) = insert_by_expiry b (order_by_expiry l)

unfoldable pub list : Millis → M (List Bundle)
unfolding order_by_expiry
list now = query (λ t. order_by_expiry (select_where (is_live now) t.dtq_queue))

unfoldable pub delete : ℕ → M (Unit {0})
delete id = exec (on_queue (delete_where (keyed bundle_id id)))

-- `WHERE expires_at <= ?`.
abbrev pub is_expired : Millis → Bundle → Bool
is_expired before b = leb b.expires_at before

unfoldable pub expire_before : Millis → M ℕ
expire_before before = λ db.
    (exec (on_queue (delete_where (is_expired before)))
        >> pure (count_where (is_expired before) db.tables.dtq_queue))
      db

unfoldable pub depth : Millis → M ℕ
depth now = query (λ t. count_where (is_live now) t.dtq_queue)

abbrev pub retry : Bundle → Bundle
retry b = record b { retry_count = b.retry_count + 1 }

unfoldable pub increment_retry : ℕ → M (Unit {0})
increment_retry id = exec (on_queue (update_where (keyed bundle_id id) retry))
