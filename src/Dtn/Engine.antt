-- ===== src/Dtn/Engine.antt =====
-- hub/internal/dtnengine/dtnengine.go: expiry, delivery and depth reports of the queue.
pub mod Delivery
use quake_mesh.Base.{
  ℕ, Bool, true, false, not, ◌&&◌, Option, none, some, List, [], ◌∷◌, ◌++◌, any, ◌==◌, nat_eq,
  if◌then◌else◌,
}
use quake_mesh.Base.Text.{Text, text_eq}
use quake_mesh.Storage.{NodeId, NodeRow, Millis, Bundle, Route, Db, Result, ok, err}
use quake_mesh.Registry.Nodes.{online, nodes}
use quake_mesh.Registry.Routes.{get_route}
use quake_mesh.Dtn.Queue

-- `delivers` says whether the local deliverer takes a payload; `none` where there is none.
pub record Config : Type 0 where
  pub self_id : NodeId
  pub ttl : ℕ
  pub has_handler : Bool
  pub delivers : Option (Bundle → Bool)

pub data Output : Type 0 where
  deliver_local : NodeId → NodeId → Text → Output
  queue_depth_changed : ℕ → Output

-- `last_depth` is `none` at first, where the source has -1.
pub record Engine : Type 0 where
  pub last_depth : Option ℕ
  pub db : Db
  pub out : List Output

abbrev pub with_db : Engine → Db → Engine
with_db e db = record e { db = db }

abbrev pub emit : Output → Engine → Engine
emit o e = record e { out = e.out ++ o ∷ [] }

-- `onlineDestinations`: the nodes that are online; none if they cannot be read.
abbrev pub online_of : Result (List NodeRow) → List NodeRow
online_of (ok rows) = rows
online_of (err x) = []

abbrev pub is_online : NodeId → List NodeRow → Bool
is_online id = any (λ r. r.status == online && r.node_id == id)

abbrev pub has_route : Result (Option Route) → Bool
has_route (ok none) = false
has_route (ok (some r)) = true
has_route (err x) = false

-- What a bundle meets with: it is retried later, handed to the local deliverer, which refuses or
-- takes it, or counted as forwarded.
pub data Fate : Type 0 where
  retried refused delivered forwarded : Fate

abbrev pub local_fate : Option (Bundle → Bool) → Bundle → Fate
local_fate none b = forwarded
local_fate (some takes) b = if takes b then delivered else refused

module _ (cfg : Config) where
  unfoldable pub fate : List NodeRow → Bool → Bundle → Fate
  fate rows routed b =
      if not (is_online b.dst_node_id rows)
      then retried
      else if not routed
      then retried
      else if b.dst_node_id == cfg.self_id
      then local_fate cfg.delivers b
      else forwarded

  -- What the fate of a bundle does; errors of the two statements are ignored or logged.
  unfoldable pub meet : Fate → Bundle → Engine → Engine
  meet retried b e = with_db e (Queue.increment_retry b.bundle_id e.db).1
  meet refused b e =
      with_db (emit (deliver_local b.src_node_id b.dst_node_id b.payload) e)
        (Queue.increment_retry b.bundle_id e.db).1
  meet delivered b e =
      with_db (emit (deliver_local b.src_node_id b.dst_node_id b.payload) e)
        (Queue.delete b.bundle_id e.db).1
  meet forwarded b e = with_db e (Queue.delete b.bundle_id e.db).1

  -- The route is looked up only if the destination is online.
  unfoldable pub deliver_one : List NodeRow → Bundle → Engine → Engine
  unfolding fate meet
  deliver_one rows b e =
      if is_online b.dst_node_id rows
      then (let r = get_route b.dst_node_id e.db in
          meet (fate rows (has_route r.0) b) b (with_db e r.1))
      else meet (fate rows false b) b e

  unfoldable pub deliver_each : List NodeRow → List Bundle → Engine → Engine
  unfolding deliver_one
  deliver_each rows [] e = e
  deliver_each rows (b ∷ l) e = deliver_each rows l (deliver_one rows b e)

  unfoldable pub deliver_listed : Engine → Result (List Bundle) × Db → Engine
  unfolding deliver_each
  deliver_listed e (err x, db) = with_db e db
  deliver_listed e (ok l, db) = let r = nodes db in deliver_each (online_of r.0) l (with_db e r.1)

  unfoldable pub deliver_pending : Millis → Engine → Engine
  unfolding deliver_listed
  deliver_pending now e = deliver_listed e (Queue.list now e.db)

  abbrev pub same_depth : ℕ → Option ℕ → Bool
  same_depth d none = false
  same_depth d (some last) = d == last

  unfoldable pub depth_read : Engine → Result ℕ × Db → Engine
  depth_read e (err x, db) = with_db e db
  depth_read e (ok d, db) =
      let e₁ = record e { last_depth = some d; db = db } in
      if not (same_depth d e.last_depth) && cfg.has_handler
      then emit (queue_depth_changed d) e₁
      else e₁

  unfoldable pub publish_depth : Millis → Engine → Engine
  unfolding depth_read
  publish_depth now e = depth_read e (Queue.depth now e.db)

  unfoldable pub process_once : Millis → Engine → Engine
  unfolding deliver_pending publish_depth
  process_once now e =
      publish_depth now (deliver_pending now (with_db e (Queue.expire_before now e.db).1))

  -- `OnRouteChanged`.
  abbrev pub on_route_changed : Millis → Route → Engine → Engine
  on_route_changed now route e = process_once now e

  unfoldable pub enqueued : Millis → Engine → Result Bundle × Db → Result (Unit {0}) × Engine
  unfolding publish_depth
  enqueued now e (err x, db) = (err x, with_db e db)
  enqueued now e (ok b, db) = (ok tt, publish_depth now (with_db e db))

  unfoldable pub enqueue : Millis → ℕ → NodeId → NodeId → Text → Engine → Result (Unit {0}) × Engine
  unfolding enqueued
  enqueue now id src dst payload e =
      enqueued now e (Queue.enqueue id src dst payload cfg.ttl now e.db)
