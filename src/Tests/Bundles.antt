-- ===== src/Tests/Bundles.antt =====
-- The theorems on the queue of bundles and its engine at concrete inputs.
use quake_mesh.Base.{◌≡◌, refl, true, none, some, [], ◌∷◌}
use quake_mesh.Base.Rows.{count_where, select_first, select_where}
use quake_mesh.Base.Text.{codes, text_beq}
use quake_mesh.Storage.{Tables, empty_tables, Db, Bundle, ok, query, exec, exec_checked}
use quake_mesh.Dtn.Queue
use quake_mesh.Dtn.Queue.{bundle, new_bundle, is_expired, is_live}
use quake_mesh.Dtn.Engine.{Config, Engine, deliver_pending}
use quake_mesh.Dtn.Engine.Delivery.{Kept, deliver_pending-Kept}
use quake_mesh.Tests.Data.{database, node_row, route_over}

-- Bundle 1 for node 5 expires at 90, bundle 2 for node 6 at 60.
abbrev two_bundles : Tables
two_bundles = record empty_tables {
  node_registry = node_row 6 50 (codes "online") ∷ node_row 5 40 (codes "stale") ∷ [];
  dtq_queue = new_bundle 1 4 5 [] 90 ∷ new_bundle 2 4 6 [] 60 ∷ [];
}

abbrev db : Db
db = database two_bundles

third_stored : (Queue.enqueue 3 4 6 [] 20 50 db).0 ≡ ok (new_bundle 3 4 6 [] 70)
unfolding Queue.enqueue exec_checked select_first
third_stored = refl

one_expired : (Queue.expire_before 60 db).0 ≡ ok 1
unfolding Queue.expire_before exec count_where
one_expired = refl

both_listed : (Queue.list 50 db).0 ≡ ok (new_bundle 2 4 6 [] 60 ∷ new_bundle 1 4 5 [] 90 ∷ [])
unfolding Queue.list query select_where
both_listed = refl

abbrev hub_four : Config
hub_four = record { self_id = 4; ttl = 20; has_handler = true; delivers = none }

abbrev engine : Engine
engine = record { last_depth = none; db = db; out = [] }

first_stored : bundle 1 two_bundles ≡ some (new_bundle 1 4 5 [] 90)
unfolding select_first
first_stored = refl

deliver_pending-Kept_example :
    Kept (new_bundle 1 4 5 [] 90) (bundle 1 (deliver_pending hub_four 50 engine).db.tables)
unfolding text_beq
deliver_pending-Kept_example =
    deliver_pending-Kept hub_four 50 1 (new_bundle 1 4 5 [] 90) engine
      ((λ h. refl), ((λ h. cc), tt)) first_stored

-- Node 6 is reached over node 7.
abbrev routed : Tables
routed = record two_bundles { routing_table = route_over 6 7 900 ∷ [] }

abbrev bundle_for_six : Bundle
bundle_for_six = new_bundle 2 4 6 [] 60
