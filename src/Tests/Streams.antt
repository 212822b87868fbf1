-- ===== src/Tests/Streams.antt =====
-- The theorems on migrations and on the streams of events at concrete inputs.
use quake_mesh.Base.{
  ◌≡◌, refl, ℕ, ◌+◌, Bool, true, false, some, none, [], ◌∷◌, List, Option, arith, nat_eq,
}
use quake_mesh.Base.Text.{Text, codes}
use quake_mesh.Base.Map.{lookup}
use quake_mesh.Hub.{
  Config, Part, close, discovery, heartbeat, same_part, start, start_daemon, start_discovery,
  start_heartbeat, start_sync, sync,
}
use quake_mesh.Hub.Started.{left_after, start_leaves}
use quake_mesh.Storage.Migrations.{Disk, Migration, migrate}
use quake_mesh.Storage.Migrations.Resumed.{Ascending, Resumes, migrate-Resumes}
use quake_mesh.Management.{ManagementEvent, internet_fallback}
use quake_mesh.Management
use quake_mesh.Management.Delivery.{publish_all, publish_all-queue}
use quake_mesh.Monitor.Feed.{Parsed, Store, first_of, list, max_alerts}
use quake_mesh.Monitor.Feed.Recent.{Call, add_all, list-add_all, newest_first}
use quake_mesh.Monitor.Client.{Client, Library, run}
use quake_mesh.Monitor.Client.Backoff.{long_waits, run-waits}

-- Scripts that add to a number; the fourth statement fails.
abbrev scripts : List (Migration ℕ)
scripts =
    record { version = 1; script = λ n. some (n + 1) }
    ∷ record { version = 2; script = λ n. some (n + 10) }
    ∷ []

abbrev disk : Disk ℕ
disk = record { content = 0; user_version = 0; faults = λ n. false; done = 0 }

in_order : Ascending scripts
in_order = ((omega arith, tt), (tt, tt))

migrate-Resumes_example : Resumes scripts disk (migrate scripts disk)
migrate-Resumes_example = migrate-Resumes scripts disk in_order

abbrev toggled : ManagementEvent
toggled = record { emitted_at = 7; event = internet_fallback true }

abbrev monitor : Management.Server
monitor = record { clients = (3, codes "a" ∷ []) ∷ [] }

waits_for_three : lookup 3 monitor.clients ≡ some (codes "a" ∷ [])
unfolding lookup
waits_for_three = refl

publish_all-queue_example :
    lookup 3 (publish_all (λ e. some (codes "e")) (toggled ∷ toggled ∷ []) monitor).clients
    ≡ some (codes "a" ∷ codes "e" ∷ codes "e" ∷ [])
publish_all-queue_example =
    publish_all-queue (λ e. some (codes "e")) (toggled ∷ toggled ∷ []) 3 (codes "a" ∷ []) monitor
      waits_for_three (omega arith)

abbrev plain_text : Text → Parsed
plain_text t = record { text = t; lat = 0; lon = 0; accuracy_m = 0; sent_at = 0 }

abbrev call : Call
call = record {
  now = 9;
  node = codes "n";
  app = codes "a";
  topic = codes "sos";
  payload = codes "help";
}

abbrev feed : Store
feed = record { alerts = [] }

list-add_all_example :
    list (add_all plain_text (call ∷ call ∷ []) feed)
    ≡ first_of max_alerts (newest_first plain_text (call ∷ call ∷ []) (list feed))
list-add_all_example = list-add_all plain_text (call ∷ call ∷ []) feed (omega arith)

abbrev library : Library
library = record { node_string = λ n. n ∷ []; unmarshal = λ t. none; zero_float = 0; zero_time = 0 }

abbrev client : Client
client = record { listeners = [] }

abbrev working : List (Option ManagementEvent)
working = some toggled ∷ some toggled ∷ []

run-waits_example :
    (run library (working ∷ working ∷ working ∷ working ∷ working ∷ working ∷ []) client).0
    ≡ 1 ∷ 2 ∷ 4 ∷ 8 ∷ 16 ∷ long_waits (working ∷ [])
run-waits_example = run-waits library working working working working working (working ∷ []) client

abbrev full : Config
full = record { has_daemon = true; has_heartbeat = true; has_discovery = true }

-- All parts start but the sync engine.
abbrev all_but_sync : Part → Bool
all_but_sync sync = false
all_but_sync p = true

start_leaves_example :
    (start full all_but_sync true true).1 ≡ left_after full (start full all_but_sync true true).0
start_leaves_example = start_leaves all_but_sync true true full

still_listening : (start full all_but_sync true true).1 ≡ heartbeat ∷ discovery ∷ []
unfolding start start_daemon start_heartbeat start_discovery start_sync close same_part
still_listening = refl
