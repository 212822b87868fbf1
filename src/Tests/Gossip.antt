-- ===== src/Tests/Gossip.antt =====
-- The theorems on bans, apps and gossip at concrete inputs.
use quake_mesh.Base.{
  nat_beq, ◌&&◌, if◌then◌else◌, false, ◌≡◌, refl, ℕ, true, not, none, some, [], ◌∷◌, any, map,
  nat_eq, arith,
}
use quake_mesh.Base.Float.{thousandths}
use quake_mesh.Base.Rows.{select_where, select_first}
use quake_mesh.Base.Text.{
  Text, codes, text_eq, text_beq, has_prefix, has_suffix, trim_suffix, trim_space, slice_of,
}
use quake_mesh.Storage.{
  Tables, empty_tables, Db, Proposal, Verdict, AppRecord, ok, query, exec_checked, exec, Healthy,
}
use quake_mesh.Bans.{
  verdict, merge_gossip_verdict, proposal, version_in_range, is_locally_enforced, verdict_for_hub,
  list_all_verdicts,
}
use quake_mesh.Bans.Verdicts.{later, merge_gossip_verdict-rows}
use quake_mesh.Bans.Enforcement.{enforces, is_locally_enforced_lem}
use quake_mesh.Apps
use quake_mesh.Apps.{presence, order_by_report, runs}
use quake_mesh.Registry.Nodes.{nodes}
use quake_mesh.Registry.Relays.{list_relay_hubs}
use quake_mesh.Sync.Wire.{Config, Engine, Message}
use quake_mesh.Sync.Outgoing.{build_message, presence_record}
use quake_mesh.Sync.Incoming.{apply}
use quake_mesh.Sync.Incoming.Merges.{SeenBy, apply-SeenBy}
use quake_mesh.Sync.Outgoing.Reports.{is_banned, build_message-apps}
use quake_mesh.Tests.Data.{database, database-Healthy, node_row}

abbrev ban : Proposal
ban = record {
  ban_id = 11;
  app_id = codes "chat";
  version_range = codes "1.*";
  reason = [];
  proposed_by = 1;
  proposed_at = 100;
  signature = some [];
}

abbrev agrees : Verdict
agrees = record { ban_id = 11; hub_id = 1; agree = true; decided_at = 110 }

abbrev chat_on : ℕ → Text → ℕ → AppRecord
chat_on node version at = record {
  node_id = node;
  app_id = codes "chat";
  app_name = codes "Chat";
  app_version = version;
  last_reported = at;
}

-- Hub 1 agreed to a ban of chat 1; node 4 runs chat 1.2 and node 5 runs chat 2.0.
abbrev banned : Tables
banned = record empty_tables {
  node_registry = node_row 4 50 (codes "online") ∷ [];
  app_presence = chat_on 4 (codes "1.2") 70 ∷ chat_on 5 (codes "2.0") 80 ∷ [];
  ban_list = ban ∷ [];
  ban_verdicts = agrees ∷ [];
}

abbrev db : Db
db = database banned

abbrev opposes : Verdict
opposes = record { ban_id = 11; hub_id = 2; agree = false; decided_at = 120 }

opposes_merged : (merge_gossip_verdict opposes db).0 ≡ ok true
unfolding merge_gossip_verdict query select_first exec_checked
opposes_merged = refl

merge_gossip_verdict-rows_example : verdict 11 2 (merge_gossip_verdict opposes db).1.tables ≡ (
    if nat_beq 11 11 && nat_beq 2 2
    then some (later opposes (verdict 11 2 banned))
    else verdict 11 2 banned)
merge_gossip_verdict-rows_example = merge_gossip_verdict-rows opposes 11 2 db opposes_merged

is_locally_enforced_lem_example :
    ((is_locally_enforced 1 (codes "chat") (codes "1.2") db).0
      ≡ ok (any (enforces 1 (codes "chat") (codes "1.2") banned) (ban ∷ [])))
    × ((is_locally_enforced 1 (codes "chat") (codes "1.2") db).1.tables ≡ banned)
    × Healthy (is_locally_enforced 1 (codes "chat") (codes "1.2") db).1
is_locally_enforced_lem_example =
    is_locally_enforced_lem 1 (codes "chat") (codes "1.2") db (database-Healthy banned)

abbrev unsigned : Proposal
unsigned = record ban { signature = none; proposed_at = 130 }

ban_stored : proposal 11 banned ≡ some ban
unfolding select_first
ban_stored = refl

abbrev newer_chat : AppRecord
newer_chat = chat_on 4 (codes "1.3") 90

chat_merged : (Apps.merge_gossip newer_chat db).0 ≡ ok true
unfolding Apps.merge_gossip query select_first text_beq exec
chat_merged = refl

both_found : (Apps.discover_peers (codes "chat") (codes "*") db).0 ≡ ok (5 ∷ 4 ∷ [])
unfolding Apps.discover_peers query text_beq trim_space
both_found = refl

abbrev hub_one : Config
hub_one = record { self_id = 1; local_hub = 1; has_apps = true; has_bans = true; notifies = true }

-- What hub 1 says: nothing of node 4, whose chat it bans.
abbrev said : Message
said = record {
  from_hub = slice_of 32 1;
  node_records =
      record {
        node_id = slice_of 32 4;
        first_seen = 1;
        last_seen = 50;
        status = codes "online";
        last_lat = 0;
        last_lon = 0;
      }
      ∷ [];
  relay_hubs = [];
  app_presence = presence_record (chat_on 5 (codes "2.0") 80) ∷ [];
  ban_proposals =
      record {
        ban_id = slice_of 16 11;
        app_id = codes "chat";
        version_range = codes "1.*";
        reason = [];
        proposed_by = slice_of 32 1;
        proposed_at = 100;
        signature = some [];
      }
      ∷ [];
  ban_verdicts =
      record { ban_id = slice_of 16 11; hub_id = slice_of 32 1; agree = true; decided_at = 110 }
      ∷ [];
}

message_built : (build_message thousandths hub_one db).0 ≡ ok said
unfolding build_message query select_first text_beq trim_space is_locally_enforced verdict_for_hub
    version_in_range has_suffix has_prefix trim_suffix nodes list_relay_hubs Apps.list
    list_all_verdicts
message_built = refl

build_message-apps_example :
    presence_record (chat_on 5 (codes "2.0") 80) ∷ []
    ≡ map presence_record
        (select_where (λ a. not (is_banned 1 banned a)) (order_by_report banned.app_presence))
build_message-apps_example =
    build_message-apps thousandths hub_one db said (database-Healthy banned) refl refl message_built

abbrev engine : Engine
engine = record { db = db; out = [] }

four_seen : SeenBy 4 50 db
unfolding select_first
four_seen = record { row = node_row 4 50 (codes "online"); found = refl; late = omega arith }

apply-SeenBy_example : SeenBy 4 50 (apply thousandths hub_one said engine).db
apply-SeenBy_example = apply-SeenBy thousandths hub_one said engine 4 50 four_seen
