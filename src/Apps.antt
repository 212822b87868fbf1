-- ===== src/Apps.antt =====
-- core/apppresence/store.go: app_presence.
pub mod Presence
use quake_mesh.Base.{
  ℕ, Bool, true, false, not, ◌&&◌, ◌||◌, Option, none, some, List, [], ◌∷◌, any, leb, ◌==◌, nat_eq,
  pair_eq, if◌then◌else◌,
}
use quake_mesh.Base.Text.{Text, codes, text_eq, trim_space}
use quake_mesh.Base.Rows.{keyed, row_at, upsert_row}
use quake_mesh.Storage.{
  NodeId, Millis, AppRecord, Tables, M, ok, err, app_id_required, pure, fail, ◌>>=◌, ◌>>◌, query,
  exec,
}

-- The primary key.
abbrev pub app_key : AppRecord → NodeId × Text
app_key r = (r.node_id, r.app_id)

abbrev pub presence : NodeId → Text → Tables → Option AppRecord
presence id app t = row_at app_key (id, app) t.app_presence

abbrev pub on_apps : (List AppRecord → List AppRecord) → Tables → Tables
on_apps f t = record t { app_presence = f t.app_presence }

abbrev pub report : AppRecord → AppRecord → AppRecord
report new r = record r {
  app_name = new.app_name;
  app_version = new.app_version;
  last_reported = new.last_reported;
}

unfoldable pub upsert : AppRecord → M (Unit {0})
upsert r =
    if r.app_id == []
    then fail app_id_required
    else exec (on_apps (upsert_row (keyed app_key (app_key r)) (report r) r))

-- `ORDER BY last_reported DESC`.
unfoldable pub insert_by_report : AppRecord → List AppRecord → List AppRecord
insert_by_report r [] = r ∷ []
insert_by_report r (x ∷ l) =
    let rest = insert_by_report r l in
    if leb x.last_reported r.last_reported then r ∷ x ∷ l else x ∷ rest

unfoldable pub order_by_report : List AppRecord → List AppRecord
unfolding insert_by_report
order_by_report [] = []
order_by_report (r ∷ l) = insert_by_report r (order_by_report l)

unfoldable pub list : M (List AppRecord)
unfolding order_by_report
list = query (λ t. order_by_report t.app_presence)

unfoldable pub version_matches : Text → Text → Bool
version_matches version constraint =
    let c = trim_space constraint in c == [] || c == codes "*" || version == c

abbrev pub runs : Text → Text → AppRecord → Bool
runs app constraint r = r.app_id == app && version_matches r.app_version constraint

-- The loop of `DiscoverPeers`, with the set of ids that it has seen.
unfoldable pub collect_peers : Text → Text → List NodeId → List AppRecord → List NodeId
unfolding version_matches
collect_peers app constraint seen [] = []
collect_peers app constraint seen (r ∷ l) =
    let skipped = collect_peers app constraint seen l in
    let taken = collect_peers app constraint (r.node_id ∷ seen) l in
    if not (runs app constraint r) || any (λ id. id == r.node_id) seen
    then skipped
    else r.node_id ∷ taken

unfoldable pub discover_peers : Text → Text → M (List NodeId)
unfolding list collect_peers
discover_peers app constraint = do recs ← list; pure (collect_peers app constraint [] recs)

unfoldable pub get : NodeId → Text → M (Option AppRecord)
get id app = query (presence id app)

-- The branches of the `switch` in `MergeGossip`.
unfoldable pub merge : AppRecord → Option AppRecord → M Bool
unfolding upsert
merge r none = upsert r >> pure true
merge r (some local) =
    if leb r.last_reported local.last_reported then pure false else (upsert r >> pure true)

unfoldable pub merge_gossip : AppRecord → M Bool
unfolding merge
merge_gossip r = query (presence r.node_id r.app_id) >>= merge r
