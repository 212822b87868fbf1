-- ===== src/Storage.antt =====
-- core/storage: the tables that the stores share, and statements that may fail.
-- A database is its tables with a schedule of failures: statement number `done` fails if
-- `faults done` says so, and then it has changed nothing. SQLite itself is not modelled beyond the
-- meaning of the statements that the stores issue.
pub mod Laws
pub mod Migrations
use quake_mesh.Base.{
  ℕ, suc, ◌/◌, ◌%◌, ◌≡◌, ◌==◌, nat_eq, ◌&&◌, not, Bool, false, Option, none, some, List, [],
  if◌then◌else◌,
}
use quake_mesh.Base.Int.{ℤ}
use quake_mesh.Base.Text.{Text}

-- A `float64` is its bit pattern.
abbrev pub Float64 : Type 0
Float64 = ℕ

-- The exponent has all its bits and the fraction some.
unfoldable pub is_nan : Float64 → Bool
is_nan x = (x / 4503599627370496) % 2048 == 2047 && not (x % 4503599627370496 == 0)

-- What SQLite stores of a parameter: a NaN is a NULL.
abbrev pub storable : Option Float64 → Option Float64
storable none = none
storable (some x) = if is_nan x then none else some x

-- A `[32]byte` is the number that it spells, and so is a `[16]byte`.
abbrev pub NodeId : Type 0
NodeId = ℕ

abbrev pub BanId : Type 0
BanId = ℕ

-- `UnixMilli`, an `int64`, counted from the least `int64`: order and differences are kept.
abbrev pub Millis : Type 0
Millis = ℕ

-- The `Millis` of `time.UnixMilli(0)`.
abbrev pub epoch : Millis
epoch = 9223372036854775808

pub record NodeRow : Type 0 where
  pub node_id : NodeId
  pub first_seen : Millis
  pub last_seen : Millis
  pub last_lat : Option Float64
  pub last_lon : Option Float64
  pub status : Text
  pub handle : Option Text
  pub home_lat : Option Float64
  pub home_lon : Option Float64

pub record Route : Type 0 where
  pub destination : NodeId
  pub next_hop : NodeId
  pub tq : Float64
  pub latency_ms : ℕ
  pub hop_count : ℕ

pub record ProximityEvent : Type 0 where
  pub observer : NodeId
  pub observed : NodeId
  pub rssi : ℤ
  pub transport : Text
  pub observed_at : Millis

pub record Endorsement : Type 0 where
  pub endorser : NodeId
  pub endorsed : NodeId
  pub endorsed_at : Millis
  pub signature : Text

pub record HubRow : Type 0 where
  pub hub_id : NodeId
  pub last_ip : Option Text
  pub last_port : Option ℕ
  pub relay_capable : Bool
  pub first_seen : Millis
  pub last_seen : Millis
  pub status : Text
  pub manual_lat : Option Float64
  pub manual_lon : Option Float64

pub record RelayHub : Type 0 where
  pub hub_id : NodeId
  pub ip : Text
  pub port : ℕ
  pub source : Text
  pub last_verified : Millis

pub record AppRecord : Type 0 where
  pub node_id : NodeId
  pub app_id : Text
  pub app_name : Text
  pub app_version : Text
  pub last_reported : Millis

-- A signature is `none` where the source has a nil slice; a stored one never is.
pub record Proposal : Type 0 where
  pub ban_id : BanId
  pub app_id : Text
  pub version_range : Text
  pub reason : Text
  pub proposed_by : NodeId
  pub proposed_at : Millis
  pub signature : Option Text

pub record Verdict : Type 0 where
  pub ban_id : BanId
  pub hub_id : NodeId
  pub agree : Bool
  pub decided_at : Millis

pub record Bundle : Type 0 where
  pub bundle_id : ℕ
  pub src_node_id : NodeId
  pub dst_node_id : NodeId
  pub payload : Text
  pub expires_at : Millis
  pub retry_count : ℕ

pub record MetricRow : Type 0 where
  pub metric_name : Text
  pub node_id : Option NodeId
  pub value : Float64
  pub recorded_at : Millis

pub record Setting : Type 0 where
  pub key : Text
  pub value : Text

-- `must_change_password` is not 0 where it holds; the salt is always empty.
pub record AdminRow : Type 0 where
  pub username : Text
  pub password_hash : Text
  pub must_change_password : ℕ

pub record SegmentRow : Type 0 where
  pub segment_id : Text
  pub gateway_ip : Text
  pub ssid : Option Text
  pub bssid : Option Text
  pub first_seen : Millis
  pub last_seen : Millis
  pub estimated_lat : Option Float64
  pub estimated_lon : Option Float64
  pub manual_lat : Option Float64
  pub manual_lon : Option Float64

pub record MemberRow : Type 0 where
  pub segment_id : Text
  pub entity_type : Text
  pub entity_id : NodeId
  pub local_ip : Option Text
  pub last_seen : Millis

-- The tables that the modelled stores use, without surrogate keys and the column pubkey.
pub record Tables : Type 0 where
  pub node_registry : List NodeRow
  pub routing_table : List Route
  pub proximity_events : List ProximityEvent
  pub trust_endorsements : List Endorsement
  pub hub_registry : List HubRow
  pub relay_hubs : List RelayHub
  pub app_presence : List AppRecord
  pub ban_list : List Proposal
  pub ban_verdicts : List Verdict
  pub dtq_queue : List Bundle
  pub historical_metrics : List MetricRow
  pub config : List Setting
  pub admin_users : List AdminRow
  pub lan_segments : List SegmentRow
  pub lan_segment_members : List MemberRow

abbrev pub empty_tables : Tables
empty_tables = record {
  node_registry = [];
  routing_table = [];
  proximity_events = [];
  trust_endorsements = [];
  hub_registry = [];
  relay_hubs = [];
  app_presence = [];
  ban_list = [];
  ban_verdicts = [];
  dtq_queue = [];
  historical_metrics = [];
  config = [];
  admin_users = [];
  lan_segments = [];
  lan_segment_members = [];
}

pub record Db : Type 0 where
  pub tables : Tables
  pub faults : ℕ → Bool
  pub done : ℕ

-- `fault` stands for whatever the driver reports.
pub data Error : Type 0 where
  fault unique_key foreign_key app_id_required not_null no_proximity_event bad_length no_rows
        bad_entity_type no_local_hub bad_hub_id bad_ban_id :
      Error

pub data Result {ℓ} (A : Type ℓ) : Type ℓ where
  ok : A → Result A
  err : Error → Result A

abbrev pub M : Type 0 → Type 0
M A = Db → Result A × Db

abbrev pub pure : {A : Type 0} → A → M A
pure a db = (ok a, db)

abbrev pub fail : {A : Type 0} → Error → M A
fail e db = (err e, db)

abbrev pub after : {A B : Type 0} → Result A × Db → (A → M B) → Result B × Db
after (ok a, db) k = k a db
after (err e, db) k = (err e, db)

infixl 5 ◌>>=◌ ◌>>◌
abbrev pub ◌>>=◌ : {A B : Type 0} → M A → (A → M B) → M B
◌>>=◌ m k db = after (m db) k

abbrev pub ◌>>◌ : {B : Type 0} → M (Unit {0}) → M B → M B
m >> k = m >>= λ _. k

abbrev pub ran : Db → Db
ran db = record db { done = suc db.done }

-- A statement that reads.
unfoldable pub query : {A : Type 0} → (Tables → A) → M A
query f db = if db.faults db.done then (err fault, ran db) else (ok (f db.tables), ran db)

abbrev pub stored : Db → Result Tables → Result (Unit {0}) × Db
stored db (ok t) = (ok tt, record db { tables = t; done = suc db.done })
stored db (err e) = (err e, ran db)

-- A statement that writes, unless a constraint of the schema refuses it.
unfoldable pub exec_checked : (Tables → Result Tables) → M (Unit {0})
exec_checked f db = if db.faults db.done then (err fault, ran db) else stored db (f db.tables)

unfoldable pub exec : (Tables → Tables) → M (Unit {0})
exec f db =
    if db.faults db.done
    then (err fault, ran db)
    else (ok tt, record db { tables = f db.tables; done = suc db.done })

abbrev pub rolled_back : {A : Type 0} → Tables → Result A × Db → Result A × Db
rolled_back t (ok a, db) = (ok a, db)
rolled_back t (err e, db) = (err e, record db { tables = t })

abbrev pub committed : {A : Type 0} → Result A × Db → Result A × Db
committed r = after r (λ a. query (λ _. a))

-- `Begin`, a body, `Commit`, and the deferred `Rollback` where any of them fails.
unfoldable pub transaction : {A : Type 0} → M A → M A
unfolding query
transaction m db = rolled_back db.tables (after (query (λ _. tt) db) (λ _ db'. committed (m db')))

-- A database whose statements all succeed.
abbrev pub Healthy : Db → Type 0
Healthy db = (n : ℕ) → db.faults n ≡ false
