-- ===== src/Sync/Wire.antt =====
-- hub/internal/syncengine/syncengine.go: configuration, messages (core/wire), state and outputs.
use quake_mesh.Base.{ℕ, Bool, Option, List, nat_eq}
use quake_mesh.Base.Text.{Text, Bytes, text_eq}
use quake_mesh.Storage.{NodeId, BanId, Millis, Float64, Db}

-- The records of core/wire that a `HubSyncMessage` carries. An unset position is two zeros.
pub record NodeRecord : Type 0 where
  pub node_id : Bytes
  pub first_seen : Millis
  pub last_seen : Millis
  pub status : Text
  pub last_lat : Float64
  pub last_lon : Float64

pub record RelayRecord : Type 0 where
  pub hub_id : Bytes
  pub ip : Text
  pub port : ℕ
  pub source : Text
  pub last_verified : Millis

pub record PresenceRecord : Type 0 where
  pub node_id : Bytes
  pub app_id : Text
  pub app_name : Text
  pub app_version : Text
  pub last_reported : Millis

pub record BanRecord : Type 0 where
  pub ban_id : Bytes
  pub app_id : Text
  pub version_range : Text
  pub reason : Text
  pub proposed_by : Bytes
  pub proposed_at : Millis
  pub signature : Option Text

pub record VerdictRecord : Type 0 where
  pub ban_id : Bytes
  pub hub_id : Bytes
  pub agree : Bool
  pub decided_at : Millis

pub record Message : Type 0 where
  pub from_hub : Bytes
  pub node_records : List NodeRecord
  pub relay_hubs : List RelayRecord
  pub app_presence : List PresenceRecord
  pub ban_proposals : List BanRecord
  pub ban_verdicts : List VerdictRecord

-- `has_apps` and `has_bans` say whether the two stores are set, `notifies` whether `BanNotify` is.
pub record Config : Type 0 where
  pub self_id : NodeId
  pub local_hub : NodeId
  pub has_apps : Bool
  pub has_bans : Bool
  pub notifies : Bool

pub data Output : Type 0 where
  ban_proposal_changed : BanId → Text → Text → Output
  ban_verdict_changed : BanId → NodeId → Bool → Output

pub record Engine : Type 0 where
  pub db : Db
  pub out : List Output

abbrev pub id_size : ℕ
id_size = 32

abbrev pub ban_size : ℕ
ban_size = 16
