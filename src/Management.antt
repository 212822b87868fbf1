-- ===== src/Management.antt =====
-- hub/internal/managementapi/managementapi.go: events for the monitors that are connected. Protobuf is
-- a parameter.
pub mod Delivery
use quake_mesh.Base.{
  ℕ, ◌%◌, ◌^◌, Bool, Option, none, some, List, [], ◌∷◌, ◌++◌, length, ltb, nat_eq, if◌then◌else◌,
}
use quake_mesh.Base.Text.{Text}
use quake_mesh.Base.Map.{insert, erase}
use quake_mesh.Storage.{NodeId, BanId, Millis, Float64, Route}

pub data Event : Type 0 where
  node_status : NodeId → Text → Event
  hub_status : NodeId → Text → Event
  route : NodeId → NodeId → Float64 → ℕ → Event
  dtn_queue_depth : ℕ → Event
  internet_fallback : Bool → Event
  app_presence : NodeId → Text → Text → Event
  sos_alert : NodeId → Text → Text → Text → Event
  ban_proposal : BanId → Text → Text → Event
  ban_verdict : BanId → NodeId → Bool → Event

pub record ManagementEvent : Type 0 where
  pub emitted_at : Millis
  pub event : Event

-- The number of a client's channel.
abbrev pub Client : Type 0
Client = ℕ

-- What waits for each connected client.
pub record Server : Type 0 where
  pub clients : List (Client × List Text)

unfoldable pub new : Server
new = record { clients = [] }

-- `make(chan []byte, 32)`.
abbrev pub client_capacity : ℕ
client_capacity = 32

unfoldable pub add_client : Client → Server → Server
add_client c s = record s { clients = insert c [] s.clients }

unfoldable pub remove_client : Client → Server → Server
remove_client c s = record s { clients = erase c s.clients }

-- What is added to the queue of a client, if there is room.
abbrev pub push : Text → List Text → List Text
push payload q = if ltb (length q) client_capacity then q ++ payload ∷ [] else q

unfoldable pub push_all : Text → List (Client × List Text) → List (Client × List Text)
push_all payload [] = []
push_all payload (entry ∷ rest) = (entry.0, push payload entry.1) ∷ push_all payload rest

abbrev pub publish_payload : Option Text → Server → Server
publish_payload none s = s
publish_payload (some payload) s = record s { clients = push_all payload s.clients }

-- `marshal` is `proto.Marshal`, with `none` for an error; `now` is the time of the event.
module _ (marshal : ManagementEvent → Option Text) (now : Millis) where
  unfoldable pub publish : ManagementEvent → Server → Server
  unfolding push_all
  publish e s = publish_payload (marshal e) s

  abbrev pub emit : Event → Server → Server
  emit e = publish (record { emitted_at = now; event = e })

  unfoldable pub node_status_changed : NodeId → Text → Server → Server
  node_status_changed id status = emit (node_status id status)

  unfoldable pub hub_status_changed : NodeId → Text → Server → Server
  hub_status_changed id status = emit (hub_status id status)

  -- `uint32` of the number of hops.
  unfoldable pub route_changed : Route → Server → Server
  route_changed r = emit (route r.destination r.next_hop r.tq (r.hop_count % 2 ^ 32))

  unfoldable pub dtn_queue_depth_changed : ℕ → Server → Server
  dtn_queue_depth_changed depth = emit (dtn_queue_depth (depth % 2 ^ 32))

  unfoldable pub internet_fallback_changed : Bool → Server → Server
  internet_fallback_changed enabled = emit (internet_fallback enabled)

  unfoldable pub app_presence_changed : NodeId → Text → Text → Server → Server
  app_presence_changed id app version = emit (app_presence id app version)

  unfoldable pub sos_alert_published : NodeId → Text → Text → Text → Server → Server
  sos_alert_published id app topic payload = emit (sos_alert id app topic payload)

  unfoldable pub ban_proposal_changed : BanId → Text → Text → Server → Server
  ban_proposal_changed ban app range = emit (ban_proposal ban app range)

  unfoldable pub ban_verdict_changed : BanId → NodeId → Bool → Server → Server
  ban_verdict_changed ban hub agree = emit (ban_verdict ban hub agree)
