-- ===== src/Monitor/Client.antt =====
-- monitor/internal/hubclient/hubclient.go: the monitor's end of the stream of management events.
pub mod Backoff
use quake_mesh.Base.{
  ℕ, zero, ◌*◌, Bool, true, false, Option, none, some, List, [], ◌∷◌, ◌++◌, length, ltb, leb,
  nat_eq, if◌then◌else◌,
}
use quake_mesh.Base.Text.{Text, codes}
use quake_mesh.Base.Map.{insert, erase}
use quake_mesh.Storage.{NodeId, Millis, Float64}
use quake_mesh.Management.{
  ManagementEvent, node_status, hub_status, route, dtn_queue_depth, internet_fallback, app_presence,
  sos_alert, ban_proposal, ban_verdict,
}
use quake_mesh.Monitor.Feed.{Parsed}

-- `Event`, an object for the browser.
pub record Event : Type 0 where
  pub type : Text
  pub emitted_at : Millis
  pub node_id : Text
  pub hub_id : Text
  pub status : Text
  pub destination : Text
  pub next_hop : Text
  pub tq : Float64
  pub hop_count : ℕ
  pub dtn_depth : ℕ
  pub enabled : Bool
  pub app_id : Text
  pub app_version : Text
  pub version_range : Text
  pub agree : Bool
  pub topic : Text
  pub text : Text
  pub lat : Float64
  pub lon : Float64
  pub accuracy_m : Float64
  pub sent_at : Millis
  pub payload_json : Text

-- `node_string` is `nodeIDString` of the 32 bytes that a hub sends, `unmarshal` is `json.Unmarshal`
-- with `none` for an error, and `zero_float` and `zero_time` are the zero values.
pub record Library : Type 0 where
  pub node_string : NodeId → Text
  pub unmarshal : Text → Option Parsed
  pub zero_float : Float64
  pub zero_time : Millis

module _ (lib : Library) where
  -- An event with its type and time alone.
  abbrev pub plain : Text → Millis → Event
  plain type at = record {
    type = type;
    emitted_at = at;
    node_id = [];
    hub_id = [];
    status = [];
    destination = [];
    next_hop = [];
    tq = lib.zero_float;
    hop_count = 0;
    dtn_depth = 0;
    enabled = false;
    app_id = [];
    app_version = [];
    version_range = [];
    agree = false;
    topic = [];
    text = [];
    lat = lib.zero_float;
    lon = lib.zero_float;
    accuracy_m = lib.zero_float;
    sent_at = lib.zero_time;
    payload_json = [];
  }

  abbrev pub with_parsed : Option Parsed → Event → Event
  with_parsed none ev = ev
  with_parsed (some p) ev = record ev {
    text = p.text;
    lat = p.lat;
    lon = p.lon;
    accuracy_m = p.accuracy_m;
    sent_at = p.sent_at;
  }

  -- `translateEvent`, of the events that a hub publishes.
  unfoldable pub translate_event : ManagementEvent → Event
  translate_event m = elim m.event [
    | node_status id status ↦ record (plain (codes "node_status_changed") m.emitted_at) {
      node_id = lib.node_string id;
      status = status;
    }
    | hub_status id status ↦ record (plain (codes "hub_status_changed") m.emitted_at) {
      hub_id = lib.node_string id;
      status = status;
    }
    | route dst hop tq hops ↦ record (plain (codes "route_changed") m.emitted_at) {
      destination = lib.node_string dst;
      next_hop = lib.node_string hop;
      tq = tq;
      hop_count = hops;
    }
    | dtn_queue_depth depth ↦ record (plain (codes "dtn_queue_depth_changed") m.emitted_at) {
      dtn_depth = depth;
    }
    | internet_fallback enabled ↦ record (plain (codes "internet_fallback_changed") m.emitted_at) {
      enabled = enabled;
    }
    | app_presence id app version ↦ record (plain (codes "app_presence_changed") m.emitted_at) {
      node_id = lib.node_string id;
      app_id = app;
      app_version = version;
    }
    | sos_alert id app topic payload ↦
        with_parsed (lib.unmarshal payload)
          (record (plain (codes "sos_alert_published") m.emitted_at) {
            node_id = lib.node_string id;
            app_id = app;
            topic = topic;
            payload_json = payload;
          })
    | ban_proposal ban app range ↦ record (plain (codes "ban_proposal_changed") m.emitted_at) {
      app_id = app;
      version_range = range;
    }
    | ban_verdict ban hub agree ↦ record (plain (codes "ban_verdict_changed") m.emitted_at) {
      hub_id = lib.node_string hub;
      agree = agree;
    }
  ]

-- A listener's channel, by its number, with its capacity and what waits in it.
pub record Listener : Type 0 where
  pub capacity : ℕ
  pub waiting : List Event

pub record Client : Type 0 where
  pub listeners : List (ℕ × Listener)

unfoldable pub subscribe : ℕ → ℕ → Client → Client
subscribe ch capacity c = record c {
  listeners = insert ch (record { capacity = capacity; waiting = [] }) c.listeners;
}

unfoldable pub unsubscribe : ℕ → Client → Client
unsubscribe ch c = record c { listeners = erase ch c.listeners }

abbrev pub send_to : Event → Listener → Listener
send_to ev l =
    if ltb (length l.waiting) l.capacity then record l { waiting = l.waiting ++ ev ∷ [] } else l

unfoldable pub send_all : Event → List (ℕ × Listener) → List (ℕ × Listener)
send_all ev [] = []
send_all ev (entry ∷ rest) = (entry.0, send_to ev entry.1) ∷ send_all ev rest

unfoldable pub broadcast : Event → Client → Client
unfolding send_all
broadcast ev c = record c { listeners = send_all ev c.listeners }

-- What the connection reads: a message that is not binary or does not parse, or an event.
unfoldable pub read_message : Library → Option ManagementEvent → Client → Client
unfolding broadcast translate_event
read_message lib none c = c
read_message lib (some m) c = broadcast (translate_event lib m) c

-- One round of `Run`: `runOnce` reads some messages, and ends with an error, since it only returns
-- without one when the client is stopped; then the loop waits.
unfoldable pub run_once : Library → List (Option ManagementEvent) → Client → Client
unfolding read_message
run_once lib [] c = c
run_once lib (m ∷ messages) c = run_once lib messages (read_message lib m c)

-- Waits are in seconds.
abbrev pub next_backoff : ℕ → ℕ
next_backoff b = if ltb b 30 then b * 2 else b

-- `Run`, over what each connection reads until it fails: the waits after them, and the client.
unfoldable pub run_from :
    Library → ℕ → List (List (Option ManagementEvent)) → Client → List ℕ × Client
unfolding run_once
run_from lib backoff [] c = ([], c)
run_from lib backoff (messages ∷ rounds) c =
    let rest = run_from lib (next_backoff backoff) rounds (run_once lib messages c) in
    (backoff ∷ rest.0, rest.1)

unfoldable pub run : Library → List (List (Option ManagementEvent)) → Client → List ℕ × Client
unfolding run_from
run lib rounds c = run_from lib 1 rounds c
