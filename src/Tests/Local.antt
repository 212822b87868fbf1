-- ===== src/Tests/Local.antt =====
-- The theorems on the daemon of local apps at concrete inputs.
use quake_mesh.Base.{◌≡◌, ◌≢◌, refl, true, false, some, none, [], ◌∷◌, any, if◌then◌else◌, List}
use quake_mesh.Base.Text.{codes, text_eq, text_beq, has_suffix, trim_space}
use quake_mesh.Base.Map.{lookup}
use quake_mesh.Base.Rows.{select_first}
use quake_mesh.Storage.{Tables, empty_tables}
use quake_mesh.Bans.{version_in_range}
use quake_mesh.Bans.Enforcement.{enforces}
use quake_mesh.Dtn.Engine
use quake_mesh.Daemon.{
  Codec, Config, Request, Server, Session, accepted, failure, forbidden, get, no_content, post,
  registered, session_from_request, token_of, with_db,
}
use quake_mesh.Daemon.Apps.{
  RegisterBody, admit, handle_register, open_session, register_app, session_for,
}
use quake_mesh.Daemon.Mail.{deliver_local, handle_receive, inbox_of}
use quake_mesh.Daemon.Topics.{
  PublishBody, Waiting, buffer_of, end_subscribe, handle_publish, open_channel, subscribers,
  timed_out, unsubscribe,
}
use quake_mesh.Daemon.Calls.{Call, delivers, receives, serve}
use quake_mesh.Daemon.Access.{
  fits, refusal, handle_register_banned, serve_unauthorized, session_from_request-handle_register,
}
use quake_mesh.Daemon.Channels.{
  end_subscribe-forgets, fill, handle_publish-buffers, handle_receive-deliver_local_empty, uses,
}
use quake_mesh.Tests.Data.{database, database-Healthy}

abbrev codec : Codec
codec = record {
  decode_base64 = λ t. some t;
  encode_base64 = λ t. t;
  decode_hex = λ t. none;
  node_string = λ n. n ∷ [];
}

abbrev config : Config
config = record {
  self_id = 4;
  local_hub = 4;
  has_apps = false;
  has_bans = true;
  has_sender = true;
  has_notifier = true;
}

abbrev hub_four : Engine.Config
hub_four = record { self_id = 4; ttl = 20; has_handler = true; delivers = none }

-- Hub 4 agreed to a ban of all versions of chat.
abbrev banned : Tables
banned = record empty_tables {
  ban_list =
      record {
        ban_id = 11;
        app_id = codes "chat";
        version_range = codes "*";
        reason = [];
        proposed_by = 4;
        proposed_at = 100;
        signature = some [];
      }
      ∷ [];
  ban_verdicts = record { ban_id = 11; hub_id = 4; agree = true; decided_at = 110 } ∷ [];
}

abbrev session : Session
session = record {
  token = codes "t1";
  node_id = 4;
  app_id = codes "maps";
  app_name = codes "Maps";
  app_version = codes "2";
}

-- A daemon with one session, which subscribes to the topic `sos` over channel 0.
abbrev daemon : Server
daemon = record {
  dtn = record { last_depth = none; db = database banned; out = [] };
  sessions = (codes "t1", session) ∷ [];
  inbox = [];
  topics = (codes "sos", (codes "t1", 0) ∷ []) ∷ [];
  buffers = (0, []) ∷ [];
  next_channel = 1;
  notices = [];
}

abbrev asks : Request
asks = record { method = get; header_session = codes "t1"; query_session = [] }

abbrev posts : Request
posts = record { method = post; header_session = codes "t1"; query_session = [] }

abbrev stranger : Request
stranger = record { method = get; header_session = []; query_session = codes "t2" }

abbrev chat : RegisterBody
chat = record { app_id = codes "chat"; app_name = codes "Chat"; app_version = codes "1" }

abbrev maps : RegisterBody
maps = record { app_id = codes "maps"; app_name = codes "Maps"; app_version = codes "2" }

unknown : session_from_request stranger daemon ≡ none
unfolding session_from_request lookup text_beq
unknown = refl

known : session_from_request asks daemon ≡ some session
unfolding session_from_request lookup text_beq
known = refl

known_post : session_from_request posts daemon ≡ some session
unfolding session_from_request lookup text_beq
known_post = refl

serve_unauthorized_example :
    serve codec config hub_four (receives stranger) daemon
    ≡ (some (refusal (fits (receives stranger))), daemon)
serve_unauthorized_example =
    serve_unauthorized codec config hub_four (receives stranger) stranger daemon refl unknown

named : text_beq (codes "chat") [] ≡ false
unfolding text_beq
named = refl

covered : any (enforces 4 (codes "chat") (codes "1") banned) banned.ban_list ≡ true
unfolding text_beq version_in_range select_first trim_space has_suffix
covered = refl

handle_register_banned_example :
    let r = handle_register codec config 200 (some (codes "t2")) posts (some chat) daemon in
    (r.0 ≡ failure forbidden) × (r.1 ≡ with_db daemon r.1.dtn.db) × (r.1.dtn.db.tables ≡ banned)
handle_register_banned_example =
    handle_register_banned codec config 200 (some (codes "t2")) posts chat daemon
      (database-Healthy banned) refl refl named covered

abbrev lax : Config
lax = record config { has_bans = false }

taken_in :
    (handle_register codec lax 200 (some (codes "t2")) posts (some maps) daemon).0
    ≡ registered (codes "t2") (4 ∷ [])
unfolding handle_register register_app text_beq admit open_session
taken_in = refl

not_empty : codes "t2" ≢ []
not_empty h = cc

session_from_request-handle_register_example :
    session_from_request stranger
      (handle_register codec lax 200 (some (codes "t2")) posts (some maps) daemon).1
    ≡ (if text_beq (codes "t2") (token_of stranger)
        then some (session_for codec lax maps (codes "t2"))
        else session_from_request stranger daemon)
session_from_request-handle_register_example =
    session_from_request-handle_register codec lax 200 (some (codes "t2")) posts stranger maps
      daemon (codes "t2") (4 ∷ []) taken_in not_empty

abbrev mail : List Call
mail = delivers 5 4 (codes "a") ∷ delivers 6 4 (codes "b") ∷ receives asks ∷ []

abbrev alarm : PublishBody
alarm = record { topic = codes "sos"; payload_b64 = codes "help" }

topical : text_beq (codes "sos") [] ≡ false
unfolding text_beq
topical = refl

handle_publish-buffers_example :
    ((handle_publish codec config posts (some alarm) daemon).0 ≡ accepted)
    × (buffer_of 0 (handle_publish codec config posts (some alarm) daemon).1
        ≡ fill (uses 0 (subscribers (codes "sos") daemon)) (codes "help") (buffer_of 0 daemon))
handle_publish-buffers_example =
    handle_publish-buffers codec config posts session alarm (codes "help") daemon 0 refl known_post
      topical refl

-- The subscription over channel 0, while the session has subscribed once more.
abbrev first_wait : Waiting
first_wait = record { session = session; topic = codes "sos"; channel = 0 }

abbrev resubscribed : Server
resubscribed = open_channel session (codes "sos") daemon

first_ends :
    end_subscribe codec first_wait timed_out resubscribed
    ≡ some (no_content, unsubscribe first_wait resubscribed)
unfolding end_subscribe
first_ends = refl

end_subscribe-forgets_example :
    lookup (codes "t1") (subscribers (codes "sos") (unsubscribe first_wait resubscribed)) ≡ none
end_subscribe-forgets_example =
    end_subscribe-forgets codec first_wait timed_out resubscribed
      (unsubscribe first_wait resubscribed) no_content first_ends

empty_at_first : inbox_of 4 daemon ≡ []
unfolding lookup
empty_at_first = refl

handle_receive-deliver_local_empty_example :
    let s' = (deliver_local config 5 4 [] daemon).1 in
    (inbox_of 4 s' ≡ none ∷ [])
    × ((handle_receive codec asks s').0 ≡ no_content)
    × (inbox_of 4 (handle_receive codec asks s').1 ≡ [])
handle_receive-deliver_local_empty_example =
    handle_receive-deliver_local_empty codec config asks session 5 daemon refl known refl
      empty_at_first
