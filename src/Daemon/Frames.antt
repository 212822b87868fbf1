-- ===== src/Daemon/Frames.antt =====
-- Which parts of the server's state a call can change.
use quake_mesh.Base.{
  ◌≡◌, refl, ℕ, Bool, true, false, Option, none, some, List, [], ◌∷◌, if_elim, ◌==◌, nat_beq, ltb,
  length, ◌&&◌, ◌∙◌, ap, ◌++◌,
}
use quake_mesh.Base.Text.{Text, Bytes, text_eq, copy_into}
use quake_mesh.Base.Map.{insert}
use quake_mesh.Storage.{NodeId, Millis, Db, Result, ok, err}
use quake_mesh.Apps
use quake_mesh.Bans.{is_locally_enforced}
use quake_mesh.Dtn.Engine
use quake_mesh.Daemon.{
  Codec, Config, Channel, Session, Server, Notice, notify, with_db, Request, Response, is_get,
  is_post, session_from_request, registered, app_presence_changed, sos_alert_published,
}
use quake_mesh.Daemon.Apps.{
  RegisterBody, handle_register, register_app, ban_checked, admit, presence_stored, presence_of,
  session_for, open_session, handle_discover_peers, discover, peers_found,
}
use quake_mesh.Daemon.Mail.{
  SendBody, handle_send, send, send_body, send_to, enqueued, decoded_payload,
}
use quake_mesh.Daemon.Topics.{
  PublishBody, handle_publish, publish, publish_body, publish_payload, broadcast_topic, offer,
  offer_all, subscribers, buffer_of, channel_capacity, sos,
}

-- The database and the sender.
abbrev pub OnDtn : {A : Type 0} → Server → A × Server → Type 0
OnDtn s r = r.1 ≡ record s { dtn = r.1.dtn }

-- The database, sessions and notices.
abbrev pub OnSessions : {A : Type 0} → Server → A × Server → Type 0
OnSessions s r = r.1 ≡ record s { dtn = r.1.dtn; sessions = r.1.sessions; notices = r.1.notices }

-- What waits in channels, and notices.
abbrev pub OnBuffers : Server → Server → Type 0
OnBuffers s s' = s' ≡ record s { buffers = s'.buffers; notices = s'.notices }

notify-OnSessions :
    (b : Bool) (n : Notice) (m : List (Text × Session)) (x : Response) (s : Server)
    → OnSessions s (x, notify b n (record s { sessions = m }))
notify-OnSessions true n m x s = refl
notify-OnSessions false n m x s = refl

module _ (codec : Codec) (cfg : Config) (body : RegisterBody) where
  open_session-OnSessions :
      (token : Text) (s : Server) → OnSessions s (open_session codec cfg body token s)
  unfolding open_session
  open_session-OnSessions token s =
      notify-OnSessions cfg.has_notifier
        (app_presence_changed cfg.self_id body.app_id body.app_version)
        (insert token (session_for codec cfg body token) s.sessions)
        (registered token (codec.node_string cfg.self_id)) s

  presence_stored-OnSessions :
      (token : Text) (s : Server) (r : Result (Unit {0}) × Db)
      → OnSessions s (presence_stored codec cfg body token s r)
  unfolding presence_stored
  presence_stored-OnSessions token s (err e, db) = refl
  presence_stored-OnSessions token s (ok u, db) = open_session-OnSessions token (with_db s db)

  admit-OnSessions :
      (now : Millis) (token : Option Text) (s : Server)
      → OnSessions s (admit codec cfg body now token s)
  unfolding admit
  admit-OnSessions now none s = refl
  admit-OnSessions now (some token) s =
      if_elim (OnSessions s) cfg.has_apps
        (presence_stored-OnSessions token s (Apps.upsert (presence_of codec cfg body now) s.dtn.db))
        (open_session-OnSessions token s)

  ban_checked-OnSessions :
      (now : Millis) (token : Option Text) (s : Server) (r : Result Bool × Db)
      → OnSessions s (ban_checked codec cfg body now token s r)
  unfolding ban_checked
  ban_checked-OnSessions now token s (err e, db) = refl
  ban_checked-OnSessions now token s (ok true, db) = refl
  ban_checked-OnSessions now token s (ok false, db) = admit-OnSessions now token (with_db s db)

register_app-OnSessions :
    (codec : Codec) (cfg : Config) (now : Millis) (token : Option Text) (body : Option RegisterBody)
    (s : Server)
    → OnSessions s (register_app codec cfg now token body s)
unfolding register_app
register_app-OnSessions codec cfg now token none s = refl
register_app-OnSessions codec cfg now token (some body) s =
    if_elim (OnSessions s) (body.app_id == []) refl (
      if_elim (OnSessions s) cfg.has_bans
        (ban_checked-OnSessions codec cfg body now token s
          (is_locally_enforced cfg.local_hub body.app_id body.app_version s.dtn.db))
        (admit-OnSessions codec cfg body now token s))

pub handle_register-OnSessions :
    (codec : Codec) (cfg : Config) (now : Millis) (token : Option Text) (r : Request)
    (body : Option RegisterBody) (s : Server)
    → OnSessions s (handle_register codec cfg now token r body s)
unfolding handle_register
handle_register-OnSessions codec cfg now token r body s =
    if_elim (OnSessions s) (is_post r.method) (register_app-OnSessions codec cfg now token body s)
      refl

peers_found-OnDtn :
    (codec : Codec) (cfg : Config) (app : Text) (s : Server) (r : Result (List NodeId) × Db)
    → OnDtn s (peers_found codec cfg app s r)
unfolding peers_found
peers_found-OnDtn codec cfg app s (err e, db) = refl
peers_found-OnDtn codec cfg app s (ok peers, db) = refl

discover-OnDtn :
    (codec : Codec) (cfg : Config) (app constraint : Text) (o : Option Session) (s : Server)
    → OnDtn s (discover codec cfg app constraint o s)
unfolding discover
discover-OnDtn codec cfg app constraint none s = refl
discover-OnDtn codec cfg app constraint (some sess) s = if_elim (OnDtn s) (app == []) refl (
    if_elim (OnDtn s) cfg.has_apps
      (peers_found-OnDtn codec cfg app s (Apps.discover_peers app constraint s.dtn.db)) refl)

pub handle_discover_peers-OnDtn :
    (codec : Codec) (cfg : Config) (r : Request) (app constraint : Text) (s : Server)
    → OnDtn s (handle_discover_peers codec cfg r app constraint s)
unfolding handle_discover_peers
handle_discover_peers-OnDtn codec cfg r app constraint s =
    if_elim (OnDtn s) (is_get r.method)
      (discover-OnDtn codec cfg app constraint (session_from_request r s) s) refl

module _ (codec : Codec) (cfg : Config) (dtn : Engine.Config) (now : Millis) (id : ℕ) where
  enqueued-OnDtn :
      (s : Server) (r : Result (Unit {0}) × Engine.Engine) → OnDtn s (enqueued codec cfg dtn s r)
  unfolding enqueued
  enqueued-OnDtn s (err e, d) = refl
  enqueued-OnDtn s (ok u, d) = refl

  send_to-OnDtn :
      (sess : Session) (payload : Text) (dest : Option Bytes) (s : Server)
      → OnDtn s (send_to codec cfg dtn now id sess payload dest s)
  unfolding send_to
  send_to-OnDtn sess payload none s = refl
  send_to-OnDtn sess payload (some b) s =
      if_elim (OnDtn s) (nat_beq b.size 32)
        (if_elim (OnDtn s) cfg.has_sender
          (enqueued-OnDtn s (Engine.enqueue dtn now id sess.node_id (copy_into 32 b) payload s.dtn))
          refl)
        refl

  decoded_payload-OnDtn :
      (o : Option Text) (s : Server) (k : Text → Response × Server)
      → ((payload : Text) → OnDtn s (k payload))
      → OnDtn s (decoded_payload codec cfg dtn o s k)
  decoded_payload-OnDtn none s k each = refl
  decoded_payload-OnDtn (some payload) s k each = each payload

  send-OnDtn :
      (o : Option Session) (body : Option SendBody) (s : Server)
      → OnDtn s (send codec cfg dtn now id o body s)
  unfolding send send_body
  send-OnDtn none body s = refl
  send-OnDtn (some sess) none s = refl
  send-OnDtn (some sess) (some body) s = if_elim (OnDtn s) (body.dest_node_id == []) refl (
      decoded_payload-OnDtn (codec.decode_base64 body.payload_b64) s
        (λ payload.
          send_to codec cfg dtn now id sess payload (codec.decode_hex body.dest_node_id) s)
        (λ payload. send_to-OnDtn sess payload (codec.decode_hex body.dest_node_id) s))

  pub handle_send-OnDtn :
      (r : Request) (body : Option SendBody) (s : Server)
      → OnDtn s (handle_send codec cfg dtn now id r body s)
  unfolding handle_send
  handle_send-OnDtn r body s =
      if_elim (OnDtn s) (is_post r.method) (send-OnDtn (session_from_request r s) body s) refl

offer-OnBuffers : (payload : Text) (ch : Channel) (s : Server) → OnBuffers s (offer payload ch s)
unfolding offer
offer-OnBuffers payload ch s =
    if_elim (OnBuffers s) (ltb (length (buffer_of ch s)) channel_capacity) refl refl

offer_all-OnBuffers :
    (payload : Text) (subs : List (Text × Channel)) (s : Server)
    → OnBuffers s (offer_all payload subs s)
unfolding offer_all
offer_all-OnBuffers payload [] s = refl
offer_all-OnBuffers payload (entry ∷ rest) s =
    offer_all-OnBuffers payload rest (offer payload entry.1 s)
    ∙ ap
        (λ (t : Server). record t {
          buffers = (offer_all payload rest (offer payload entry.1 s)).buffers;
          notices = (offer_all payload rest (offer payload entry.1 s)).notices;
        })
        (offer-OnBuffers payload entry.1 s)

notify-OnBuffers :
    (b : Bool) (n : Notice) (s s' : Server) → OnBuffers s s' → OnBuffers s (notify b n s')
notify-OnBuffers false n s s' same = same
notify-OnBuffers true n s s' same =
    ap (λ (t : Server). record t { notices = s'.notices ++ n ∷ [] }) same

module _ (codec : Codec) (cfg : Config) where
  publish_payload-OnBuffers :
      (sess : Session) (topic : Text) (o : Option Text) (s : Server)
      → OnBuffers s (publish_payload codec cfg sess topic o s).1
  unfolding publish_payload broadcast_topic
  publish_payload-OnBuffers sess topic none s = refl
  publish_payload-OnBuffers sess topic (some payload) s =
      notify-OnBuffers (cfg.has_notifier && (topic == sos))
        (sos_alert_published sess.node_id sess.app_id topic payload) s
        (offer_all payload (subscribers topic s) s)
        (offer_all-OnBuffers payload (subscribers topic s) s)

  publish-OnBuffers :
      (o : Option Session) (body : Option PublishBody) (s : Server)
      → OnBuffers s (publish codec cfg o body s).1
  unfolding publish publish_body
  publish-OnBuffers none body s = refl
  publish-OnBuffers (some sess) none s = refl
  publish-OnBuffers (some sess) (some body) s =
      if_elim (λ (x : Response × Server). OnBuffers s x.1) (body.topic == []) refl
        (publish_payload-OnBuffers sess body.topic (codec.decode_base64 body.payload_b64) s)

  pub handle_publish-OnBuffers :
      (r : Request) (body : Option PublishBody) (s : Server)
      → OnBuffers s (handle_publish codec cfg r body s).1
  unfolding handle_publish
  handle_publish-OnBuffers r body s =
      if_elim (λ (x : Response × Server). OnBuffers s x.1) (is_post r.method)
        (publish-OnBuffers (session_from_request r s) body s) refl
