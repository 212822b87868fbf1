-- ===== src/Daemon/Topics.antt =====
-- The daemon's handlers for topics. A subscription waits in the middle, so that it is two calls: one
-- that opens its channel, and one that ends with what it waited for.
use quake_mesh.Base.{
  ℕ, suc, Option, none, some, List, [], ◌∷◌, ◌++◌, length, nat_eq, ltb, ◌&&◌, ◌==◌, if◌then◌else◌,
}
use quake_mesh.Base.Text.{Text, codes, text_eq}
use quake_mesh.Base.Map.{lookup, insert, erase}
use quake_mesh.Daemon.{
  Codec, Config, Channel, Session, Server, notify, sos_alert_published, Request, Response, failure,
  accepted, payload_of, no_content, nothing_written, method_not_allowed, unauthorized, bad_request,
  session_from_request, is_get, is_post,
}

abbrev pub subscribers_of : Option (List (Text × Channel)) → List (Text × Channel)
subscribers_of none = []
subscribers_of (some m) = m

-- `s.topics[topic]`.
abbrev pub subscribers : Text → Server → List (Text × Channel)
subscribers topic s = subscribers_of (lookup topic s.topics)

abbrev pub buffered : Option (List Text) → List Text
buffered none = []
buffered (some q) = q

-- What waits in a channel.
abbrev pub buffer_of : Channel → Server → List Text
buffer_of ch s = buffered (lookup ch s.buffers)

-- `make(chan []byte, 8)`.
abbrev pub channel_capacity : ℕ
channel_capacity = 8

-- A send that gives up where the channel is full.
unfoldable pub offer : Text → Channel → Server → Server
offer payload ch s =
    if ltb (length (buffer_of ch s)) channel_capacity
    then record s { buffers = insert ch (buffer_of ch s ++ payload ∷ []) s.buffers }
    else s

unfoldable pub offer_all : Text → List (Text × Channel) → Server → Server
unfolding offer
offer_all payload [] s = s
offer_all payload (entry ∷ rest) s = offer_all payload rest (offer payload entry.1 s)

unfoldable pub broadcast_topic : Text → Text → Server → Server
unfolding offer_all
broadcast_topic topic payload s = offer_all payload (subscribers topic s) s

pub record PublishBody : Type 0 where
  pub topic : Text
  pub payload_b64 : Text

abbrev pub sos : Text
sos = codes "sos"

module _ (codec : Codec) (cfg : Config) where
  unfoldable pub publish_payload : Session → Text → Option Text → Server → Response × Server
  unfolding broadcast_topic
  publish_payload sess topic none s = (failure bad_request, s)
  publish_payload sess topic (some payload) s = (
    accepted,
    notify (cfg.has_notifier && (topic == sos))
        (sos_alert_published sess.node_id sess.app_id topic payload)
        (broadcast_topic topic payload s),
  )

  unfoldable pub publish_body : Session → Option PublishBody → Server → Response × Server
  unfolding publish_payload
  publish_body sess none s = (failure bad_request, s)
  publish_body sess (some body) s =
      if body.topic == []
      then (failure bad_request, s)
      else publish_payload sess body.topic (codec.decode_base64 body.payload_b64) s

  unfoldable pub publish : Option Session → Option PublishBody → Server → Response × Server
  unfolding publish_body
  publish none body s = (failure unauthorized, s)
  publish (some sess) body s = publish_body sess body s

  unfoldable pub handle_publish : Request → Option PublishBody → Server → Response × Server
  unfolding publish
  handle_publish r body s =
      if is_post r.method
      then publish (session_from_request r s) body s
      else (failure method_not_allowed, s)

-- A new channel in the place of the one that the session has for the topic, if any.
unfoldable pub open_channel : Session → Text → Server → Server
open_channel sess topic s = record s {
  topics = insert topic (insert sess.token s.next_channel (subscribers topic s)) s.topics;
  buffers = insert s.next_channel [] s.buffers;
  next_channel = suc s.next_channel;
}

-- A subscription that waits.
pub record Waiting : Type 0 where
  pub session : Session
  pub topic : Text
  pub channel : Channel

-- The start of `handleSubscribe`: a response, or the subscription that waits.
pub data Begun : Type 0 where
  answered : Response → Begun
  waits : Waiting → Begun

unfoldable pub subscribe : Option Session → Text → Server → Begun × Server
unfolding open_channel
subscribe none topic s = (answered (failure unauthorized), s)
subscribe (some sess) topic s = if topic == [] then (answered (failure bad_request), s) else (
  waits (record { session = sess; topic = topic; channel = s.next_channel }),
  open_channel sess topic s,
)

unfoldable pub begin_subscribe : Request → Text → Server → Begun × Server
unfolding subscribe
begin_subscribe r topic s =
    if is_get r.method
    then subscribe (session_from_request r s) topic s
    else (answered (failure method_not_allowed), s)

-- Which case of the `select` goes ahead, where a payload can only be taken from a channel that has
-- one.
pub data Wake : Type 0 where
  taken timed_out gone : Wake

-- The deferred function.
unfoldable pub unsubscribe : Waiting → Server → Server
unsubscribe w s = record s {
  topics = insert w.topic (erase w.session.token (subscribers w.topic s)) s.topics;
}

module _ (codec : Codec) where
  unfoldable pub take_payload : Waiting → List Text → Server → Option (Response × Server)
  unfolding unsubscribe
  take_payload w [] s = none
  take_payload w (payload ∷ rest) s = some (
    payload_of (codec.encode_base64 payload),
    unsubscribe w (record s { buffers = insert w.channel rest s.buffers }),
  )

  -- The end of `handleSubscribe`; `none` where that case cannot go ahead.
  unfoldable pub end_subscribe : Waiting → Wake → Server → Option (Response × Server)
  unfolding take_payload unsubscribe
  end_subscribe w taken s = take_payload w (buffer_of w.channel s) s
  end_subscribe w timed_out s = some (no_content, unsubscribe w s)
  end_subscribe w gone s = some (nothing_written, unsubscribe w s)
