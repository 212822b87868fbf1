-- ===== src/Daemon/Mail.antt =====
-- The daemon's handlers for payloads from node to node: sending, delivery and the inbox.
use quake_mesh.Base.{
  ℕ, Bool, true, false, Option, none, some, List, [], ◌∷◌, ◌++◌, nat_eq, nat_beq, ◌==◌,
  if◌then◌else◌,
}
use quake_mesh.Base.Text.{Text, Bytes, text_eq, copy_into}
use quake_mesh.Base.Map.{lookup, insert}
use quake_mesh.Storage.{NodeId, Millis, Result, ok, err}
use quake_mesh.Dtn.Engine
use quake_mesh.Daemon.{
  Codec, Config, Session, Server, Request, Response, failure, accepted, payload_of, no_content,
  method_not_allowed, unauthorized, bad_request, internal_server_error, service_unavailable,
  session_from_request, is_get, is_post,
}

-- `append([]byte(nil), payload...)`, which is nil where there is nothing to append.
abbrev pub copied : Text → Option Text
copied [] = none
copied (c ∷ t) = some (c ∷ t)

abbrev pub queue_of : Option (List (Option Text)) → List (Option Text)
queue_of none = []
queue_of (some q) = q

-- `s.inbox[id]`.
abbrev pub inbox_of : NodeId → Server → List (Option Text)
inbox_of id s = queue_of (lookup id s.inbox)

pub record SendBody : Type 0 where
  pub dest_node_id : Text
  pub payload_b64 : Text

module _ (cfg : Config) where
  -- `DeliverLocal`: whether it takes the payload.
  unfoldable pub deliver_local : NodeId → NodeId → Text → Server → Bool × Server
  deliver_local src dst payload s =
      if dst == cfg.self_id
      then (true, record s { inbox = insert dst (inbox_of dst s ++ copied payload ∷ []) s.inbox })
      else (false, s)

module _ (codec : Codec) (cfg : Config) (dtn : Engine.Config) where
  unfoldable pub enqueued : Server → Result (Unit {0}) × Engine.Engine → Response × Server
  enqueued s (err e, d) = (failure internal_server_error, record s { dtn = d })
  enqueued s (ok u, d) = (accepted, record s { dtn = d })

  unfoldable pub send_to : Millis → ℕ → Session → Text → Option Bytes → Server → Response × Server
  unfolding enqueued
  send_to now id sess payload none s = (failure bad_request, s)
  send_to now id sess payload (some b) s =
      if nat_beq b.size 32
      then (if cfg.has_sender
          then enqueued s (Engine.enqueue dtn now id sess.node_id (copy_into 32 b) payload s.dtn)
          else (failure service_unavailable, s))
      else (failure bad_request, s)

  abbrev pub decoded_payload : Option Text → Server → (Text → Response × Server) → Response × Server
  decoded_payload none s k = (failure bad_request, s)
  decoded_payload (some payload) s k = k payload

  unfoldable pub send_body : Millis → ℕ → Session → Option SendBody → Server → Response × Server
  unfolding send_to
  send_body now id sess none s = (failure bad_request, s)
  send_body now id sess (some body) s =
      if body.dest_node_id == []
      then (failure bad_request, s)
      else decoded_payload (codec.decode_base64 body.payload_b64) s
          (λ payload. send_to now id sess payload (codec.decode_hex body.dest_node_id) s)

  unfoldable pub send : Millis → ℕ → Option Session → Option SendBody → Server → Response × Server
  unfolding send_body
  send now id none body s = (failure unauthorized, s)
  send now id (some sess) body s = send_body now id sess body s

  -- `id` is the number of the bundle, should one be made.
  unfoldable pub handle_send : Millis → ℕ → Request → Option SendBody → Server → Response × Server
  unfolding send
  handle_send now id r body s =
      if is_post r.method
      then send now id (session_from_request r s) body s
      else (failure method_not_allowed, s)

module _ (codec : Codec) where
  -- What is answered for the payload taken: a nil one counts as none.
  abbrev pub answer : Option Text → Response
  answer none = no_content
  answer (some payload) = payload_of (codec.encode_base64 payload)

  unfoldable pub take_first : NodeId → List (Option Text) → Server → Response × Server
  take_first id [] s = (no_content, s)
  take_first id (payload ∷ rest) s = (answer payload, record s { inbox = insert id rest s.inbox })

  unfoldable pub receive : Option Session → Server → Response × Server
  unfolding take_first
  receive none s = (failure unauthorized, s)
  receive (some sess) s = take_first sess.node_id (inbox_of sess.node_id s) s

  unfoldable pub handle_receive : Request → Server → Response × Server
  unfolding receive
  handle_receive r s =
      if is_get r.method
      then receive (session_from_request r s) s
      else (failure method_not_allowed, s)
