-- ===== src/Daemon/Inbox.antt =====
-- The inbox of a node: every payload is handed out once, in the order of delivery.
use quake_mesh.Base.{
  ◌≡◌, Bool, true, false, ◌&&◌, Option, none, some, List, [], ◌∷◌, ◌++◌, map, nat_eq, ◌==◌,
  if◌then◌else◌,
}
use quake_mesh.Base.Text.{Text, text_eq}
use quake_mesh.Storage.{NodeId}
use quake_mesh.Dtn.Engine
use quake_mesh.Daemon.{
  Codec, Config, Session, Server, Request, Response, session_from_request, is_get,
}
use quake_mesh.Daemon.Mail.{answer, copied, inbox_of}
use quake_mesh.Daemon.Calls.{Call, serve, receives, delivers}

-- The request takes from the node's inbox: it is a GET of a session of that node, and there is a
-- payload to take.
abbrev pub is_of : NodeId → Option Session → Bool
is_of id none = false
is_of id (some sess) = sess.node_id == id

abbrev pub has_payload : List (Option Text) → Bool
has_payload [] = false
has_payload (p ∷ q) = true

abbrev pub takes : NodeId → Request → Server → Bool
takes id r s = is_get r.method && is_of id (session_from_request r s) && has_payload (inbox_of id s)

module _ (codec : Codec) (cfg : Config) (dtn : Engine.Config) (id : NodeId) where
  -- What is answered when a payload is handed out.
  abbrev pub hand_out : Option Text → Option Response
  hand_out p = some (answer codec p)

  -- What the inbox has yet to answer.
  abbrev pub waiting : Server → List (Option Response)
  waiting s = map hand_out (inbox_of id s)

  -- What a call adds to that: a payload that is delivered to the node, where it is the hub's own.
  abbrev pub due : Call → List (Option Response)
  due (delivers src dst payload) =
      if dst == cfg.self_id && dst == id then hand_out (copied payload) ∷ [] else []
  due c = []

  -- The response of a call that takes a payload.
  abbrev pub handed : Call → Server → List (Option Response)
  handed (receives r) s = if takes id r s then (serve codec cfg dtn (receives r) s).0 ∷ [] else []
  handed c s = []

  unfoldable pub due_all : List Call → List (Option Response)
  due_all [] = []
  due_all (c ∷ calls) = due c ++ due_all calls

  unfoldable pub handed_all : List Call → Server → List (Option Response)
  handed_all [] s = []
  handed_all (c ∷ calls) s = handed c s ++ handed_all calls (serve codec cfg dtn c s).1

  unfoldable Kept : Call → Server → Type 0
  Kept c s = waiting s ++ due c ≡ handed c s ++ waiting (serve codec cfg dtn c s).1

  abbrev step : Call → Server → Server
  step c s = (serve codec cfg dtn c s).1
