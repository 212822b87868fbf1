-- ===== src/Daemon/Calls.antt =====
-- The calls of the daemon, from apps and from the engine that delivers to it, one after another.
use quake_mesh.Base.{ℕ, Bool, Option, none, some, List, [], ◌∷◌}
use quake_mesh.Base.Text.{Text}
use quake_mesh.Storage.{NodeId, Millis}
use quake_mesh.Dtn.Engine
use quake_mesh.Daemon.{Codec, Config, Server, Request, Response}
use quake_mesh.Daemon.Apps.{RegisterBody, handle_register, handle_discover_peers}
use quake_mesh.Daemon.Mail.{SendBody, deliver_local, handle_send, handle_receive}
use quake_mesh.Daemon.Topics.{
  PublishBody, handle_publish, Begun, answered, waits, begin_subscribe, Waiting, Wake,
  end_subscribe,
}

pub data Call : Type 0 where
  registers : Millis → Option Text → Request → Option RegisterBody → Call
  sends : Millis → ℕ → Request → Option SendBody → Call
  receives : Request → Call
  publishes : Request → Option PublishBody → Call
  begins : Request → Text → Call
  ends : Waiting → Wake → Call
  discovers : Request → Text → Text → Call
  delivers : NodeId → NodeId → Text → Call

-- A response, if there is one yet, and the server.
abbrev pub responded : Response × Server → Option Response × Server
responded r = (some r.0, r.1)

abbrev pub begun : Begun × Server → Option Response × Server
begun (answered r, s) = (some r, s)
begun (waits w, s) = (none, s)

abbrev pub ended : Server → Option (Response × Server) → Option Response × Server
ended s none = (none, s)
ended s (some r) = responded r

abbrev pub delivered : Bool × Server → Option Response × Server
delivered r = (none, r.1)

module _ (codec : Codec) (cfg : Config) (dtn : Engine.Config) where
  -- A call of the server by its route.
  unfoldable pub serve : Call → Server → Option Response × Server
  serve (registers now token r body) s = responded (handle_register codec cfg now token r body s)
  serve (sends now id r body) s = responded (handle_send codec cfg dtn now id r body s)
  serve (receives r) s = responded (handle_receive codec r s)
  serve (publishes r body) s = responded (handle_publish codec cfg r body s)
  serve (begins r topic) s = begun (begin_subscribe r topic s)
  serve (ends w wake) s = ended s (end_subscribe codec w wake s)
  serve (discovers r app constraint) s =
      responded (handle_discover_peers codec cfg r app constraint s)
  serve (delivers src dst payload) s = delivered (deliver_local cfg src dst payload s)

  unfoldable pub serve_all : List Call → Server → Server
  unfolding serve
  serve_all [] s = s
  serve_all (c ∷ calls) s = serve_all calls (serve c s).1

-- The request of a call that needs a session.
abbrev pub needs_session : Call → Option Request
needs_session (registers now token r body) = none
needs_session (sends now id r body) = some r
needs_session (receives r) = some r
needs_session (publishes r body) = some r
needs_session (begins r topic) = some r
needs_session (ends w wake) = none
needs_session (discovers r app constraint) = some r
needs_session (delivers src dst payload) = none
