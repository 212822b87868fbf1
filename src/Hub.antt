-- ===== src/Hub.antt =====
-- hub/internal/hubapp/hubapp.go: starting and stopping a hub's parts, its own row in the registry, and
-- the signing of its ban proposals. Whether a part starts is an argument.
pub mod Started
use quake_mesh.Base.{
  ℕ, Bool, true, false, not, Option, none, some, List, [], ◌∷◌, ◌++◌, ◌==◌, if◌then◌else◌,
}
use quake_mesh.Base.Text.{Text, text_eq}
use quake_mesh.Storage.{NodeId, Millis, Db, M, Result, ok, err, Proposal, pure, ◌>>=◌, ◌>>◌}
use quake_mesh.Registry.Hubs.{upsert_hub_seen}
use quake_mesh.Registry.Nodes.{online}
use quake_mesh.Settings
use quake_mesh.Settings.{local_hub_id}
use quake_mesh.Bans.{list_unsigned_by_proposer, update_signature}

pub data Part : Type 0 where
  api daemon heartbeat discovery dtn fallback sync ogm : Part

pub record Config : Type 0 where
  pub has_daemon : Bool
  pub has_heartbeat : Bool
  pub has_discovery : Bool

-- What `Start` reports, by the step that failed.
pub data Outcome : Type 0 where
  started : Outcome
  failed : Part → Outcome
  not_registered : Outcome
  not_signed : Outcome

-- The parts that run.
abbrev pub Running : Type 0
Running = List Part

unfoldable pub same_part : Part → Part → Bool
same_part api api = true
same_part daemon daemon = true
same_part heartbeat heartbeat = true
same_part discovery discovery = true
same_part dtn dtn = true
same_part fallback fallback = true
same_part sync sync = true
same_part ogm ogm = true
same_part _ _ = false

-- `Close` of a part.
unfoldable pub close : Part → Running → Running
unfolding same_part
close p [] = []
close p (q ∷ r) = let rest = close p r in if same_part p q then rest else q ∷ rest

-- `Start` of a part, and what is closed where it fails.
abbrev pub begin :
    Bool → Part → (Running → Running) → (Running → Outcome × Running) → Running → Outcome × Running
begin true p undo next r = next (r ++ p ∷ [])
begin false p undo next r = (failed p, undo r)

-- The same for a part that may be nil.
abbrev pub begin_if :
    Bool
    → Bool
    → Part
    → (Running → Running)
    → (Running → Outcome × Running)
    → Running
    → Outcome × Running
begin_if true works p undo next r = begin works p undo next r
begin_if false works p undo next r = next r

abbrev pub close_if : Bool → Part → Running → Running
close_if true p r = close p r
close_if false p r = r

module _ (cfg : Config) (starts : Part → Bool) (registers signs : Bool) where
  unfoldable pub finish : Running → Outcome × Running
  finish r =
      if registers then (if signs then (started, r) else (not_signed, r)) else (not_registered, r)

  unfoldable pub start_ogm : Running → Outcome × Running
  unfolding close finish
  start_ogm =
      begin (starts ogm) ogm
        (λ r.
          close api (close_if cfg.has_daemon daemon (close dtn (close fallback (close sync r)))))
        finish

  unfoldable pub start_sync : Running → Outcome × Running
  unfolding close start_ogm
  start_sync r =
      begin (starts sync) sync
        (λ r. close api (close_if cfg.has_daemon daemon (close dtn (close fallback r)))) start_ogm
        (r ++ dtn ∷ fallback ∷ [])

  unfoldable pub start_discovery : Running → Outcome × Running
  unfolding close start_sync
  start_discovery =
      begin_if cfg.has_discovery (starts discovery) discovery
        (λ r. close api (close_if cfg.has_daemon daemon (close_if cfg.has_heartbeat heartbeat r)))
        start_sync

  unfoldable pub start_heartbeat : Running → Outcome × Running
  unfolding close start_discovery
  start_heartbeat =
      begin_if cfg.has_heartbeat (starts heartbeat) heartbeat
        (λ r. close api (close_if cfg.has_daemon daemon r)) start_discovery

  unfoldable pub start_daemon : Running → Outcome × Running
  unfolding close start_heartbeat
  start_daemon = begin_if cfg.has_daemon (starts daemon) daemon (λ r. close api r) start_heartbeat

  -- `Start`, from nothing that runs.
  unfoldable pub start : Outcome × Running
  unfolding start_daemon
  start = begin (starts api) api (λ r. r) start_daemon []

-- `Close`.
unfoldable pub close_all : Config → Running → Running
unfolding close
close_all cfg r = close api (
    close ogm (
      close sync (
        close_if cfg.has_discovery discovery (
          close_if cfg.has_heartbeat heartbeat
            (close_if cfg.has_daemon daemon (close dtn (close fallback r)))))))

abbrev pub ignore_error : {A : Type 0} → M A → M (Unit {0})
ignore_error m db = (ok tt, (m db).1)

-- `registerSelfHub`, with the address of the OGM socket: whether the hub's status changed, which the
-- management API is told. `name` is the text of the id.
unfoldable pub register_self_hub : NodeId → Text → Text → ℕ → Millis → M Bool
register_self_hub id name ip port now = upsert_hub_seen id ip port now >>= λ changed.
    ignore_error (Settings.set local_hub_id name) >> pure changed

-- The loop of `signPendingProposals`; `sign` is the signature of the bytes of a proposal.
unfoldable pub sign_each : (Proposal → Text) → List Proposal → M (Unit {0})
sign_each sign [] = pure tt
sign_each sign (p ∷ pending) = update_signature p.ban_id (sign p) >> sign_each sign pending

unfoldable pub sign_pending_proposals : (Proposal → Text) → NodeId → M (Unit {0})
unfolding sign_each
sign_pending_proposals sign id = list_unsigned_by_proposer id >>= sign_each sign

-- `portFromAddr`: `split` is the port that `SplitHostPort` gives and `scan` the number that `Sscanf`
-- reads, each with `none` for an error.
abbrev pub scanned : (Text → Option ℕ) → Option Text → Option ℕ
scanned scan none = none
scanned scan (some port) = scan port

unfoldable pub port_from_addr : (Text → Option Text) → (Text → Option ℕ) → Text → Option ℕ
port_from_addr split scan addr = if addr == [] then some 0 else scanned scan (split addr)
