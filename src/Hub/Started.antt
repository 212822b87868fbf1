-- ===== src/Hub/Started.antt =====
-- Which parts of a hub run after `Start`.
use quake_mesh.Base.{◌≡◌, refl, Bool, true, false, [], ◌∷◌, ◌++◌, if_elim}
use quake_mesh.Hub.{
  Config, Outcome, Part, Running, api, begin, close, close_all, daemon, discovery, dtn, failed,
  fallback, finish, heartbeat, ogm, same_part, start, start_daemon, start_discovery,
  start_heartbeat, start_ogm, start_sync, started, sync,
}

abbrev pub part_if : Bool → Part → Running
part_if true p = p ∷ []
part_if false p = []

-- What should run after each outcome, and what does.
abbrev pub left_after : Config → Outcome → Running
left_after cfg (failed sync) =
    part_if cfg.has_heartbeat heartbeat ++ part_if cfg.has_discovery discovery
left_after cfg (failed ogm) =
    part_if cfg.has_heartbeat heartbeat ++ part_if cfg.has_discovery discovery
left_after cfg (failed p) = []
left_after cfg o =
    api ∷ part_if cfg.has_daemon daemon
    ++ part_if cfg.has_heartbeat heartbeat
    ++ part_if cfg.has_discovery discovery
    ++ dtn ∷ fallback ∷ sync ∷ ogm ∷ []

abbrev Correct : Config → Outcome × Running → Type 0
Correct cfg r = r.1 ≡ left_after cfg r.0

begin-elim :
    (P : Outcome × Running → Type 0) (b : Bool) (p : Part) (undo : Running → Running)
    (next : Running → Outcome × Running) (r : Running)
    → P (failed p, undo r)
    → P (next (r ++ p ∷ []))
    → P (begin b p undo next r)
begin-elim P true p undo next r bad good = good
begin-elim P false p undo next r bad good = bad

abbrev config : Bool → Bool → Bool → Config
config d h k = record { has_daemon = d; has_heartbeat = h; has_discovery = k }

-- What runs before the engines are started.
abbrev servers : Bool → Bool → Bool → Running
servers d h k = api ∷ part_if d daemon ++ part_if h heartbeat ++ part_if k discovery

abbrev all_parts : Bool → Bool → Bool → Running
all_parts d h k = servers d h k ++ dtn ∷ fallback ∷ sync ∷ ogm ∷ []

module _ (starts : Part → Bool) (registers signs : Bool) where
  finish-Correct :
      (cfg : Config) (r : Running)
      → r ≡ left_after cfg started
      → Correct cfg (finish cfg starts registers signs r)
  unfolding finish
  finish-Correct cfg r done =
      if_elim (Correct cfg) registers (if_elim (Correct cfg) signs done done) done

  engines-Correct :
      (d h k : Bool)
      → Correct (config d h k) (start_sync (config d h k) starts registers signs (servers d h k))
  unfolding start_sync start_ogm close same_part
  engines-Correct true true true =
      begin-elim (Correct (config true true true)) (starts sync) sync _ _ _ refl (
        begin-elim (Correct (config true true true)) (starts ogm) ogm _ _ _ refl
          (finish-Correct (config true true true) (all_parts true true true) refl))
  engines-Correct true true false =
      begin-elim (Correct (config true true false)) (starts sync) sync _ _ _ refl (
        begin-elim (Correct (config true true false)) (starts ogm) ogm _ _ _ refl
          (finish-Correct (config true true false) (all_parts true true false) refl))
  engines-Correct true false true =
      begin-elim (Correct (config true false true)) (starts sync) sync _ _ _ refl (
        begin-elim (Correct (config true false true)) (starts ogm) ogm _ _ _ refl
          (finish-Correct (config true false true) (all_parts true false true) refl))
  engines-Correct true false false =
      begin-elim (Correct (config true false false)) (starts sync) sync _ _ _ refl (
        begin-elim (Correct (config true false false)) (starts ogm) ogm _ _ _ refl
          (finish-Correct (config true false false) (all_parts true false false) refl))
  engines-Correct false true true =
      begin-elim (Correct (config false true true)) (starts sync) sync _ _ _ refl (
        begin-elim (Correct (config false true true)) (starts ogm) ogm _ _ _ refl
          (finish-Correct (config false true true) (all_parts false true true) refl))
  engines-Correct false true false =
      begin-elim (Correct (config false true false)) (starts sync) sync _ _ _ refl (
        begin-elim (Correct (config false true false)) (starts ogm) ogm _ _ _ refl
          (finish-Correct (config false true false) (all_parts false true false) refl))
  engines-Correct false false true =
      begin-elim (Correct (config false false true)) (starts sync) sync _ _ _ refl (
        begin-elim (Correct (config false false true)) (starts ogm) ogm _ _ _ refl
          (finish-Correct (config false false true) (all_parts false false true) refl))
  engines-Correct false false false =
      begin-elim (Correct (config false false false)) (starts sync) sync _ _ _ refl (
        begin-elim (Correct (config false false false)) (starts ogm) ogm _ _ _ refl
          (finish-Correct (config false false false) (all_parts false false false) refl))

  discovery-Correct :
      (d h k : Bool)
      → Correct
          (config d h k)
          (start_discovery (config d h k) starts registers signs (servers d h false))
  unfolding start_discovery close same_part
  discovery-Correct true true true =
      begin-elim (Correct (config true true true)) (starts discovery) discovery _ _ _ refl
        (engines-Correct true true true)
  discovery-Correct true true false = engines-Correct true true false
  discovery-Correct true false true =
      begin-elim (Correct (config true false true)) (starts discovery) discovery _ _ _ refl
        (engines-Correct true false true)
  discovery-Correct true false false = engines-Correct true false false
  discovery-Correct false true true =
      begin-elim (Correct (config false true true)) (starts discovery) discovery _ _ _ refl
        (engines-Correct false true true)
  discovery-Correct false true false = engines-Correct false true false
  discovery-Correct false false true =
      begin-elim (Correct (config false false true)) (starts discovery) discovery _ _ _ refl
        (engines-Correct false false true)
  discovery-Correct false false false = engines-Correct false false false

  heartbeat-Correct :
      (d h k : Bool)
      → Correct
          (config d h k)
          (start_heartbeat (config d h k) starts registers signs (servers d false false))
  unfolding start_heartbeat close same_part
  heartbeat-Correct true true k =
      begin-elim (Correct (config true true k)) (starts heartbeat) heartbeat _ _ _ refl
        (discovery-Correct true true k)
  heartbeat-Correct true false k = discovery-Correct true false k
  heartbeat-Correct false true k =
      begin-elim (Correct (config false true k)) (starts heartbeat) heartbeat _ _ _ refl
        (discovery-Correct false true k)
  heartbeat-Correct false false k = discovery-Correct false false k

  daemon-Correct :
      (d h k : Bool)
      → Correct (config d h k) (start_daemon (config d h k) starts registers signs (api ∷ []))
  unfolding start_daemon close same_part
  daemon-Correct true h k =
      begin-elim (Correct (config true h k)) (starts daemon) daemon _ _ _ refl
        (heartbeat-Correct true h k)
  daemon-Correct false h k = heartbeat-Correct false h k

  -- After a start that succeeds every part of the hub that is configured runs, and so they all do after
  -- one that fails to register or to sign. After one that fails where the management API, the daemon,
  -- the heartbeat server or the discovery could not start nothing runs; after one that fails at the
  -- sync or the OGM engine the heartbeat server and the discovery, if configured, still run.
  pub start_leaves :
      (cfg : Config)
      → (start cfg starts registers signs).1 ≡ left_after cfg (start cfg starts registers signs).0
  unfolding start
  start_leaves cfg =
      begin-elim (Correct cfg) (starts api) api _ _ [] refl
        (daemon-Correct cfg.has_daemon cfg.has_heartbeat cfg.has_discovery)

parts-closed : (d h k : Bool) → close_all (config d h k) (all_parts d h k) ≡ []
unfolding close_all close same_part
parts-closed true true true = refl
parts-closed true true false = refl
parts-closed true false true = refl
parts-closed true false false = refl
parts-closed false true true = refl
parts-closed false true false = refl
parts-closed false false true = refl
parts-closed false false false = refl

-- Closing a hub whose parts all run leaves none of them running.
pub close_all-started : (cfg : Config) → close_all cfg (left_after cfg started) ≡ []
close_all-started cfg = parts-closed cfg.has_daemon cfg.has_heartbeat cfg.has_discovery
