-- ===== src/Ogm/Flood.antt =====
-- hub/internal/ogmengine/ogmengine.go: sending originator messages and hellos.
use quake_mesh.Base.{
  ℕ, ◌+◌, ◌-◌, ◌%◌, Bool, true, List, [], ◌∷◌, leb, ◌==◌, nat_eq, if◌then◌else◌, none,
}
use quake_mesh.Base.Text.{Text, slice_of, copy_into, text_eq}
use quake_mesh.Base.Map.{lookup, insert}
use quake_mesh.Ogm.State.{Ogm, Config, Engine, send, send_hello, emit, or_zero, uint32, uint64}

-- The loop over the peers, from one on.
unfoldable pub flood_to : Config → Ogm → Text → List Text → Engine → Engine
flood_to cfg msg except [] e = e
flood_to cfg msg except (peer ∷ peers) e =
    flood_to cfg msg except peers
      (if peer == except then e else if cfg.resolves peer then emit (send peer msg) e else e)

unfoldable pub flood_ogm : Config → Ogm → Text → Engine → Engine
unfolding flood_to
flood_ogm cfg msg except e = flood_to cfg msg except cfg.peers e

abbrev pub own_ogm : Config → ℕ → Bool → Ogm
own_ogm cfg seq startup = record {
  node_id = slice_of 32 cfg.self_id;
  sequence_number = seq;
  ttl = cfg.ttl;
  is_startup_announce = startup;
  last_hop_id = slice_of 0 0;
  hop_count = 0;
  lat = none;
  lon = none;
  location_accuracy_m = none;
  location_at_unix_ms = none;
}

abbrev pub next_seq : Engine → ℕ
next_seq e = (e.seq + 1) % uint64

unfoldable pub broadcast_once : Config → Engine → Engine
broadcast_once cfg e =
    let seq = next_seq e in flood_ogm cfg (own_ogm cfg seq (seq == 1)) [] (record e { seq = seq })

unfoldable pub broadcast_startup : Config → Engine → Engine
broadcast_startup cfg e =
    let seq = next_seq e in flood_ogm cfg (own_ogm cfg seq true) [] (record e { seq = seq })

-- `Ttl--`, `HopCount++` and the new last hop, on uint32.
abbrev pub passed_on : Config → Ogm → Ogm
passed_on cfg msg = record msg {
  ttl = (msg.ttl + uint32 - 1) % uint32;
  hop_count = (msg.hop_count + 1) % uint32;
  last_hop_id = slice_of 32 cfg.self_id;
}

unfoldable pub rebroadcast_startup : Config → Ogm → Text → Engine → Engine
rebroadcast_startup cfg msg from e =
    if msg.ttl == 0
    then e
    else flood_ogm cfg (record (passed_on cfg msg) { is_startup_announce = true }) from e

unfoldable pub maybe_rebroadcast : Config → Ogm → Text → Engine → Engine
maybe_rebroadcast cfg msg from e =
    let origin = copy_into 32 msg.node_id in
    if leb msg.sequence_number (or_zero (lookup origin e.rebroadcasted))
    then e
    else flood_ogm cfg (passed_on cfg msg) from
        (record e { rebroadcasted = insert origin msg.sequence_number e.rebroadcasted })

-- The loop of `sendHellos`.
unfoldable pub hello_to : Config → ℕ → List Text → Engine → Engine
hello_to cfg now [] e = e
hello_to cfg now (peer ∷ peers) e = hello_to cfg now peers (
    if cfg.resolves peer
    then emit (send_hello peer) (record e { pending_hello = insert peer now e.pending_hello })
    else e)

unfoldable pub send_hellos : Config → ℕ → Engine → Engine
unfolding hello_to
send_hellos cfg now e = hello_to cfg now cfg.peers e
