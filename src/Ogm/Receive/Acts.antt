-- ===== src/Ogm/Receive/Acts.antt =====
-- Taking in a new originator message as a sequence of small acts on the engine's state.
use quake_mesh.Base.{
  ◌≡◌, ◌≢◌, ℕ, ◌<◌, Bool, true, false, not, ◌&&◌, ◌||◌, Option, none, some, List, [], ◌∷◌, inl, inr,
  Bool-cases, leb, ltb, ltb→lt, ◌==◌, nat_eq, if◌then◌else◌, if_elim, arith,
}
use quake_mesh.Base.Text.{Text, text_eq, text_beq_refl}
use quake_mesh.Base.Map.{lookup, insert}
use quake_mesh.Base.Float.{FloatOps}
use quake_mesh.Storage.{NodeId, Float64, Millis, Route, Db, Result, ok, err}
use quake_mesh.Routing.{better}
use quake_mesh.Registry.Nodes.{online, upsert_seen}
use quake_mesh.Registry.Hubs.{upsert_hub_seen}
use quake_mesh.Registry.Routes.{get_route, upsert_route}
use quake_mesh.Ogm.State.{
  Ogm, UdpAddr, Config, Engine, send, node_status, hub_status, route_changed, emit, notify, with_db,
  or_zero, unix_milli,
}
use quake_mesh.Ogm.Flood.{flood_to, flood_ogm, passed_on, rebroadcast_startup, maybe_rebroadcast}
use quake_mesh.Ogm.Choice.{
  narrow, store_alternate, sample_latency, route_stored, put_route, choose_route,
  maybe_upsert_route,
}
use quake_mesh.Ogm.Receive.{
  origin_of, upsert_peer_hub, hear_proximity, apply_location, place, off_the_map, learn,
  hub_changed, node_seen, accept_ogm, candidate_route, hear_echo, count_link, is_old, forwarder_of,
  hear_other, handle_ogm,
}

-- The message with its time to live one less, its hop count one more and this hub as last hop.
abbrev pub forwarded : Config → Ogm → Bool → Ogm
forwarded cfg msg startup = record (passed_on cfg msg) { is_startup_announce = startup }

-- One act of an engine that takes in `msg` from the address `from`.
pub data Act (cfg : Config) (msg : Ogm) (from : Text) (e : Engine) : Engine → Type 0 where
  store : (db : Db) → Act cfg msg from e (with_db e db)
  tell_node : (id : NodeId) (s : Text) → Act cfg msg from e (emit (node_status id s) e)
  tell_hub : (id : NodeId) (s : Text) → Act cfg msg from e (emit (hub_status id s) e)
  tell_route : (r : Route) → Act cfg msg from e (emit (route_changed r) e)
  pass_on :
      (peer : Text) (startup : Bool)
      → 0 < msg.ttl
      → peer ≢ from
      → Act cfg msg from e (emit (send peer (forwarded cfg msg startup)) e)
  mark :
      leb msg.sequence_number (or_zero (lookup (origin_of msg) e.rebroadcasted)) ≡ false
      → Act cfg msg from e
          (record e { rebroadcasted = insert (origin_of msg) msg.sequence_number e.rebroadcasted })
  keep : (r : Route) → Act cfg msg from e (store_alternate r e)

pub data Acts (cfg : Config) (msg : Ogm) (from : Text) (e : Engine) : Engine → Type 0 where
  here : Acts cfg msg from e e
  next : {a b : Engine} → Acts cfg msg from e a → Act cfg msg from a b → Acts cfg msg from e b

module _ {cfg : Config} {msg : Ogm} {from : Text} where
  pub Acts-trans :
      {a b c : Engine} → Acts cfg msg from a b → Acts cfg msg from b c → Acts cfg msg from a c
  Acts-trans h here = h
  Acts-trans h (next k s) = next (Acts-trans h k) s

  one : {a b : Engine} → Act cfg msg from a b → Acts cfg msg from a b
  one s = next here s

  either :
      {e : Engine} (b : Bool) {x y : Engine}
      → Acts cfg msg from e x
      → Acts cfg msg from e y
      → Acts cfg msg from e (if b then x else y)
  either true h k = h
  either false h k = k

  flood_to-Acts :
      (startup : Bool) (peers : List Text) (e : Engine)
      → 0 < msg.ttl
      → Acts cfg msg from e (flood_to cfg (forwarded cfg msg startup) from peers e)
  unfolding flood_to
  flood_to-Acts startup [] e alive = here
  flood_to-Acts startup (peer ∷ peers) e alive =
      Acts-trans sent (flood_to-Acts startup peers _ alive)
    where
      sent : Acts cfg msg from e (
          if peer == from
          then e
          else if cfg.resolves peer
          then emit (send peer (forwarded cfg msg startup)) e
          else e)
      sent = elim (Bool-cases (peer == from)) [
        | inl back ↦ rw back here
        | inr on ↦ rw on (
            either (cfg.resolves peer)
              (one (pass_on peer startup alive (λ same. ground (arith, text_beq_refl from)))) here)
      ]

  rebroadcast_startup-Acts : (e : Engine) → Acts cfg msg from e (rebroadcast_startup cfg msg from e)
  unfolding rebroadcast_startup flood_ogm
  rebroadcast_startup-Acts e = elim (Bool-cases (msg.ttl == 0)) [
    | inl dead ↦ rw dead here
    | inr alive ↦ rw alive (flood_to-Acts true cfg.peers e (ground arith))
  ]

  maybe_rebroadcast-Acts :
      (e : Engine) → 0 < msg.ttl → Acts cfg msg from e (maybe_rebroadcast cfg msg from e)
  unfolding maybe_rebroadcast flood_ogm
  maybe_rebroadcast-Acts e alive =
      elim (Bool-cases
        (leb msg.sequence_number (or_zero (lookup (origin_of msg) e.rebroadcasted)))) [
          | inl old ↦ rw old here
          | inr new ↦ rw new (
              Acts-trans (one (mark new)) (flood_to-Acts msg.is_startup_announce cfg.peers _ alive))
        ]

  rebroadcast_if-Acts :
      (e : Engine)
      → Acts cfg msg from e (if ltb 0 msg.ttl then maybe_rebroadcast cfg msg from e else e)
  rebroadcast_if-Acts e = elim (Bool-cases (ltb 0 msg.ttl)) [
    | inl alive ↦ rw alive (maybe_rebroadcast-Acts e (ltb→lt 0 msg.ttl alive))
    | inr dead ↦ rw dead here
  ]

module _ (f : FloatOps) (cfg : Config) (msg : Ogm) (from : Text) where
  sample_latency-Acts :
      (now : ℕ) (r : Route) (e : Engine) → Acts cfg msg from e (sample_latency f cfg now r e)
  unfolding sample_latency
  sample_latency-Acts now r e = either cfg.has_metrics (one (store _)) here

  route_stored-Acts :
      (now : ℕ) (r : Route) (e : Engine) (res : Result (Unit {0}) × Db)
      → Acts cfg msg from e (route_stored f cfg now r e res)
  unfolding route_stored
  route_stored-Acts now r e (ok u, db) =
      Acts-trans (one (store db)) (
        Acts-trans (sample_latency-Acts now r _) (either cfg.has_handler (one (tell_route r)) here))
  route_stored-Acts now r e (err x, db) = one (store db)

  put_route-Acts :
      (now : ℕ) (r : Route) (e : Engine) → Acts cfg msg from e (put_route f cfg now r e)
  unfolding put_route
  put_route-Acts now r e = route_stored-Acts now r e (upsert_route r e.db)

  choose_route-Acts :
      (now : ℕ) (r : Route) (e : Engine) (res : Result (Option Route) × Db)
      → Acts cfg msg from e (choose_route f cfg now r e res)
  unfolding choose_route
  choose_route-Acts now r e (err x, db) = one (store db)
  choose_route-Acts now r e (ok none, db) =
      Acts-trans (one (store db)) (put_route-Acts now r (with_db e db))
  choose_route-Acts now r e (ok (some old), db) = Acts-trans (one (store db)) (
      either (better f (narrow r) (narrow old))
        (Acts-trans (one (keep old)) (put_route-Acts now r (store_alternate old (with_db e db))))
        (one (keep r)))

  hear_proximity-Acts :
      (now : ℕ) (id : NodeId) (hops : ℕ) (e : Engine)
      → Acts cfg msg from e (hear_proximity cfg now id hops e)
  unfolding hear_proximity
  hear_proximity-Acts now id hops e = either cfg.has_trust (one (store _)) here

  place-Acts :
      (now : ℕ) (id : NodeId) (at : Option Millis) (lat lon : Option Float64) (e : Engine)
      → Acts cfg msg from e (place cfg f now id at lat lon e)
  place-Acts now id at (some lat) (some lon) e =
      either (off_the_map cfg f lat lon || (f.eq lat (f.lit 0 0) && f.eq lon (f.lit 0 0))) here
        (one (store _))
  place-Acts now id at _ _ e = here

  hub_changed-Acts :
      (id : NodeId) (e : Engine) (res : Result Bool × Db)
      → Acts cfg msg from e (hub_changed cfg id e res)
  hub_changed-Acts id e (ok true, db) =
      Acts-trans (one (store db)) (either cfg.has_handler (one (tell_hub id online)) here)
  hub_changed-Acts id e (ok false, db) = one (store db)
  hub_changed-Acts id e (err x, db) = one (store db)

module _ (f : FloatOps) (cfg : Config) (now : ℕ) (msg : Ogm) (addr : UdpAddr) where
  learn-Acts :
      (forwarder : NodeId) (e : Engine)
      → Acts cfg msg addr.text e (learn cfg f now msg forwarder addr e)
  unfolding learn maybe_upsert_route apply_location
  learn-Acts forwarder e =
      let e₁ = hear_proximity cfg now (origin_of msg) msg.hop_count e in
      let e₂ = apply_location cfg f now (origin_of msg) msg e₁ in
      let e₃ = maybe_upsert_route f cfg now (candidate_route cfg f msg forwarder e₂) e₂ in
      Acts-trans (hear_proximity-Acts f cfg msg addr.text now (origin_of msg) msg.hop_count e) (
        Acts-trans
          (place-Acts f cfg msg addr.text now (origin_of msg) msg.location_at_unix_ms msg.lat
            msg.lon e₁)
          (Acts-trans
            (choose_route-Acts f cfg msg addr.text now (candidate_route cfg f msg forwarder e₂) e₂
              (get_route (origin_of msg) e₂.db))
            (rebroadcast_if-Acts e₃)))

  node_seen-Acts :
      (forwarder : NodeId) (e : Engine) (res : Result Bool × Db)
      → Acts cfg msg addr.text e (node_seen cfg f now msg forwarder addr e res)
  unfolding node_seen
  node_seen-Acts forwarder e (err x, db) = one (store db)
  node_seen-Acts forwarder e (ok changed, db) =
      let told = notify cfg (node_status (origin_of msg) online) (with_db e db) in
      let e₁ =
        if changed && cfg.has_handler
        then rebroadcast_startup cfg msg addr.text told
        else with_db e db in
      Acts-trans
        (either (changed && cfg.has_handler)
          (Acts-trans (one (store db)) (
            Acts-trans (either cfg.has_handler (one (tell_node (origin_of msg) online)) here)
              (rebroadcast_startup-Acts told)))
          (one (store db)))
        (learn-Acts forwarder e₁)

  -- A message that is taken in changes the engine by acts alone.
  pub accept_ogm-Acts :
      (forwarder : NodeId) (e : Engine)
      → Acts cfg msg addr.text e (accept_ogm cfg f now msg forwarder addr e)
  unfolding accept_ogm upsert_peer_hub
  accept_ogm-Acts forwarder e =
      let near = msg.hop_count == 0 && not (origin_of msg == cfg.self_id) in
      let res = upsert_hub_seen (origin_of msg) addr.ip addr.port (unix_milli now) e.db in
      let e₁ = if near then hub_changed cfg (origin_of msg) e res else e in
      Acts-trans (either near (hub_changed-Acts f cfg msg addr.text (origin_of msg) e res) here)
        (node_seen-Acts forwarder e₁ (upsert_seen (origin_of msg) (unix_milli now) e₁.db))

-- The engine once a new message is counted and its number noted.
abbrev pub heard : Ogm → UdpAddr → Engine → Engine
heard msg addr e =
    let counted = count_link msg addr e in
    record counted { last_seq = insert (origin_of msg) msg.sequence_number counted.last_seq }

-- The three ways of a message: an own one that came back, an old one, and a new one.
pub handle_ogm_cases {ℓ} :
    (P : Engine → Type ℓ) (f : FloatOps) (cfg : Config) (now : ℕ) (msg : Ogm) (addr : UdpAddr)
    (e : Engine)
    → P (hear_echo msg addr e)
    → P (count_link msg addr e)
    → ((e' : Engine) → Acts cfg msg addr.text (heard msg addr e) e' → P e')
    → P (handle_ogm cfg f now msg addr e)
unfolding handle_ogm hear_other
handle_ogm_cases P f cfg now msg addr e own old new = if_elim P (origin_of msg == cfg.self_id) own (
    if_elim P (is_old msg (lookup (origin_of msg) (count_link msg addr e).last_seq)) old
      (new _ (accept_ogm-Acts f cfg now msg addr (forwarder_of msg addr e) (heard msg addr e))))
