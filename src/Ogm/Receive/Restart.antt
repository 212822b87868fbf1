-- ===== src/Ogm/Receive/Restart.antt =====
-- A hub that restarts counts its messages from 1 again, and its neighbours still know how far it was.
use quake_mesh.Base.{
  ◌≡◌, ◌≢◌, ◌∙◌, refl, ℕ, zero, suc, ◌≤◌, ◌<◌, some, List, [], ◌∷◌, All, All-append, if_elim,
  nat_eq, ◌==◌, arith,
}
use quake_mesh.Base.Text.{Text, text_eq, copy_into-slice_of}
use quake_mesh.Base.Map.{lookup}
use quake_mesh.Base.Float.{FloatOps}
use quake_mesh.Storage.{Db}
use quake_mesh.Ogm.State.{
  Ogm, UdpAddr, Config, Engine, Output, send, send_hello, node_status, hub_status, route_changed,
  new_engine, uint64,
}
use quake_mesh.Ogm.Flood.{broadcast_once, flood_ogm, flood_to, own_ogm, next_seq}
use quake_mesh.Ogm.Receive.{handle_ogm, origin_of}
use quake_mesh.Ogm.Receive.Sequence.{SameButCounters, handle_ogm_old}

-- The first `n` rounds of the broadcast loop.
unfoldable pub broadcasts : Config → ℕ → Engine → Engine
broadcasts x zero e = e
broadcasts x (suc n) e = broadcast_once x (broadcasts x n e)

flood_to-seq :
    (x : Config) (msg : Ogm) (except : Text) (peers : List Text) (e : Engine)
    → (flood_to x msg except peers e).seq ≡ e.seq
unfolding flood_to
flood_to-seq x msg except [] e = refl
flood_to-seq x msg except (peer ∷ peers) e =
    let E : Engine → Type 0 = λ e'. e'.seq ≡ e.seq in
    flood_to-seq x msg except peers _
    ∙ if_elim E (peer == except) refl (if_elim E (x.resolves peer) refl refl)

flood_to-All :
    (P : Output → Type 0) (x : Config) (msg : Ogm) (except : Text) (peers : List Text) (e : Engine)
    → ((peer : Text) → P (send peer msg))
    → All P e.out
    → All P (flood_to x msg except peers e).out
unfolding flood_to
flood_to-All P x msg except [] e each all = all
flood_to-All P x msg except (peer ∷ peers) e each all =
    let E : Engine → Type 0 = λ e'. All P e'.out in
    flood_to-All P x msg except peers _ each (
      if_elim E (peer == except) all (
        if_elim E (x.resolves peer) (All-append P e.out (send peer msg ∷ []) all (each peer, tt))
          all))

broadcasts-seq :
    (x : Config) (n : ℕ) (db : Db) → n < uint64 → (broadcasts x n (new_engine db)).seq ≡ n
unfolding broadcasts broadcast_once flood_ogm
broadcasts-seq x zero db small = refl
broadcasts-seq x (suc n) db small =
    let before = broadcasts-seq x n db (omega (arith, small)) in
    flood_to-seq x _ [] x.peers _ ∙ rw before (omega (arith, small))

-- What is sent of a message changes nothing but the counters of its link where it is heard.
unfoldable pub Ignored : FloatOps → Config → ℕ → UdpAddr → Engine → Output → Type 0
Ignored f cfg now addr e (send peer msg) =
    SameButCounters msg addr e (handle_ogm cfg f now msg addr e)
Ignored f cfg now addr e (send_hello peer) = Unit
Ignored f cfg now addr e (node_status id s) = Unit
Ignored f cfg now addr e (hub_status id s) = Unit
Ignored f cfg now addr e (route_changed r) = Unit

-- Where a hub has heard of another one up to some number, and that one starts again, every message
-- that the other one sends in as many rounds of its broadcast loop, the one that announces the start
-- included, changes nothing with the first hub but the count of its link and, if it is direct, the
-- name of the address it came from.
pub broadcasts-Ignored :
    (f : FloatOps) (cfg x : Config) (now last n : ℕ) (addr : UdpAddr) (e : Engine) (db : Db)
    → x.self_id ≢ cfg.self_id
    → lookup x.self_id e.last_seq ≡ some last
    → last < uint64
    → n ≤ last
    → All (Ignored f cfg now addr e) (broadcasts x n (new_engine db)).out
unfolding broadcasts broadcast_once flood_ogm Ignored
broadcasts-Ignored f cfg x now last zero addr e db other heard small few = tt
broadcasts-Ignored f cfg x now last (suc n) addr e db other heard small few =
    let sender = broadcasts x n (new_engine db) in
    let origin : origin_of (own_ogm x (next_seq sender) (next_seq sender == 1)) ≡ x.self_id =
      copy_into-slice_of 32 x.self_id in
    let counted = broadcasts-seq x n db (omega (arith, small, few)) in
    let low : next_seq sender ≤ last = rw counted (omega (arith, small, few)) in
    flood_to-All (Ignored f cfg now addr e) x _ [] x.peers _
      (λ peer.
        handle_ogm_old f cfg now (own_ogm x (next_seq sender) (next_seq sender == 1)) addr e last
          (λ own. ground (arith, origin, own, other)) (rw origin heard) low)
      (broadcasts-Ignored f cfg x now last n addr e db other heard small (omega (arith, few)))
