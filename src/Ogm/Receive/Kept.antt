-- ===== src/Ogm/Receive/Kept.antt =====
-- The bound on alternates through every message.
use quake_mesh.Base.{ℕ, ltb, if_elim}
use quake_mesh.Base.Text.{Text}
use quake_mesh.Base.Float.{FloatOps}
use quake_mesh.Ogm.State.{Ogm, UdpAddr, Config, Engine}
use quake_mesh.Ogm.Choice.Alternates.{AllKept, store_alternate-AllKept}
use quake_mesh.Ogm.Receive.{hear_echo, count_link, handle_ogm}
use quake_mesh.Ogm.Receive.Acts.{
  Act, Acts, store, tell_node, tell_hub, tell_route, pass_on, mark, keep, here, next,
  handle_ogm_cases,
}

module _ {cfg : Config} {msg : Ogm} {from : Text} where
  Act-AllKept : {e e' : Engine} → Act cfg msg from e e' → AllKept e → AllKept e'
  Act-AllKept (store db) all = all
  Act-AllKept (tell_node id s) all = all
  Act-AllKept (tell_hub id s) all = all
  Act-AllKept (tell_route r) all = all
  Act-AllKept (pass_on peer startup alive on) all = all
  Act-AllKept (mark new) all = all
  Act-AllKept {e} (keep r) all = store_alternate-AllKept r e all

  Acts-AllKept : {e e' : Engine} → Acts cfg msg from e e' → AllKept e → AllKept e'
  Acts-AllKept here all = all
  Acts-AllKept (next h s) all = Act-AllKept s (Acts-AllKept h all)

-- Whatever message comes in, each destination has at most three alternates afterwards, all over
-- different neighbours, if that was so before.
pub handle_ogm-AllKept :
    (f : FloatOps) (cfg : Config) (now : ℕ) (msg : Ogm) (addr : UdpAddr) (e : Engine)
    → AllKept e
    → AllKept (handle_ogm cfg f now msg addr e)
unfolding count_link
handle_ogm-AllKept f cfg now msg addr e all =
    handle_ogm_cases AllKept f cfg now msg addr e
      (unfold hear_echo in if_elim AllKept (ltb 0 msg.hop_count) all all) all
      (λ e' acts. Acts-AllKept acts all)
