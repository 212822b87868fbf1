-- ===== src/Ogm/Receive/Forwarding.antt =====
-- What leaves the engine when a message comes in.
use mathlib.Core.List.{append_assoc, append-nil}
use quake_mesh.Base.{
  ◌≡◌, ◌≢◌, ◌∙◌, refl, sym, ap, ℕ, ◌+◌, ◌%◌, ◌<◌, List, [], ◌∷◌, ◌++◌, All, All-append, nat_eq,
  arith,
}
use quake_mesh.Base.Text.{Text, slice_of}
use quake_mesh.Base.Float.{FloatOps}
use quake_mesh.Ogm.State.{
  Ogm, UdpAddr, Config, Engine, Output, send, send_hello, node_status, hub_status, route_changed,
  uint32,
}
use quake_mesh.Ogm.Choice.{store_alternate}
use quake_mesh.Ogm.Receive.{hear_echo, count_link, handle_ogm}
use quake_mesh.Ogm.Receive.Acts.{
  Act, Acts, forwarded, store, tell_node, tell_hub, tell_route, pass_on, mark, keep, here, next,
  handle_ogm_cases,
}

-- A message sent on is the one that came in, one hop further and with one hop less to live, under
-- this hub's name, and does not go back to where it came from. No hello is sent.
abbrev pub Allowed : Config → Ogm → Text → Output → Type 0
Allowed cfg msg from (send peer m) =
    (m.ttl + 1 ≡ msg.ttl)
    × (m.hop_count ≡ (msg.hop_count + 1) % uint32)
    × (m.node_id ≡ msg.node_id)
    × (m.sequence_number ≡ msg.sequence_number)
    × (m.last_hop_id ≡ slice_of 32 cfg.self_id)
    × (peer ≢ from)
Allowed cfg msg from (send_hello peer) = ⊥
Allowed cfg msg from (node_status id s) = Unit
Allowed cfg msg from (hub_status id s) = Unit
Allowed cfg msg from (route_changed r) = Unit

-- The outputs grow, by allowed ones.
pub record Grows (cfg : Config) (msg : Ogm) (from : Text) (before after : List Output)
    : Type 0 where
  pub new : List Output
  pub appended : after ≡ before ++ new
  pub fine : All (Allowed cfg msg from) new

module _ (cfg : Config) (msg : Ogm) (from : Text) where
  unchanged : {o o' : List Output} → o' ≡ o → Grows cfg msg from o o'
  unchanged {o} h = record { new = []; appended = h ∙ sym (append-nil o); fine = tt }

  grown :
      (o : Output) {os : List Output}
      → Allowed cfg msg from o
      → Grows cfg msg from os (os ++ o ∷ [])
  grown o fine = record { new = o ∷ []; appended = refl; fine = (fine, tt) }

  Act-Grows :
      {e e' : Engine} → msg.ttl < uint32 → Act cfg msg from e e' → Grows cfg msg from e.out e'.out
  unfolding store_alternate
  Act-Grows narrow (store db) = unchanged refl
  Act-Grows narrow (tell_node id s) = grown (node_status id s) tt
  Act-Grows narrow (tell_hub id s) = grown (hub_status id s) tt
  Act-Grows narrow (tell_route r) = grown (route_changed r) tt
  Act-Grows narrow (pass_on peer startup alive on) =
      grown (send peer (forwarded cfg msg startup)) (omega arith, refl, refl, refl, refl, on)
  Act-Grows narrow (mark new) = unchanged refl
  Act-Grows narrow (keep r) = unchanged (ground arith)

  Grows-trans :
      {a b c : List Output}
      → Grows cfg msg from a b
      → Grows cfg msg from b c
      → Grows cfg msg from a c
  Grows-trans {a} g h = record {
    new = g.new ++ h.new;
    appended = h.appended ∙ ap (λ l. l ++ h.new) g.appended ∙ append_assoc a g.new h.new;
    fine = All-append (Allowed cfg msg from) g.new h.new g.fine h.fine;
  }

  Acts-Grows :
      {e e' : Engine} → msg.ttl < uint32 → Acts cfg msg from e e' → Grows cfg msg from e.out e'.out
  Acts-Grows narrow here = unchanged refl
  Acts-Grows narrow (next h s) = Grows-trans (Acts-Grows narrow h) (Act-Grows narrow s)

-- A message with a uint32 time to live makes the engine send on only what is allowed, and never
-- makes it take back an output. So one whose time to live is 0 is not sent on at all.
pub handle_ogm-Grows :
    (f : FloatOps) (cfg : Config) (now : ℕ) (msg : Ogm) (addr : UdpAddr) (e : Engine)
    → msg.ttl < uint32
    → Grows cfg msg addr.text e.out (handle_ogm cfg f now msg addr e).out
handle_ogm-Grows f cfg now msg addr e narrow =
    handle_ogm_cases (λ e'. Grows cfg msg addr.text e.out e'.out) f cfg now msg addr e
      (unchanged cfg msg addr.text (unfold hear_echo in ground arith))
      (unchanged cfg msg addr.text (unfold count_link in refl))
      (λ e' acts. unfold count_link in Acts-Grows cfg msg addr.text narrow acts)
