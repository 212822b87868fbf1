-- ===== src/Ogm/Receive/Sequence.antt =====
-- Sequence numbers: the last one heard of each origin, and that a repeated message changes nothing
-- but the counters of its link.
use quake_mesh.Base.{
  ◌≡◌, ◌≢◌, ◌∙◌, refl, ap, ℕ, ◌+◌, ◌%◌, none, List, [], ◌∷◌, ◌≤◌, Bool, true, false, not, ◌&&◌,
  Option, some, inl, inr, Bool-cases, Option-cases, leb, leb→le, le→leb, ◌==◌, nat_eq, nat_beq_iff,
  if◌then◌else◌, arith, if_elim,
}
use quake_mesh.Base.Text.{Text, text_eq}
use quake_mesh.Base.Map.{lookup, lookup-insert}
use quake_mesh.Base.Float.{FloatOps}
use quake_mesh.Storage.{NodeId}
use quake_mesh.Ogm.State.{Hello, Ogm, UdpAddr, Config, Engine, or_zero, uint32}
use quake_mesh.Ogm.Choice.{store_alternate}
use quake_mesh.Ogm.Receive.{
  Codec, origin_of, forwarder_of, is_direct, is_old, hear_echo, count_link, hear_other, handle_ogm,
  handle_hello, handle_packet, try_hello, try_ogm,
}
use quake_mesh.Ogm.Receive.Acts.{
  Act, Acts, store, tell_node, tell_hub, tell_route, pass_on, mark, keep, here, next,
  accept_ogm-Acts,
}

-- Between the engines one more message was counted and nothing else has changed: the forwarder's
-- count of received messages is one higher, and a direct message has named its sender's address.
pub record SameButCounters (msg : Ogm) (addr : UdpAddr) (e e' : Engine) : Type 0 where
  pub same_db : e'.db ≡ e.db
  pub same_out : e'.out ≡ e.out
  pub same_alternates : e'.alternates ≡ e.alternates
  pub same_rebroadcasted : e'.rebroadcasted ≡ e.rebroadcasted
  pub same_latency : e'.latency_ms ≡ e.latency_ms
  pub same_last_seq : e'.last_seq ≡ e.last_seq
  pub same_seq : e'.seq ≡ e.seq
  pub same_pending_hello : e'.pending_hello ≡ e.pending_hello
  pub same_link_eq : e'.link_eq ≡ e.link_eq
  pub counted :
      (j : NodeId)
      → lookup j e'.link_rq ≡ (
          if forwarder_of msg addr e == j
          then some ((or_zero (lookup (forwarder_of msg addr e) e.link_rq) + 1) % uint32)
          else lookup j e.link_rq)
  pub named :
      (t : Text)
      → lookup t e'.peer_by_addr ≡ (
          if is_direct msg && addr.text == t then some (origin_of msg) else lookup t e.peer_by_addr)

module _ {cfg : Config} {msg : Ogm} {from : Text} where
  Act-last_seq : {e e' : Engine} → Act cfg msg from e e' → e'.last_seq ≡ e.last_seq
  unfolding store_alternate
  Act-last_seq (store db) = refl
  Act-last_seq (tell_node id s) = refl
  Act-last_seq (tell_hub id s) = refl
  Act-last_seq (tell_route r) = refl
  Act-last_seq (pass_on peer startup alive on) = refl
  Act-last_seq (mark new) = refl
  Act-last_seq (keep r) = ground arith

  Acts-last_seq : {e e' : Engine} → Acts cfg msg from e e' → e'.last_seq ≡ e.last_seq
  Acts-last_seq here = refl
  Acts-last_seq (next h s) = Act-last_seq s ∙ Acts-last_seq h

module _ (f : FloatOps) (cfg : Config) (now : ℕ) (msg : Ogm) (addr : UdpAddr) where
  -- Whether the message is from another hub and newer than all that was heard of it.
  abbrev pub is_news : Engine → Bool
  is_news e =
      not (origin_of msg == cfg.self_id) && not (is_old msg (lookup (origin_of msg) e.last_seq))

  hear_other-last_seq :
      (j : NodeId) (e : Engine)
      → lookup j (hear_other cfg f now msg addr e).last_seq ≡ (
          if origin_of msg == j && not (is_old msg (lookup (origin_of msg) e.last_seq))
          then some msg.sequence_number
          else lookup j e.last_seq)
  unfolding hear_other count_link
  hear_other-last_seq j e = elim (Bool-cases (is_old msg (lookup (origin_of msg) e.last_seq))) [
    | inl old ↦ rw old (ground arith)
    | inr new ↦ rw new (
        ap (lookup j)
          (Acts-last_seq (accept_ogm-Acts f cfg now msg addr (forwarder_of msg addr e) _))
        ∙ lookup-insert (origin_of msg) j msg.sequence_number e.last_seq
        ∙ ground arith)
  ]

  -- The last sequence number of an origin becomes that of the message if the message is from that
  -- origin, which is another hub, and is newer than all before it; every other is left alone.
  pub handle_ogm-last_seq :
      (j : NodeId) (e : Engine)
      → lookup j (handle_ogm cfg f now msg addr e).last_seq ≡ (
          if origin_of msg == j && is_news e then some msg.sequence_number else lookup j e.last_seq)
  unfolding handle_ogm hear_echo
  handle_ogm-last_seq j e = ground (arith, hear_other-last_seq j e)

  old_counted :
      (e : Engine) (last : ℕ)
      → origin_of msg ≢ cfg.self_id
      → lookup (origin_of msg) e.last_seq ≡ some last
      → msg.sequence_number ≤ last
      → handle_ogm cfg f now msg addr e ≡ count_link msg addr e
  unfolding handle_ogm hear_other count_link
  old_counted e last other heard old =
      ground (arith, nat_beq_iff (origin_of msg) cfg.self_id, le→leb msg.sequence_number last old)

  count_link-SameButCounters : (e : Engine) → SameButCounters msg addr e (count_link msg addr e)
  unfolding count_link
  count_link-SameButCounters e = record {
    same_db = refl;
    same_out = refl;
    same_alternates = refl;
    same_rebroadcasted = refl;
    same_latency = refl;
    same_last_seq = refl;
    same_seq = refl;
    same_pending_hello = refl;
    same_link_eq = refl;
    counted = λ j. lookup-insert (forwarder_of msg addr e) j _ e.link_rq;
    named = λ t. elim (Bool-cases (is_direct msg)) [
      | inl direct ↦ rw direct (lookup-insert addr.text t (origin_of msg) e.peer_by_addr)
      | inr passed ↦ rw passed refl
    ];
  }

  -- A message from another hub whose number is no newer than the last one heard changes neither the
  -- database nor what is sent or notified, nor routes, marks, latencies or sequence numbers,
  -- whatever else it says: also when it announces a start.
  pub handle_ogm_old :
      (e : Engine) (last : ℕ)
      → origin_of msg ≢ cfg.self_id
      → lookup (origin_of msg) e.last_seq ≡ some last
      → msg.sequence_number ≤ last
      → SameButCounters msg addr e (handle_ogm cfg f now msg addr e)
  handle_ogm_old e last other heard old =
      rw (old_counted e last other heard old) (count_link-SameButCounters e)

  pub heard_after :
      (e : Engine)
      → origin_of msg ≢ cfg.self_id
      → (last : ℕ) × (lookup (origin_of msg) (handle_ogm cfg f now msg addr e).last_seq ≡ some last)
        × (msg.sequence_number ≤ last)
  heard_after e other = elim (Option-cases (lookup (origin_of msg) e.last_seq)) [
    | inl first ↦ (msg.sequence_number, new first refl, omega arith)
    | inr (last, heard) ↦ elim (Bool-cases (leb msg.sequence_number last)) [
      | inl old ↦ (
        last,
        handle_ogm-last_seq (origin_of msg) e ∙ rw heard (ground (arith, heard)),
        leb→le _ _ old,
      )
      | inr late ↦ (msg.sequence_number, new heard late, omega arith)
    ]
  ]
    where
      self : (origin_of msg == cfg.self_id) ≡ false
      self = ground (arith, nat_beq_iff (origin_of msg) cfg.self_id)

      own : (origin_of msg == origin_of msg) ≡ true
      own = (nat_beq_iff (origin_of msg) (origin_of msg)).1 refl

      new :
          {o : Option ℕ}
          → lookup (origin_of msg) e.last_seq ≡ o
          → is_old msg o ≡ false
          → lookup (origin_of msg) (handle_ogm cfg f now msg addr e).last_seq
            ≡ some msg.sequence_number
      new h late = handle_ogm-last_seq (origin_of msg) e ∙ rw (self, own, h) (rw late)

-- A packet that arrives: when, what it holds and where it came from.
pub record Packet : Type 0 where
  pub now : ℕ
  pub payload : Text
  pub addr : UdpAddr

unfoldable pub handle_packets : Codec → FloatOps → Config → List Packet → Engine → Engine
handle_packets c f cfg [] e = e
handle_packets c f cfg (p ∷ rest) e =
    handle_packets c f cfg rest (handle_packet c f cfg p.now p.payload p.addr e)

-- The number heard of a hub is `n` or more.
abbrev HeardFrom : NodeId → ℕ → Engine → Type 0
HeardFrom j n e = (last : ℕ) × (lookup j e.last_seq ≡ some last) × (n ≤ last)

module _ (f : FloatOps) (cfg : Config) where
  handle_ogm-HeardFrom :
      (now : ℕ) (msg : Ogm) (addr : UdpAddr) (j : NodeId) (n : ℕ) (e : Engine)
      → HeardFrom j n e
      → HeardFrom j n (handle_ogm cfg f now msg addr e)
  handle_ogm-HeardFrom now msg addr j n e (last, heard, enough) =
      elim (Bool-cases (origin_of msg == j && is_news f cfg now msg addr e)) [
        | inr not_it ↦ (last, handle_ogm-last_seq f cfg now msg addr j e ∙ rw not_it heard, enough)
        | inl it ↦
            let same : origin_of msg ≡ j = (nat_beq_iff (origin_of msg) j).0 (ground (arith, it)) in
            let fits : leb msg.sequence_number last ≡ true → n ≤ msg.sequence_number =
              λ h. ground (arith, it, same, heard, h) in
            (
              msg.sequence_number,
              handle_ogm-last_seq f cfg now msg addr j e ∙ rw it refl,
              elim (Bool-cases (leb msg.sequence_number last)) [
                | inl old ↦ fits old
                | inr new ↦ ground (arith, new, enough)
              ],
            )
      ]

  handle_hello-last_seq :
      (now : ℕ) (h : Hello) (addr : UdpAddr) (e : Engine)
      → (handle_hello now h addr e).last_seq ≡ e.last_seq
  unfolding handle_hello
  handle_hello-last_seq now h addr e = elim (Option-cases (lookup addr.text e.pending_hello)) [
    | inl none_sent ↦ rw none_sent refl
    | inr (at, sent) ↦ rw sent refl
  ]

  module _ (c : Codec) (addr : UdpAddr) (j : NodeId) (n : ℕ) where
    try_hello-HeardFrom :
        (now : ℕ) (o : Option Hello) (e : Engine)
        → HeardFrom j n e
        → HeardFrom j n (try_hello c f cfg now o addr e)
    unfolding try_hello
    try_hello-HeardFrom now none e heard = heard
    try_hello-HeardFrom now (some h) e heard =
        if_elim (HeardFrom j n) (h.node_id.size == 32)
          (rw (handle_hello-last_seq now h addr e) heard) heard

    try_ogm-HeardFrom :
        (now : ℕ) (payload : Text) (o : Option Ogm) (e : Engine)
        → HeardFrom j n e
        → HeardFrom j n (try_ogm c f cfg now payload o addr e)
    unfolding try_ogm
    try_ogm-HeardFrom now payload none e heard =
        try_hello-HeardFrom now (c.parse_hello payload) e heard
    try_ogm-HeardFrom now payload (some msg) e heard =
        if_elim (HeardFrom j n) (msg.node_id.size == 32)
          (handle_ogm-HeardFrom now msg addr j n e heard)
          (try_hello-HeardFrom now (c.parse_hello payload) e heard)

  handle_packets-HeardFrom :
      (c : Codec) (j : NodeId) (n : ℕ) (packets : List Packet) (e : Engine)
      → HeardFrom j n e
      → HeardFrom j n (handle_packets c f cfg packets e)
  unfolding handle_packets handle_packet
  handle_packets-HeardFrom c j n [] e heard = heard
  handle_packets-HeardFrom c j n (p ∷ rest) e heard =
      handle_packets-HeardFrom c j n rest (handle_packet c f cfg p.now p.payload p.addr e)
        (try_ogm-HeardFrom c p.addr j n p.now p.payload (c.parse_ogm p.payload) e heard)

-- Flooding ends: after a message of another hub was handled, and whatever packets were handled since,
-- the same message heard again, at any time and from any neighbour, only counts one more message of
-- the neighbour that passed it on and, if it is direct, names the address it came from. It changes no
-- table, no route, alternate, mark, latency, sequence number or hello that waits, and no packet is
-- sent and no handler called.
pub handle_ogm_again :
    (c : Codec) (f : FloatOps) (cfg : Config) (now later : ℕ) (msg : Ogm) (addr other : UdpAddr)
    (between : List Packet) (e : Engine)
    → origin_of msg ≢ cfg.self_id
    → let e₁ = handle_packets c f cfg between (handle_ogm cfg f now msg addr e) in
      SameButCounters msg other e₁ (handle_ogm cfg f later msg other e₁)
handle_ogm_again c f cfg now later msg addr other between e foreign =
    let (last, heard, old) =
      handle_packets-HeardFrom f cfg c (origin_of msg) msg.sequence_number between
        (handle_ogm cfg f now msg addr e) (heard_after f cfg now msg addr e foreign) in
    handle_ogm_old f cfg later msg other _ last foreign heard old
