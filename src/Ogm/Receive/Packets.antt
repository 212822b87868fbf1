-- ===== src/Ogm/Receive/Packets.antt =====
-- Telling the two messages apart. Both have the sender's id as field 1 and a varint as field 2, so
-- that a hello parses as an originator message, which `handlePacket` tries first.
use quake_mesh.Base.{◌≡◌, ◌≢◌, ◌∙◌, ℕ, ◌+◌, ◌%◌, ◌≤◌, false, none, some, nat_eq, arith}
use quake_mesh.Base.Text.{slice_of}
use quake_mesh.Base.Float.{FloatOps}
use quake_mesh.Storage.{epoch}
use quake_mesh.Ogm.State.{Ogm, Hello, UdpAddr, Config, Engine, uint64}
use quake_mesh.Ogm.Receive.{Codec, origin_of, handle_ogm, handle_packet}
use quake_mesh.Ogm.Receive.Sequence.{SameButCounters, heard_after, handle_ogm_old}

-- The originator message with a hello's bytes: the time is the sequence number, as `uint64(int64)`
-- makes it, and every absent field has its zero value.
abbrev pub as_ogm : Hello → Ogm
as_ogm h = record {
  node_id = h.node_id;
  sequence_number = (h.sent_at_unix_ms + epoch) % uint64;
  ttl = 0;
  is_startup_announce = false;
  last_hop_id = slice_of 0 0;
  hop_count = 0;
  lat = none;
  lon = none;
  location_accuracy_m = none;
  location_at_unix_ms = none;
}

-- Protobuf parses by field number and wire type alone.
abbrev pub ParsesByFields : Codec → Type 0
ParsesByFields c = (h : Hello) → c.parse_ogm (c.print_hello h) ≡ some (as_ogm h)

module _ (c : Codec) (by_fields : ParsesByFields c) (f : FloatOps) (cfg : Config) where
  -- A hello of a hub is handled as an originator message of that hub.
  pub hello_taken_as_ogm :
      (now : ℕ) (h : Hello) (addr : UdpAddr) (e : Engine)
      → h.node_id.size ≡ 32
      → handle_packet c f cfg now (c.print_hello h) addr e ≡ handle_ogm cfg f now (as_ogm h) addr e
  unfolding handle_packet
  hello_taken_as_ogm now h addr e size = rw (by_fields h) (ground (arith, size))

  -- So after a hello of another hub its originator messages are taken for old ones, until their
  -- numbers pass the hello's time in milliseconds: the first of them changes nothing but the count of
  -- its link and, if it is direct, the name of the address it came from.
  pub hello_silences :
      (now later : ℕ) (h : Hello) (msg : Ogm) (addr other : UdpAddr) (e : Engine)
      → h.node_id.size ≡ 32
      → origin_of msg ≡ origin_of (as_ogm h)
      → origin_of msg ≢ cfg.self_id
      → msg.sequence_number ≤ (as_ogm h).sequence_number
      → let e₁ = handle_packet c f cfg now (c.print_hello h) addr e in
        SameButCounters msg other e₁ (handle_ogm cfg f later msg other e₁)
  hello_silences now later h msg addr other e size same foreign low =
      let foreign' : origin_of (as_ogm h) ≢ cfg.self_id = (λ own. foreign (same ∙ own)) in
      let (last, known, old) = heard_after f cfg now (as_ogm h) addr e foreign' in
      rw (hello_taken_as_ogm now h addr e size) (
        handle_ogm_old f cfg later msg other (handle_ogm cfg f now (as_ogm h) addr e) last foreign
          (rw same known) (omega arith))
