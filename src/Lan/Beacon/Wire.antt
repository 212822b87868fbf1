-- ===== src/Lan/Beacon/Wire.antt =====
-- Beacons are read back as they were written.
use quake_mesh.Base.{
  ◌≡◌, ◌≢◌, refl, sym, inl, inr, false, ◌||◌, some, [], ◌∷◌, ◌++◌, nat_beq, arith, Bool-cases,
  Option-cases, ◌==◌,
}
use quake_mesh.Base.Text.{Text, text_eq}
use quake_mesh.Lan.Beacon.{Json, Message, accept, decode, decoded, encode, prefix, with_version}

decode-prefix :
    (json : Json) (body : Text)
    → body ≢ []
    → decode json (prefix ++ body) ≡ accept (json.unmarshal body)
unfolding decode
decode-prefix json [] full = absurd (full refl)
decode-prefix json (x ∷ rest) full = refl

with_version-kind : (m : Message) → (with_version m).kind ≡ m.kind
with_version-kind m = elim (Bool-cases (nat_beq m.v 0)) [
  | inl unset ↦ rw unset refl
  | inr set ↦ rw set refl
]

with_version-id : (m : Message) → (with_version m).node_id ≡ m.node_id
with_version-id m = elim (Bool-cases (nat_beq m.v 0)) [
  | inl unset ↦ rw unset refl
  | inr set ↦ rw set refl
]

encode-parts :
    (json : Json) (m : Message) {payload : Text}
    → encode json m ≡ some payload
    → ((m.kind == []) || (m.node_id == []) ≡ false)
      × ((body : Text) × (json.marshal (with_version m) ≡ some body) × (prefix ++ body ≡ payload))
unfolding encode
encode-parts json m wrote = elim (Bool-cases ((m.kind == []) || (m.node_id == []))) [
  | inl bare ↦ absurd (ground (arith, bare, wrote))
  | inr named ↦ elim (Option-cases (json.marshal (with_version m))) [
    | inl broken ↦ absurd (ground (arith, named, broken, wrote))
    | inr (body, made) ↦ (named, (body, made, ground (arith, named, made, wrote)))
  ]
]

-- Where JSON reads back what it wrote for a message and does not write an empty text for it, the
-- beacon that encodes the message is decoded as it, with the version 1 in place of none.
pub decode-encode :
    (json : Json) (m : Message) (payload : Text)
    → ((t : Text)
        → json.marshal (with_version m) ≡ some t
        → json.unmarshal t ≡ some (with_version m))
    → json.marshal (with_version m) ≢ some []
    → encode json m ≡ some payload
    → decode json payload ≡ decoded (with_version m)
decode-encode json m payload reads writes wrote =
    let parts = encode-parts json m wrote in
    let (body, made, whole) = parts.1 in
    let full : body ≢ [] = λ empty. writes (rw empty at made) in
    rw (sym whole) (
      rw (decode-prefix json body full, reads body made)
        (rw (with_version-kind m, with_version-id m, parts.0) refl))
