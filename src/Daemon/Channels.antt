-- ===== src/Daemon/Channels.antt =====
-- What the channels of a topic hold.
use quake_mesh.Base.{
  ◌≡◌, refl, ap, ◌∙◌, inl, inr, ℕ, zero, suc, ◌&&◌, Bool, true, false, Option, none, some, List, [],
  ◌∷◌, ◌++◌, length, ltb, Bool-cases, nat_eq, nat_beq_iff, ◌==◌, if◌then◌else◌,
}
use quake_mesh.Base.Text.{Text, text_eq, text_beq_refl}
use quake_mesh.Base.Map.{lookup, insert, erase, lookup-insert, lookup-erase}
use quake_mesh.Storage.{NodeId}
use quake_mesh.Daemon.{
  Codec, Config, Channel, Session, Server, Request, Response, accepted, is_get, is_post, notify,
  Notice, sos_alert_published, no_content, session_from_request,
}
use quake_mesh.Daemon.Mail.{deliver_local, handle_receive, inbox_of, receive, take_first}
use quake_mesh.Daemon.Topics.{
  PublishBody, Waiting, Wake, taken, timed_out, gone, broadcast_topic, buffer_of, buffered,
  channel_capacity, offer, offer_all, subscribers, take_payload, end_subscribe, unsubscribe, sos,
  publish_payload, publish_body, publish, handle_publish,
}

-- A payload pushed `n` times, as far as there is room.
abbrev pub fill : ℕ → Text → List Text → List Text
fill zero p q = q
fill (suc n) p q = fill n p (if ltb (length q) channel_capacity then q ++ p ∷ [] else q)

abbrev pub is_channel : Channel → Text × Channel → Bool
is_channel ch entry = entry.1 == ch

-- How many subscriptions have the channel.
abbrev pub uses : Channel → List (Text × Channel) → ℕ
uses ch [] = 0
uses ch (entry ∷ subs) = let rest = uses ch subs in if entry.1 == ch then suc rest else rest

buffer_of-offer :
    (p : Text) (c ch : Channel) (s : Server)
    → buffer_of ch (offer p c s) ≡ (if c == ch then fill 1 p (buffer_of ch s) else buffer_of ch s)
unfolding offer
buffer_of-offer p c ch s = elim (Bool-cases (c == ch)) [
  | inr other ↦ rw other (elim (Bool-cases (ltb (length (buffer_of c s)) channel_capacity)) [
    | inl room ↦
        rw room (rw (lookup-insert c ch (buffer_of c s ++ p ∷ []) s.buffers) (rw other refl))
    | inr full ↦ rw full refl
  ])
  | inl own ↦
      let same : c ≡ ch = (nat_beq_iff c ch).0 own in
      rw own (
        rw same (elim (Bool-cases (ltb (length (buffer_of ch s)) channel_capacity)) [
          | inl room ↦ rw room (
              rw (lookup-insert ch ch (buffer_of ch s ++ p ∷ []) s.buffers)
                (rw ((nat_beq_iff ch ch).1 refl) refl))
          | inr full ↦ rw full refl
        ]))
]

buffer_of-offer_all :
    (p : Text) (subs : List (Text × Channel)) (ch : Channel) (s : Server)
    → buffer_of ch (offer_all p subs s) ≡ fill (uses ch subs) p (buffer_of ch s)
unfolding offer_all
buffer_of-offer_all p [] ch s = refl
buffer_of-offer_all p (entry ∷ rest) ch s = elim (Bool-cases (entry.1 == ch)) [
  | inl own ↦
      buffer_of-offer_all p rest ch (offer p entry.1 s)
      ∙ rw (buffer_of-offer p entry.1 ch s) (rw own refl)
  | inr other ↦
      buffer_of-offer_all p rest ch (offer p entry.1 s)
      ∙ rw (buffer_of-offer p entry.1 ch s) (rw other refl)
]

notify-buffers : (b : Bool) (n : Notice) (s : Server) → (notify b n s).buffers ≡ s.buffers
notify-buffers true n s = refl
notify-buffers false n s = refl

module _ (codec : Codec) (cfg : Config) where
  publish_payload-buffers :
      (sess : Session) (topic payload : Text) (s : Server) (ch : Channel)
      → buffer_of ch (publish_payload codec cfg sess topic (some payload) s).1
        ≡ fill (uses ch (subscribers topic s)) payload (buffer_of ch s)
  unfolding publish_payload broadcast_topic
  publish_payload-buffers sess topic payload s ch =
      ap (λ m. buffered (lookup ch m))
        (notify-buffers (cfg.has_notifier && (topic == sos))
          (sos_alert_published sess.node_id sess.app_id topic payload)
          (offer_all payload (subscribers topic s) s))
      ∙ buffer_of-offer_all payload (subscribers topic s) ch s

  -- A POST of a session that publishes a payload under a topic that is not empty is accepted. It puts
  -- the payload at the end of what waits in a channel once for each subscription to the topic that
  -- has the channel, except where the channel is full, and leaves all other channels as they were.
  pub handle_publish-buffers :
      (r : Request) (sess : Session) (body : PublishBody) (payload : Text) (s : Server)
      (ch : Channel)
      → is_post r.method ≡ true
      → session_from_request r s ≡ some sess
      → body.topic == [] ≡ false
      → codec.decode_base64 body.payload_b64 ≡ some payload
      → ((handle_publish codec cfg r (some body) s).0 ≡ accepted)
        × (buffer_of ch (handle_publish codec cfg r (some body) s).1
            ≡ fill (uses ch (subscribers body.topic s)) payload (buffer_of ch s))
  unfolding handle_publish publish publish_body publish_payload
  handle_publish-buffers r sess body payload s ch posted known named decodes =
      rw (posted, known)
        (rw (named, decodes) (refl, publish_payload-buffers sess body.topic payload s ch))

unsubscribed :
    (w : Waiting) (s : Server)
    → lookup w.session.token (subscribers w.topic (unsubscribe w s)) ≡ none
unfolding unsubscribe
unsubscribed w s =
    rw
      (
        lookup-insert w.topic w.topic (erase w.session.token (subscribers w.topic s)) s.topics,
        text_beq_refl w.topic,
        lookup-erase w.session.token w.session.token (subscribers w.topic s),
        text_beq_refl w.session.token,
      )
      refl

abbrev Forgets : Waiting → Option (Response × Server) → Type 0
Forgets w none = Unit
Forgets w (some x) = lookup w.session.token (subscribers w.topic x.1) ≡ none

take_payload-Forgets :
    (codec : Codec) (w : Waiting) (q : List Text) (s : Server)
    → Forgets w (take_payload codec w q s)
unfolding take_payload
take_payload-Forgets codec w [] s = tt
take_payload-Forgets codec w (p ∷ q) s =
    unsubscribed w (record s { buffers = insert w.channel q s.buffers })

end_subscribe-Forgets :
    (codec : Codec) (w : Waiting) (wake : Wake) (s : Server)
    → Forgets w (end_subscribe codec w wake s)
unfolding end_subscribe
end_subscribe-Forgets codec w taken s = take_payload-Forgets codec w (buffer_of w.channel s) s
end_subscribe-Forgets codec w timed_out s = unsubscribed w s
end_subscribe-Forgets codec w gone s = unsubscribed w s

-- A subscription that ends leaves its session without one to its topic, also where the session has
-- subscribed to the topic again in the meantime and that later subscription still waits.
pub end_subscribe-forgets :
    (codec : Codec) (w : Waiting) (wake : Wake) (s s' : Server) (r : Response)
    → end_subscribe codec w wake s ≡ some (r, s')
    → lookup w.session.token (subscribers w.topic s') ≡ none
end_subscribe-forgets codec w wake s s' r says = rw says at (end_subscribe-Forgets codec w wake s)

-- An empty payload that is delivered to a node with an empty inbox is answered to the next receive
-- of an app of the node as if there were none, and is gone from the inbox.
pub handle_receive-deliver_local_empty :
    (codec : Codec) (cfg : Config) (r : Request) (sess : Session) (src : NodeId) (s : Server)
    → is_get r.method ≡ true
    → session_from_request r s ≡ some sess
    → sess.node_id ≡ cfg.self_id
    → inbox_of cfg.self_id s ≡ []
    → let s' = (deliver_local cfg src cfg.self_id [] s).1 in
      (inbox_of cfg.self_id s' ≡ none ∷ [])
      × ((handle_receive codec r s').0 ≡ no_content)
      × (inbox_of cfg.self_id (handle_receive codec r s').1 ≡ [])
unfolding handle_receive receive take_first deliver_local session_from_request
handle_receive-deliver_local_empty codec cfg r sess src s got known own bare =
    let home = (nat_beq_iff cfg.self_id cfg.self_id).1 refl in
    rw (home, got)
      (rw (known, own, bare)
        (rw (lookup-insert cfg.self_id cfg.self_id (none ∷ []) s.inbox) (
          rw home (
            refl,
            refl,
            (rw (lookup-insert cfg.self_id cfg.self_id [] (insert cfg.self_id (none ∷ []) s.inbox))
                (rw home refl)),
          ))))
