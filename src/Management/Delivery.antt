-- ===== src/Management/Delivery.antt =====
-- What a connected monitor gets of the events that are published.
use mathlib.Core.List.{append_assoc, append-nil}
use quake_mesh.Base.{
  ◌≡◌, refl, ap, ◌∙◌, inl, inr, suc, ◌+◌, ◌≤◌, ◌<◌, Option, none, some, List, [], ◌∷◌, ◌++◌, length,
  length-append, lt→ltb, arith, Bool-cases, Option-cases, nat_eq, ◌==◌,
}
use quake_mesh.Base.Text.{Text}
use quake_mesh.Base.Map.{lookup}
use quake_mesh.Management.{
  Client, ManagementEvent, Server, client_capacity, publish, push, push_all,
}

-- Publishing one event after another.
unfoldable pub publish_all :
    (ManagementEvent → Option Text) → List ManagementEvent → Server → Server
publish_all marshal [] s = s
publish_all marshal (e ∷ events) s = publish_all marshal events (publish marshal 0 e s)

abbrev pub cons_payload : Option Text → List Text → List Text
cons_payload none rest = rest
cons_payload (some p) rest = p ∷ rest

-- The payloads of the events that can be marshalled.
abbrev pub payloads : (ManagementEvent → Option Text) → List ManagementEvent → List Text
payloads marshal [] = []
payloads marshal (e ∷ events) = cons_payload (marshal e) (payloads marshal events)

abbrev pub push_on : Text → Option (List Text) → Option (List Text)
push_on p none = none
push_on p (some q) = some (push p q)

lookup-push_all :
    (p : Text) (c : Client) (m : List (Client × List Text))
    → lookup c (push_all p m) ≡ push_on p (lookup c m)
unfolding lookup push_all
lookup-push_all p c [] = refl
lookup-push_all p c (entry ∷ rest) = elim (Bool-cases (entry.0 == c)) [
  | inl here ↦ rw here refl
  | inr further ↦ rw further (lookup-push_all p c rest)
]

push-room : (p : Text) (q : List Text) → length q < client_capacity → push p q ≡ q ++ p ∷ []
push-room p q room = rw (lt→ltb (length q) client_capacity room) refl

publish_broken :
    (marshal : ManagementEvent → Option Text) (e : ManagementEvent) (s : Server)
    → marshal e ≡ none
    → (publish marshal 0 e s).clients ≡ s.clients
unfolding publish
publish_broken marshal e s broken = rw broken refl

publish_made :
    (marshal : ManagementEvent → Option Text) (e : ManagementEvent) (s : Server) (p : Text)
    → marshal e ≡ some p
    → (publish marshal 0 e s).clients ≡ push_all p s.clients
unfolding publish
publish_made marshal e s p made = rw made refl

-- While a monitor is connected and the backlog of what it has not read yet fits its channel, every
-- event that can be marshalled is put into its channel, in the order in which they were published.
pub publish_all-queue :
    (marshal : ManagementEvent → Option Text) (events : List ManagementEvent) (c : Client)
    (q : List Text) (s : Server)
    → lookup c s.clients ≡ some q
    → length q + length (payloads marshal events) ≤ client_capacity
    → lookup c (publish_all marshal events s).clients ≡ some (q ++ payloads marshal events)
unfolding publish_all
publish_all-queue marshal [] c q s waits fits = rw (append-nil q) waits
publish_all-queue marshal (e ∷ events) c q s waits fits = elim (Option-cases (marshal e)) [
  | inl broken ↦ rw broken (
      publish_all-queue marshal events c q (publish marshal 0 e s)
        (rw (publish_broken marshal e s broken) waits) (rw broken at fits))
  | inr (p, made) ↦
      let more : length q + suc (length (payloads marshal events)) ≤ client_capacity =
        rw made at fits in
      let grown : lookup c (publish marshal 0 e s).clients ≡ some (q ++ p ∷ []) =
        rw (publish_made marshal e s p made) (
          rw (lookup-push_all p c s.clients, waits)
            (ap some (push-room p q (omega (arith, more))))) in
      let there =
        publish_all-queue marshal events c (q ++ p ∷ []) (publish marshal 0 e s) grown
          (rw (length-append q (p ∷ [])) (omega (arith, more))) in
      rw made (there ∙ ap some (append_assoc q (p ∷ []) (payloads marshal events)))
]
