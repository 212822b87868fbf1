-- ===== src/Ogm/Choice/Alternates.antt =====
-- The alternates of a destination: at most three, each over another neighbour.
use quake_mesh.Base.{
  ◌≡◌, refl, ℕ, zero, suc, ◌-◌, ◌≤◌, Bool, false, ◌||◌, List, [], ◌∷◌, ◌++◌, length, drop,
  length-drop, any, inl, inr, Bool-cases, ltb, ltb→lt, ◌==◌, nat_eq, nat_beq_iff, if_elim, arith,
}
use quake_mesh.Base.Map.{lookup, lookup-insert}
use quake_mesh.Storage.{NodeId, Route}
use quake_mesh.Ogm.State.{Engine}
use quake_mesh.Ogm.Choice.{or_empty, last_three, store_alternate}

abbrev pub uses : Route → Route → Bool
uses r a = a.next_hop == r.next_hop

-- No two routes have the same next hop.
abbrev pub Distinct : List Route → Type 0
Distinct [] = Unit
Distinct (r ∷ l) = (any (uses r) l ≡ false) × Distinct l

pub record Kept (l : List Route) : Type 0 where
  pub few : length l ≤ 3
  pub distinct : Distinct l

abbrev pub alternates_of : NodeId → Engine → List Route
alternates_of id e = or_empty (lookup id e.alternates)

any-append :
    (p : Route → Bool) (l : List Route) (r : Route) → any p (l ++ r ∷ []) ≡ (any p l || p r)
any-append p [] r = ground arith
any-append p (x ∷ l) r = ground (arith, any-append p l r)

Distinct-append :
    (l : List Route) (r : Route) → any (uses r) l ≡ false → Distinct l → Distinct (l ++ r ∷ [])
Distinct-append [] r h d = (refl, tt)
Distinct-append (x ∷ l) r h d = (
  ground (
    arith,
    any-append (uses x) l r,
    nat_beq_iff x.next_hop r.next_hop,
    nat_beq_iff r.next_hop x.next_hop,
  ),
  Distinct-append l r (ground arith) d.1,
)

Distinct-drop : (n : ℕ) (l : List Route) → Distinct l → Distinct (drop n l)
Distinct-drop zero l d = d
Distinct-drop (suc n) [] d = tt
Distinct-drop (suc n) (x ∷ l) d = Distinct-drop n l d.1

last_three-Kept : (l : List Route) → Distinct l → Kept (last_three l)
unfolding last_three
last_three-Kept l d = elim (Bool-cases (ltb 3 (length l))) [
  | inl many ↦ rw many (record {
    few = omega (arith, length-drop (length l - 3) l, ltb→lt 3 (length l) many);
    distinct = Distinct-drop (length l - 3) l d;
  })
  | inr few ↦ rw few (record { few = ground arith; distinct = d })
]

-- The invariant of the engine's alternates.
abbrev pub AllKept : Engine → Type 0
AllKept e = (id : NodeId) → Kept (alternates_of id e)

-- Keeping a route as an alternate keeps every destination's alternates at most three, over
-- different neighbours.
pub store_alternate-AllKept : (r : Route) (e : Engine) → AllKept e → AllKept (store_alternate r e)
unfolding store_alternate
store_alternate-AllKept r e all id =
    elim (Bool-cases (any (uses r) (alternates_of r.destination e))) [
      | inl known ↦ rw known (all id)
      | inr new ↦
          rw (new, lookup-insert r.destination id _ e.alternates)
            (if_elim (λ o. Kept (or_empty o)) (r.destination == id)
              (last_three-Kept _ (Distinct-append _ r new (all r.destination).distinct)) (all id))
    ]
