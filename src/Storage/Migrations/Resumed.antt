-- ===== src/Storage/Migrations/Resumed.antt =====
-- Interrupted migrations can be run again.
use mathlib.Core.Path.{ap₂}
use quake_mesh.Base.{
  ◌≡◌, refl, sym, ap, ◌∙◌, ◌⊎◌, inl, inr, ℕ, ◌≤◌, ◌<◌, Bool, true, false, Option, none, some, List,
  [], ◌∷◌, leb, leb→le, le→leb, arith, Bool-cases, Option-cases, if◌then◌else◌, if_elim,
}
use quake_mesh.Storage.Migrations.{
  Disk, Migration, apply_migration, apply_pending, falters, migrate, run_script, schema_version,
  set_version, tick,
}

module _ {S : Type 0} where
  abbrev pub then_replay : Option S → (S → Option S) → Option S
  then_replay none k = none
  then_replay (some s) k = k s

  -- All scripts above a version, one after another, with nothing that fails in between.
  abbrev pub replay : ℕ → List (Migration S) → S → Option S
  replay v [] s = some s
  replay v (m ∷ ms) s =
      if leb m.version v then replay v ms s else then_replay (m.script s) (replay v ms)

  -- The versions go up, from above `v`.
  abbrev pub Above : ℕ → List (Migration S) → Type 0
  Above v [] = Unit
  Above v (m ∷ ms) = (v < m.version) × Above m.version ms

  -- A migration that fails changes nothing, and one that does not has run its script.
  unfoldable Applied : Migration S → Disk S → Bool × Disk S → Type 0
  Applied m d r =
      ((r.0 ≡ false) × (r.1.content ≡ d.content) × (r.1.user_version ≡ d.user_version))
      ⊎ ((r.0 ≡ true) × (m.script d.content ≡ some r.1.content) × (r.1.user_version ≡ m.version))

  run_script-Applied :
      (m : Migration S) (o : Option S) (d d' : Disk S)
      → m.script d.content ≡ o
      → d'.content ≡ d.content
      → d'.user_version ≡ d.user_version
      → Applied m d (run_script m o d')
  unfolding run_script set_version Applied
  run_script-Applied m none d d' ran same old = inl (refl, same, old)
  run_script-Applied m (some new) d d' ran same old =
      if_elim (Applied m d) (falters d') (inl (refl, same, old)) (
        if_elim (Applied m d) (falters (tick d')) (inl (refl, same, old)) (
          if_elim (Applied m d) (falters (tick (tick d'))) (inl (refl, same, old))
            (inr (refl, ran, refl))))

  apply_migration-Applied : (m : Migration S) (d : Disk S) → Applied m d (apply_migration m d)
  unfolding apply_migration Applied
  apply_migration-Applied m d =
      if_elim (Applied m d) (falters d) (inl (refl, refl, refl))
        (run_script-Applied m (m.script d.content) d (tick d) refl refl refl)

  -- Where all versions are above both, where the replay starts makes no difference.
  replay_higher :
      (v w : ℕ) (ms : List (Migration S)) (s : S)
      → v ≤ w
      → Above w ms
      → replay v ms s ≡ replay w ms s
  replay_higher v w [] s low above = refl
  replay_higher v w (m ∷ ms) s low (over, above) =
      let fresh_v : leb m.version v ≡ false = ground (arith, low, over) in
      let fresh_w : leb m.version w ≡ false = ground (arith, over) in
      rw (fresh_v, fresh_w)
        (elim (Option-cases (m.script s)) [
          | inl broken ↦ rw broken refl
          | inr (s', ran) ↦ rw ran (
              replay_higher v m.version ms s' (omega arith) above
              ∙ sym (replay_higher w m.version ms s' (omega arith) above))
        ])

  -- What is left to replay is the same after a run as before it, and nothing if it succeeded; the
  -- version never goes down.
  unfoldable pub Resumes : List (Migration S) → Disk S → Bool × Disk S → Type 0
  Resumes ms d r =
      (replay r.1.user_version ms r.1.content ≡ replay d.user_version ms d.content)
      × (d.user_version ≤ r.1.user_version)
      × (r.0 ≡ true → replay r.1.user_version ms r.1.content ≡ some r.1.content)

  -- One migration that ran before the others.
  step-Resumes :
      (m : Migration S) (ms : List (Migration S)) (d d1 : Disk S) (r : Bool × Disk S)
      → d.user_version < m.version
      → Above m.version ms
      → m.script d.content ≡ some d1.content
      → d1.user_version ≡ m.version
      → Resumes ms d1 r
      → Resumes (m ∷ ms) d r
  unfolding Resumes
  step-Resumes m ms d d1 r over above ran new (kept, up, all) =
      let fresh : leb m.version d.user_version ≡ false = ground (arith, over) in
      let passed : m.version ≤ r.1.user_version = rw (sym new) up in
      let old : leb m.version r.1.user_version ≡ true = le→leb m.version r.1.user_version passed in
      let same : replay d1.user_version ms d1.content ≡ replay d.user_version ms d1.content =
        ap (λ v. replay v ms d1.content) new
        ∙ sym (replay_higher d.user_version m.version ms d1.content (omega (arith, over)) above) in
      (rw (old, fresh, ran) (kept ∙ same), omega (arith, over, passed), λ did. rw old (all did))

  stopped-Resumes :
      (ms : List (Migration S)) (d d1 : Disk S)
      → d1.content ≡ d.content
      → d1.user_version ≡ d.user_version
      → Resumes ms d (false, d1)
  unfolding Resumes
  stopped-Resumes ms d d1 same old =
      (ap₂ (λ v s. replay v ms s) old same, rw old (omega arith), λ did. cc)

  nothing-Resumes : (d : Disk S) → Resumes [] d (true, d)
  unfolding Resumes
  nothing-Resumes d = (refl, omega arith, λ ran. refl)

  passed-Resumes :
      (m : Migration S) (ms : List (Migration S)) (d : Disk S) (r : Bool × Disk S)
      → m.version ≤ d.user_version
      → Resumes ms d r
      → Resumes (m ∷ ms) d r
  unfolding Resumes
  passed-Resumes m ms d r low (kept, higher, all) =
      let old : leb m.version d.user_version ≡ true = le→leb m.version d.user_version low in
      let passed : leb m.version r.1.user_version ≡ true =
        le→leb m.version r.1.user_version (omega (arith, low, higher)) in
      (rw (old, passed) kept, higher, λ did. rw passed (all did))

  apply_pending-none : (current : ℕ) (d : Disk S) → apply_pending current [] d ≡ (true, d)
  unfolding apply_pending
  apply_pending-none current d = refl

  module _ (current : ℕ) (m : Migration S) (ms : List (Migration S)) (d : Disk S) where
    apply_pending-old :
        leb m.version current ≡ true → apply_pending current (m ∷ ms) d ≡ apply_pending current ms d
    unfolding apply_pending
    apply_pending-old old = rw old refl

    apply_pending-failed :
        leb m.version current ≡ false
        → (apply_migration m d).0 ≡ false
        → apply_pending current (m ∷ ms) d ≡ (false, (apply_migration m d).1)
    unfolding apply_pending
    apply_pending-failed fresh failed = rw (fresh, failed) refl

    apply_pending-worked :
        leb m.version current ≡ false
        → (apply_migration m d).0 ≡ true
        → apply_pending current (m ∷ ms) d ≡ apply_pending current ms (apply_migration m d).1
    unfolding apply_pending
    apply_pending-worked fresh worked = rw (fresh, worked) refl

  apply_pending_higher :
      (current : ℕ) (ms : List (Migration S)) (d : Disk S)
      → current ≤ d.user_version
      → Above d.user_version ms
      → Resumes ms d (apply_pending current ms d)
  unfolding Applied
  apply_pending_higher current [] d low above =
      rw (apply_pending-none current d) (nothing-Resumes d)
  apply_pending_higher current (m ∷ ms) d low (over, above) =
      let fresh : leb m.version current ≡ false = ground (arith, low, over) in
      elim (apply_migration-Applied m d) [
        | inl (failed, same, old) ↦
            rw (apply_pending-failed current m ms d fresh failed)
              (stopped-Resumes (m ∷ ms) d (apply_migration m d).1 same old)
        | inr (worked, ran, new) ↦
            let d1 = (apply_migration m d).1 in
            rw (apply_pending-worked current m ms d fresh worked) (
              step-Resumes m ms d d1 (apply_pending current ms d1) over above ran new (
                apply_pending_higher current ms d1 (rw new (omega (arith, low, over)))
                  (rw new above)))
      ]

  -- The versions that are not above the current one are passed over.
  abbrev pub Ascending : List (Migration S) → Type 0
  Ascending [] = Unit
  Ascending (m ∷ ms) = Above m.version ms × Ascending ms

  apply_pending-Resumes :
      (ms : List (Migration S)) (d : Disk S)
      → Ascending ms
      → Resumes ms d (apply_pending d.user_version ms d)
  apply_pending-Resumes [] d up = rw (apply_pending-none d.user_version d) (nothing-Resumes d)
  apply_pending-Resumes (m ∷ ms) d (above, up) = elim (Bool-cases (leb m.version d.user_version)) [
    | inr fresh ↦
        apply_pending_higher d.user_version (m ∷ ms) d (omega arith) (ground (arith, fresh), above)
    | inl old ↦ rw (apply_pending-old d.user_version m ms d old) (
        passed-Resumes m ms d (apply_pending d.user_version ms d)
          (leb→le m.version d.user_version old) (apply_pending-Resumes ms d up))
  ]

  -- Whatever fails while a database is migrated, with migrations in the order of their versions, what
  -- there is left to run of the scripts afterwards gives the same contents as what there was before,
  -- the version has not gone down, and where the run succeeds nothing is left: a run that succeeds
  -- after any number of interrupted ones ends in what the pending scripts make of the first contents.
  pub migrate-Resumes :
      (ms : List (Migration S)) (d : Disk S) → Ascending ms → Resumes ms d (migrate ms d)
  unfolding migrate schema_version Resumes
  migrate-Resumes ms d up = elim (Bool-cases (falters d)) [
    | inl down ↦ rw down (refl, omega arith, λ did. cc)
    | inr fine ↦ rw fine (apply_pending-Resumes ms (tick d) up)
  ]
