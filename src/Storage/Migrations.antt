-- ===== src/Storage/Migrations.antt =====
-- core/storage/storage.go: bringing a database to the current schema. What a script does to the
-- contents of the database is a parameter, and `none` where it fails.
pub mod Resumed
use quake_mesh.Base.{
  ℕ, suc, Bool, true, false, ◌||◌, Option, none, some, List, [], ◌∷◌, leb, if◌then◌else◌,
}

pub record Migration (S : Type 0) : Type 0 where
  pub version : ℕ
  pub script : S → Option S

-- Statement number `done` fails if `faults done` says so; `user_version` is the pragma.
pub record Disk (S : Type 0) : Type 0 where
  pub content : S
  pub user_version : ℕ
  pub faults : ℕ → Bool
  pub done : ℕ

module _ {S : Type 0} where
  abbrev pub tick : Disk S → Disk S
  tick d = record d { done = suc d.done }

  -- Whether the next statement fails.
  abbrev pub falters : Disk S → Bool
  falters d = d.faults d.done

  -- The pragma, then the commit, with the contents that the script made.
  unfoldable pub set_version : Migration S → S → Disk S → Bool × Disk S
  set_version m new d =
      if falters d
      then (false, tick d)
      else if falters (tick d)
      then (false, tick (tick d))
      else (true, record (tick (tick d)) { content = new; user_version = m.version })

  unfoldable pub run_script : Migration S → Option S → Disk S → Bool × Disk S
  unfolding set_version
  run_script m none d = (false, tick d)
  run_script m (some new) d = if falters d then (false, tick d) else set_version m new (tick d)

  -- Begin, script, pragma and commit; what fails is rolled back.
  unfoldable pub apply_migration : Migration S → Disk S → Bool × Disk S
  unfolding run_script
  apply_migration m d =
      if falters d then (false, tick d) else run_script m (m.script d.content) (tick d)

  -- The loop, which stops at the first error; `current` is read once, before it.
  unfoldable pub apply_pending : ℕ → List (Migration S) → Disk S → Bool × Disk S
  apply_pending current [] d = (true, d)
  apply_pending current (m ∷ ms) d =
      let skipped = apply_pending current ms d in
      let applied = apply_migration m d in
      let rest = apply_pending current ms applied.1 in
      if leb m.version current then skipped else if applied.0 then rest else (false, applied.1)

  unfoldable pub schema_version : Disk S → Option ℕ × Disk S
  schema_version d = if falters d then (none, tick d) else (some d.user_version, tick d)

  abbrev pub migrate_from : List (Migration S) → Option ℕ × Disk S → Bool × Disk S
  migrate_from ms (none, d) = (false, d)
  migrate_from ms (some current, d) = apply_pending current ms d

  unfoldable pub migrate : List (Migration S) → Disk S → Bool × Disk S
  unfolding apply_pending schema_version
  migrate ms d = migrate_from ms (schema_version d)
