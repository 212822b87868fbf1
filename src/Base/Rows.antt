-- ===== src/Base/Rows.antt =====
-- SQL tables as lists of rows: the statements that the stores issue, and their laws.
use Prim.Native.Nat.{ℕ, suc, ◌+◌, ◌<◌, max}
use mathlib.Core.Path.{◌≡◌, refl}
use mathlib.Core.Bool.{Bool, true, false}
use mathlib.Core.Logic.{inl, inr}
use mathlib.Core.Option
use mathlib.Core.Option.{Option, none, some}
use mathlib.Core.List.{List, [], ◌∷◌, ◌++◌}
use native.Mathlib.Omega.{arith}
use quake_mesh.Base.Tests.{Eq, ◌==◌, Option-cases, if◌then◌else◌}
use quake_mesh.Base.Lists.{length}

module _ {ℓ} {R : Type ℓ} where
  -- `QueryRow(SELECT … WHERE p)`; `none` is `sql.ErrNoRows`.
  unfoldable pub select_first : (R → Bool) → List R → Option R
  select_first p [] = none
  select_first p (r ∷ t) = if p r then some r else select_first p t

  -- `SELECT … WHERE p`.
  unfoldable pub select_where : (R → Bool) → List R → List R
  select_where p [] = []
  select_where p (r ∷ t) = let rest = select_where p t in if p r then r ∷ rest else rest

  -- `SELECT COUNT(*) … WHERE p`.
  unfoldable pub count_where : (R → Bool) → List R → ℕ
  count_where p [] = 0
  count_where p (r ∷ t) = let rest = count_where p t in if p r then suc rest else rest

  -- `UPDATE … SET f WHERE p`.
  unfoldable pub update_where : (R → Bool) → (R → R) → List R → List R
  update_where p f [] = []
  update_where p f (r ∷ t) = (if p r then f r else r) ∷ update_where p f t

  -- `DELETE … WHERE p`.
  unfoldable pub delete_where : (R → Bool) → List R → List R
  delete_where p [] = []
  delete_where p (r ∷ t) = let rest = delete_where p t in if p r then rest else r ∷ rest

  -- `INSERT`, where no unique key stands in the way.
  unfoldable pub insert_row : R → List R → List R
  insert_row r t = t ++ r ∷ []

  abbrev pub or_else : Option R → Option R → Option R
  or_else none d = d
  or_else (some r) d = some r

  -- `INSERT … ON CONFLICT (key) DO UPDATE SET f`, where `p` tests for the key of `r`.
  unfoldable pub upsert_row : (R → Bool) → (R → R) → R → List R → List R
  upsert_row p f r t = elim (select_first p t) [
    | none ↦ insert_row r t
    | some _ ↦ update_where p f t
  ]

  -- The row that an upsert leaves at its key.
  abbrev pub written : (R → R) → R → Option R → R
  written f r none = r
  written f r (some x) = f x

  pub select_first-insert_row :
      (p : R → Bool) (r : R) (t : List R)
      → select_first p (insert_row r t) ≡ or_else (select_first p t) (if p r then some r else none)
  unfolding select_first insert_row
  select_first-insert_row p r [] = refl
  select_first-insert_row p r (x ∷ t) = ground (arith, select_first-insert_row p r t)

  abbrev pub on_row : (R → Bool) → (R → R) → Option R → Option R
  on_row p f = Option.map (λ r. if p r then f r else r)

  -- An update that keeps what `q` tests changes the selected row alone.
  pub select_first-update_where :
      (q p : R → Bool) (f : R → R)
      → ((r : R) → q (f r) ≡ q r)
      → (t : List R) → select_first q (update_where p f t) ≡ on_row p f (select_first q t)
  unfolding select_first update_where
  select_first-update_where q p f keep [] = refl
  select_first-update_where q p f keep (r ∷ t) =
      ground (arith, keep r, select_first-update_where q p f keep t)

  pub select_first-passes :
      (p : R → Bool) (t : List R) (r : R) → select_first p t ≡ some r → p r ≡ true
  unfolding select_first
  select_first-passes p [] r h = cc
  select_first-passes p (x ∷ t) r h = ground (arith, select_first-passes p t r)

  pub length-update_where :
      (p : R → Bool) (f : R → R) (t : List R) → length (update_where p f t) ≡ length t
  unfolding update_where
  length-update_where p f [] = refl
  length-update_where p f (r ∷ t) = omega (arith, length-update_where p f t)

  -- Nothing that the deletion's test holds of is left.
  pub count_where-delete_where : (p : R → Bool) (t : List R) → count_where p (delete_where p t) ≡ 0
  unfolding count_where delete_where
  count_where-delete_where p [] = refl
  count_where-delete_where p (r ∷ t) = ground (arith, count_where-delete_where p t)

  pub delete_where-length :
      (p : R → Bool) (t : List R) → length (delete_where p t) + count_where p t ≡ length t
  unfolding count_where delete_where
  delete_where-length p [] = refl
  delete_where-length p (r ∷ t) = ground (arith, delete_where-length p t)

-- Rows found by a key.
module _ {ℓ κ} {R : Type ℓ} {K : Type κ} ⦃e : Eq K⦄ (key : R → K) where
  -- `WHERE key = k`.
  abbrev pub keyed : K → R → Bool
  keyed k r = key r == k

  abbrev pub row_at : K → List R → Option R
  row_at k = select_first (keyed k)

  pub row_at-insert_row :
      (j : K) (r : R) (t : List R)
      → row_at j (insert_row r t) ≡ or_else (row_at j t) (if key r == j then some r else none)
  row_at-insert_row j r t = select_first-insert_row (keyed j) r t

  pub row_at-update_where :
      (k j : K) (f : R → R)
      → ((r : R) → key (f r) ≡ key r)
      → (t : List R)
      → row_at j (update_where (keyed k) f t)
        ≡ (if k == j then Option.map f (row_at j t) else row_at j t)
  unfolding select_first update_where
  row_at-update_where k j f keep [] = ground arith
  row_at-update_where k j f keep (r ∷ t) = ground (
    arith,
    keep r,
    e.beq_iff (key r) k,
    e.beq_iff (key r) j,
    e.beq_iff k j,
    row_at-update_where k j f keep t,
  )

  pub row_at-key : (k : K) (t : List R) (r : R) → row_at k t ≡ some r → key r ≡ k
  row_at-key k t r h = (e.beq_iff (key r) k).0 (select_first-passes (keyed k) t r h)

  -- A write of the row with key `k`, whether it was there or not, is a write at that key alone.
  pub row_at-upsert_row :
      (k j : K) (f : R → R) (r : R)
      → key r ≡ k
      → ((x : R) → key (f x) ≡ key x)
      → (t : List R)
      → row_at j (upsert_row (keyed k) f r t)
        ≡ (if k == j then some (written f r (row_at k t)) else row_at j t)
  unfolding upsert_row
  row_at-upsert_row k j f r own keep t = elim (Option-cases (row_at k t)) [
    | inl absent ↦
        rw (absent, upsert_row)
          (ground (arith, absent, own, e.beq_iff k j, row_at-insert_row j r t))
    | inr (x, found) ↦
        rw (found, upsert_row)
          (ground (arith, found, e.beq_iff k j, row_at-update_where k j f keep t))
  ]

  -- A deletion of the rows that `p` holds of, where `p` reads the key alone.
  pub row_at-delete_where :
      (p : R → Bool) (j : K) (t : List R)
      → ((r : R) → key r ≡ j → p r ≡ false)
      → row_at j (delete_where p t) ≡ row_at j t
  unfolding select_first delete_where
  row_at-delete_where p j [] keep = refl
  row_at-delete_where p j (r ∷ t) keep =
      ground (arith, keep r, e.beq_iff (key r) j, row_at-delete_where p j t keep)

module _ {ℓ} {R : Type ℓ} where
  pub update_where-unmatched :
      (p : R → Bool) (f : R → R) (t : List R) → select_where p t ≡ [] → update_where p f t ≡ t
  unfolding select_where update_where
  update_where-unmatched p f [] h = refl
  update_where-unmatched p f (r ∷ t) h = ground (arith, update_where-unmatched p f t)

  -- An update that makes its own test fail leaves no row that passes.
  pub count_where-update_where :
      (p : R → Bool) (f : R → R)
      → ((r : R) → p (f r) ≡ false)
      → (t : List R) → count_where p (update_where p f t) ≡ 0
  unfolding count_where update_where
  count_where-update_where p f gone [] = refl
  count_where-update_where p f gone (r ∷ t) =
      ground (arith, gone r, count_where-update_where p f gone t)

  pub length-select_where :
      (p : R → Bool) (t : List R) → length (select_where p t) ≡ count_where p t
  unfolding select_where count_where
  length-select_where p [] = refl
  length-select_where p (r ∷ t) = ground (arith, length-select_where p t)

  -- Every row that a deletion leaves fails its test.
  pub select_first-delete_where :
      (q p : R → Bool) (t : List R) (r : R)
      → select_first q (delete_where p t) ≡ some r
      → p r ≡ false
  unfolding select_first delete_where
  select_first-delete_where q p [] r h = cc
  select_first-delete_where q p (x ∷ t) r h = ground (arith, select_first-delete_where q p t r)

  -- A selected row that fails the deletion's test is still the one selected.
  pub select_first-survives :
      (q p : R → Bool) (t : List R) (r : R)
      → select_first q t ≡ some r
      → p r ≡ false
      → select_first q (delete_where p t) ≡ some r
  unfolding select_first delete_where
  select_first-survives q p [] r h keep = cc
  select_first-survives q p (x ∷ t) r h keep = ground (arith, select_first-survives q p t r)

-- Counts.
module _ {ℓ} {R : Type ℓ} (p : R → Bool) where
  pub count_where-insert_row :
      (r : R) (t : List R)
      → count_where p (insert_row r t) ≡ count_where p t + (if p r then 1 else 0)
  unfolding count_where insert_row
  count_where-insert_row r [] = ground arith
  count_where-insert_row r (x ∷ t) = ground (arith, count_where-insert_row r t)

  pub count_where-unchanged :
      (q : R → Bool) (f : R → R)
      → ((r : R) → p (f r) ≡ p r)
      → (t : List R) → count_where p (update_where q f t) ≡ count_where p t
  unfolding count_where update_where
  count_where-unchanged q f keep [] = refl
  count_where-unchanged q f keep (r ∷ t) = ground (arith, keep r, count_where-unchanged q f keep t)

  pub count_where_absent : (t : List R) → select_first p t ≡ none → count_where p t ≡ 0
  unfolding count_where select_first
  count_where_absent [] h = refl
  count_where_absent (r ∷ t) h = ground (arith, count_where_absent t)

  pub count_where_present : (t : List R) (r : R) → select_first p t ≡ some r → 0 < count_where p t
  unfolding count_where select_first
  count_where_present [] r h = cc
  count_where_present (x ∷ t) r h = ground (arith, count_where_present t r)

  -- Under a unique key an upsert leaves one row if there was none, and as many as there were
  -- otherwise.
  pub count_where-upsert_row :
      (f : R → R) (r : R)
      → p r ≡ true
      → ((x : R) → p (f x) ≡ p x)
      → (t : List R) → count_where p (upsert_row p f r t) ≡ max 1 (count_where p t)
  unfolding upsert_row
  count_where-upsert_row f r own keep t = elim (Option-cases (select_first p t)) [
    | inl absent ↦
        rw (absent, upsert_row)
          (ground (arith, own, count_where_absent t absent, count_where-insert_row r t))
    | inr (x, found) ↦
        rw (found, upsert_row)
          (omega (arith, count_where_present t x found, count_where-unchanged p f keep t))
  ]
