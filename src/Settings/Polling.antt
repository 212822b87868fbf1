-- ===== src/Settings/Polling.antt =====
-- Settings as a map, and a poll that tells of each change once.
use quake_mesh.Base.{
  ◌≡◌, ◌∙◌, refl, ap, Bool, true, false, Option, none, some, List, [], ◌∷◌, ◌++◌, inl, inr, if_elim,
  suc, Bool-cases, ◌==◌, if◌then◌else◌,
}
use quake_mesh.Base.Text.{Text, text_eq}
use quake_mesh.Base.Rows.{keyed, row_at, upsert_row, row_at-upsert_row, row_at-key, written}
use quake_mesh.Storage.{Setting, Db, ok, query, exec, ran, Healthy}
use quake_mesh.Storage.Laws.{query_up}
use quake_mesh.Settings.{
  key, setting, overwrite, Conversion, bool_of, get_bool, set_bool, Engine, differs, polled, poll,
  internet_fallback_enabled,
}

overwrite_own :
    (k value : Text) (o : Option Setting)
    → ((s : Setting) → o ≡ some s → s.key ≡ k)
    → written (overwrite value) (record { key = k; value = value }) o
      ≡ record { key = k; value = value }
overwrite_own k value none own = refl
overwrite_own k value (some s) own = rw (own s refl) refl

set-rows :
    (k j value : Text) (l : List Setting)
    → row_at key j
        (upsert_row (keyed key k) (overwrite value) (record { key = k; value = value }) l)
      ≡ (if k == j then some (record { key = k; value = value }) else row_at key j l)
set-rows k j value l =
    row_at-upsert_row key k j (overwrite value) (record { key = k; value = value }) refl (λ x. refl)
      l
    ∙ rw (overwrite_own k value (row_at key k l) (row_at-key key k l)) refl

-- Where the database works, a lookup after `SetBool` finds that value under its key, whatever the
-- default, and what it found before under every other key, where `ParseBool` reads what `FormatBool`
-- prints.
pub get_bool-set_bool :
    (c : Conversion) (k j : Text) (b d : Bool) (db : Db)
    → ((x : Bool) → c.parse_bool (c.format_bool x) ≡ some x)
    → Healthy db
    → (get_bool c j d (set_bool c k b db).1).0
      ≡ ok (if k == j then b else bool_of c d (setting j db.tables))
unfolding get_bool set_bool exec query
get_bool-set_bool c k j b d db reads up = rw (up db.done) (
    rw (up (suc db.done)) (
      rw (set-rows k j (c.format_bool b) db.tables.config) (elim (Bool-cases (k == j)) [
        | inl own ↦ rw own (rw (reads b) refl)
        | inr other ↦ rw other refl
      ])))

told_last : (b : Bool) (o : Option Bool) → differs b o ≡ false → o ≡ some b
told_last b none h = cc
told_last true (some true) h = refl
told_last true (some false) h = cc
told_last false (some true) h = cc
told_last false (some false) h = refl

differs-own : (b : Bool) → differs b (some b) ≡ false
differs-own true = refl
differs-own false = refl

polled-last : (e : Engine) (b : Bool) (db : Db) → (polled e (ok b, db)).last ≡ some b
unfolding polled
polled-last e b db = elim (Bool-cases (differs b e.last)) [
  | inl new ↦ rw new refl
  | inr old ↦ rw old (told_last b e.last old)
]

polled-out :
    (e : Engine) (b : Bool) (db : Db)
    → (polled e (ok b, db)).out
      ≡ (if differs b e.last then (if e.has_notifier then e.out ++ b ∷ [] else e.out) else e.out)
unfolding polled
polled-out e b db = elim (Bool-cases (differs b e.last)) [
  | inl new ↦ rw new refl
  | inr old ↦ rw old refl
]

polled-db : (e : Engine) (b : Bool) (db : Db) → (polled e (ok b, db)).db ≡ db
unfolding polled
polled-db e b db = if_elim (λ (e' : Engine). e'.db ≡ db) (differs b e.last) refl refl

poll_up :
    (c : Conversion) (e : Engine)
    → Healthy e.db
    → poll c e
      ≡ polled e (ok (bool_of c false (setting internet_fallback_enabled e.db.tables)), ran e.db)
unfolding poll get_bool
poll_up c e up = ap (polled e) (query_up _ e.db up)

-- Where the database works, a poll tells the notifier of the setting if it differs from what was
-- told last, then remembers it, and a second poll right after it tells nothing.
pub poll_lem :
    (c : Conversion) (e : Engine)
    → Healthy e.db
    → let enabled = bool_of c false (setting internet_fallback_enabled e.db.tables) in
      ((poll c e).out ≡ (
        if differs enabled e.last
        then (if e.has_notifier then e.out ++ enabled ∷ [] else e.out)
        else e.out))
      × ((poll c e).last ≡ some enabled)
      × ((poll c (poll c e)).out ≡ (poll c e).out)
poll_lem c e up =
    let enabled = bool_of c false (setting internet_fallback_enabled e.db.tables) in
    let e₁ = polled e (ok enabled, ran e.db) in
    let same = polled-db e enabled (ran e.db) in
    let last = polled-last e enabled (ran e.db) in
    rw (poll_up c e up) (
      polled-out e enabled (ran e.db),
      last,
      rw (poll_up c e₁ (rw same up))
          (polled-out e₁ _ (ran e₁.db) ∙ rw (same, last, differs-own enabled) refl),
    )
