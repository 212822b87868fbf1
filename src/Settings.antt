-- ===== src/Settings.antt =====
-- hub/internal/configstore and hub/internal/fallback: the settings table, and the poll of one setting.
pub mod Polling
use quake_mesh.Base.{
  Bool, true, false, not, ◌||◌, Option, none, some, List, [], ◌∷◌, ◌++◌, ◌==◌, if◌then◌else◌,
}
use quake_mesh.Base.Text.{Text, codes, text_eq}
use quake_mesh.Base.Rows.{keyed, row_at, upsert_row}
use quake_mesh.Storage.{Setting, Tables, Db, M, Result, ok, err, query, exec}

abbrev pub internet_fallback_enabled : Text
internet_fallback_enabled = codes "internet_fallback_enabled"

abbrev pub local_hub_id : Text
local_hub_id = codes "local_hub_id"

-- The key column.
abbrev pub key : Setting → Text
key s = s.key

abbrev pub setting : Text → Tables → Option Setting
setting k t = row_at key k t.config

abbrev pub value_of : Option Setting → Text
value_of none = []
value_of (some s) = s.value

unfoldable pub get : Text → M Text
get k = query (λ t. value_of (setting k t))

abbrev pub overwrite : Text → Setting → Setting
overwrite value s = record s { value = value }

unfoldable pub set : Text → Text → M (Unit {0})
set k value = exec (λ t. record t {
  config = upsert_row (keyed key k) (overwrite value) (record { key = k; value = value }) t.config;
})

-- `strconv.ParseBool`, where `none` is an error, and `strconv.FormatBool`.
pub record Conversion : Type 0 where
  pub parse_bool : Text → Option Bool
  pub format_bool : Bool → Text

abbrev pub or_default : Bool → Option Bool → Bool
or_default d none = d
or_default d (some b) = b

module _ (c : Conversion) where
  -- A value that does not parse counts as a missing one.
  abbrev pub bool_of : Bool → Option Setting → Bool
  bool_of d none = d
  bool_of d (some s) = or_default d (c.parse_bool s.value)

  unfoldable pub get_bool : Text → Bool → M Bool
  get_bool k d = query (λ t. bool_of d (setting k t))

  unfoldable pub set_bool : Text → Bool → M (Unit {0})
  unfolding set
  set_bool k b = set k (c.format_bool b)

-- The engine of package fallback; `last` is none where `hasLast` is false, and `out` lists the calls
-- of the notifier.
pub record Engine : Type 0 where
  pub last : Option Bool
  pub has_notifier : Bool
  pub db : Db
  pub out : List Bool

abbrev pub differs : Bool → Option Bool → Bool
differs b none = true
differs true (some x) = not x
differs false (some x) = x

unfoldable pub polled : Engine → Result Bool × Db → Engine
polled e (err x, db) = record e { db = db }
polled e (ok enabled, db) =
    if differs enabled e.last
    then record e {
      last = some enabled;
      db = db;
      out = if e.has_notifier then e.out ++ enabled ∷ [] else e.out;
    }
    else record e { db = db }

unfoldable pub poll : Conversion → Engine → Engine
unfolding polled
poll c e = polled e (get_bool c internet_fallback_enabled false e.db)

-- An error counts as the default.
abbrev pub or_false : Result Bool → Bool
or_false (ok b) = b
or_false (err x) = false

unfoldable pub enabled : Conversion → Engine → Bool × Engine
enabled c e =
    let r = get_bool c internet_fallback_enabled false e.db in (or_false r.0, record e { db = r.1 })
