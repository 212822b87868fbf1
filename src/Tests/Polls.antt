-- ===== src/Tests/Polls.antt =====
-- The theorems on settings and their poll at concrete inputs.
use quake_mesh.Base.{◌≡◌, refl, Bool, true, false, none, some, [], ◌∷◌, if◌then◌else◌}
use quake_mesh.Base.Text.{codes, text_beq}
use quake_mesh.Storage.{Tables, empty_tables}
use quake_mesh.Settings.{Conversion, Engine, internet_fallback_enabled}
use quake_mesh.Tests.Data.{database}

-- A conversion that prints one digit.
abbrev digits : Conversion
digits = record {
  parse_bool = λ t.
      if text_beq t (codes "1")
      then some true
      else if text_beq t (codes "0")
      then some false
      else none;
  format_bool = λ b. if b then codes "1" else codes "0";
}

digit_read : (x : Bool) → digits.parse_bool (digits.format_bool x) ≡ some x
unfolding text_beq
digit_read true = refl
digit_read false = refl

abbrev switched_on : Tables
switched_on = record empty_tables {
  config = record { key = internet_fallback_enabled; value = codes "1" } ∷ [];
}

abbrev engine : Engine
engine = record { last = some false; has_notifier = true; db = database switched_on; out = [] }
