-- ===== src/Tests/Accounts.antt =====
-- The theorems on the monitor's accounts at concrete inputs.
use mathlib.Core.Option
use quake_mesh.Base.{
  ◌≡◌, refl, ◌+◌, true, false, some, none, List, [], ◌∷◌, ℕ, ltb, arith, if◌then◌else◌,
}
use quake_mesh.Base.Text.{Text, codes, text_eq, text_beq, text_beq_iff}
use quake_mesh.Base.Map.{lookup, insert}
use quake_mesh.Base.Rows.{select_first}
use quake_mesh.Storage.{empty_tables, query, exec}
use quake_mesh.Monitor.Auth.{
  Attempt, Bcrypt, Store, admit, change_found, change_password, check_lockout, done, default_admin,
  default_password, default_username, locked_out, login, looked_up, max_login_failures,
  open_session, password_stored, record_failure, reject, session_lifetime, store_password,
  validate_session,
}
use quake_mesh.Monitor.Auth.Lockout.{InWindow, login_all, vain_tries, login_locked_out}
use quake_mesh.Monitor.Auth.Sessions.{apply_all, validates, validate_session-login}
use quake_mesh.Monitor.Auth.Passwords.{login-change_password}
use quake_mesh.Tests.Data.{database, database-Healthy}

-- A hash that is the password itself.
abbrev pub plain : Bcrypt
plain = record { generate = λ n p. some p; compare = λ h p. text_beq h p }

plain-accepts : (n : ℕ) (p h : Text) → plain.generate n p ≡ some h → plain.compare h p ≡ true
plain-accepts n p h made = (text_beq_iff h p).1 cc

abbrev pub seeded : Store
seeded = record {
  db = database (record empty_tables { admin_users = default_admin default_password ∷ [] });
  sessions = [];
  attempts = [];
}

abbrev browser : Text
browser = codes "browser"

abbrev guess : Text → ℕ → Attempt
guess password now = record {
  username = default_username;
  password = password;
  client = browser;
  begun = now;
  now = now;
  token = some (codes "t1");
}

abbrev wrong : Attempt
wrong = guess (codes "guess") 100

soon : InWindow 100 wrong
soon = (omega arith, omega arith)

none_yet : lookup browser seeded.attempts ≡ none
unfolding lookup
none_yet = refl

free : check_lockout browser 100 seeded ≡ false
unfolding check_lockout lookup
free = refl

admitted : (login plain (guess default_password 100) seeded).0 ≡ done (codes "t1", true)
unfolding login check_lockout lookup query looked_up select_first text_beq admit open_session
admitted = refl

changed :
    (change_password plain 0 default_username default_password (codes "longer password") seeded).0
    ≡ done tt
unfolding change_password change_found store_password password_stored query exec select_first
    text_beq
changed = refl

-- A sixth guess is not looked at.
sixth_try : vain_tries plain browser (wrong ∷ wrong ∷ wrong ∷ wrong ∷ wrong ∷ wrong ∷ []) seeded ≡ 5
unfolding vain_tries login check_lockout lookup insert query looked_up select_first text_beq admit
    open_session reject record_failure
sixth_try = refl

abbrev five_guesses : List Attempt
five_guesses = wrong ∷ wrong ∷ wrong ∷ wrong ∷ wrong ∷ []

five_spent : vain_tries plain browser five_guesses seeded ≡ max_login_failures
unfolding vain_tries login check_lockout lookup insert query looked_up select_first text_beq admit
    open_session reject record_failure
five_spent = refl

-- The sixth password is the right one.
login_locked_out_example :
    login plain (guess default_password 100) (login_all plain five_guesses seeded)
    ≡ (locked_out, login_all plain five_guesses seeded)
login_locked_out_example =
    login_locked_out plain 100 five_guesses (guess default_password 100) seeded
      (soon, (soon, (soon, (soon, (soon, tt))))) (omega arith, omega arith) none_yet five_spent

validate_session-login_example :
    Option.map
      (λ p. p.0)
      (validate_session (codes "t1") 500 (
        apply_all plain
          (validates (codes "t1") 300 ∷ [])
          (login plain (guess default_password 100) seeded).1)).0
    ≡ (if ltb (100 + session_lifetime) 500 then none else some default_username)
validate_session-login_example =
    validate_session-login plain (guess default_password 100) seeded (codes "t1") true
      (validates (codes "t1") 300 ∷ []) 500 admitted (omega arith, tt)

login-change_password_example :
    (login plain
      (guess (codes "longer password") 100)
      (change_password plain 0 default_username default_password
        (codes "longer password")
        seeded).1).0
    ≡ done (codes "t1", false)
login-change_password_example =
    login-change_password plain 0 default_username default_password (codes "longer password") seeded
      browser (codes "t1") 100 100 plain-accepts (database-Healthy seeded.db.tables) changed free
