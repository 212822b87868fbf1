-- ===== src/Monitor/Auth.antt =====
-- monitor/internal/auth/auth.go: admin accounts, sessions and the lockout after failed logins.
pub mod Lockout
pub mod Sessions
pub mod Passwords
use quake_mesh.Base.{
  ℕ, zero, suc, ◌+◌, Bool, false, ◌&&◌, Option, none, some, List, [], ◌∷◌, length, ltb, leb, ◌==◌,
  if◌then◌else◌,
}
use quake_mesh.Base.Text.{Text, codes, text_eq}
use quake_mesh.Base.Map.{lookup, insert, erase}
use quake_mesh.Base.Rows.{keyed, row_at, update_where, insert_row}
use quake_mesh.Storage.{
  AdminRow, Tables, Db, Error, Result, ok, err, unique_key, query, exec, exec_checked,
}

-- A `time.Time` in nanoseconds, from a time before every one that the program meets.
abbrev pub Moment : Type 0
Moment = ℕ

abbrev pub default_username : Text
default_username = codes "Admin"

abbrev pub default_password : Text
default_password = codes "test1234"

abbrev pub max_login_failures : ℕ
max_login_failures = 5

abbrev pub lockout_duration : ℕ
lockout_duration = 60000000000

abbrev pub session_lifetime : ℕ
session_lifetime = 86400000000000

-- Package bcrypt: `GenerateFromPassword`, which salts, so that each call may give another hash and
-- is given its number, and fails where it is `none`; and whether `CompareHashAndPassword` is nil.
pub record Bcrypt : Type 0 where
  pub generate : ℕ → Text → Option Text
  pub compare : Text → Text → Bool

pub record Session : Type 0 where
  pub username : Text
  pub must_change_password : Bool
  pub expires_at : Moment

pub record LoginAttempts : Type 0 where
  pub failures : ℕ
  pub locked_until : Moment

pub record Store : Type 0 where
  pub db : Db
  pub sessions : List (Text × Session)
  pub attempts : List (Text × LoginAttempts)

unfoldable pub new : Db → Store
new db = record { db = db; sessions = []; attempts = [] }

-- What an operation reports: `done`, or one of the errors that the source makes.
pub data Outcome (A : Type 0) : Type 0 where
  done : A → Outcome A
  invalid_credentials locked_out too_short not_different default_reused no_hash no_token no_user :
      Outcome A
  failed : Error → Outcome A

-- The key column.
abbrev pub username : AdminRow → Text
username r = r.username

abbrev pub admin : Text → Tables → Option AdminRow
admin name t = row_at username name t.admin_users

abbrev pub default_admin : Text → AdminRow
default_admin hash = record {
  username = default_username;
  password_hash = hash;
  must_change_password = 1;
}

abbrev pub refuse_taken : Option AdminRow → Tables → AdminRow → Result Tables
refuse_taken none t row = ok (record t { admin_users = insert_row row t.admin_users })
refuse_taken (some r) t row = err unique_key

-- The INSERT, under the primary key.
abbrev pub insert_admin : AdminRow → Tables → Result Tables
insert_admin row t = refuse_taken (admin row.username t) t row

abbrev pub written : Result (Unit {0}) × Db → Outcome (Unit {0}) × Db
written (ok u, db) = (done tt, db)
written (err e, db) = (failed e, db)

unfoldable pub seed_admin : Option Text → Db → Outcome (Unit {0}) × Db
seed_admin none db = (no_hash, db)
seed_admin (some hash) db = written (exec_checked (insert_admin (default_admin hash)) db)

unfoldable pub seed_if_empty : Option Text → Result ℕ × Db → Outcome (Unit {0}) × Db
unfolding seed_admin
seed_if_empty hash (err e, db) = (failed e, db)
seed_if_empty hash (ok zero, db) = seed_admin hash db
seed_if_empty hash (ok (suc n), db) = (done tt, db)

-- `EnsureDefaultAdmin`; `salt` is the number of the call of `GenerateFromPassword`.
unfoldable pub ensure_default_admin : Bcrypt → ℕ → Db → Outcome (Unit {0}) × Db
unfolding seed_if_empty
ensure_default_admin b salt db =
    seed_if_empty (b.generate salt default_password) (query (λ t. length t.admin_users) db)

-- `checkLockout`: whether it fails.
unfoldable pub locks : Moment → Option LoginAttempts → Bool
locks now none = false
locks now (some att) = ltb now att.locked_until

unfoldable pub check_lockout : Text → Moment → Store → Bool
unfolding locks
check_lockout client now s = locks now (lookup client s.attempts)

abbrev pub attempts_or_zero : Option LoginAttempts → LoginAttempts
attempts_or_zero none = record { failures = 0; locked_until = 0 }
attempts_or_zero (some att) = att

unfoldable pub one_more : Moment → LoginAttempts → LoginAttempts
one_more now att =
    if leb max_login_failures (att.failures + 1)
    then record { failures = 0; locked_until = now + lockout_duration }
    else record att { failures = att.failures + 1 }

unfoldable pub record_failure : Text → Moment → Store → Store
unfolding one_more
record_failure client now s = record s {
  attempts = insert client (one_more now (attempts_or_zero (lookup client s.attempts))) s.attempts;
}

unfoldable pub clear_failures : Text → Store → Store
clear_failures client s = record s { attempts = erase client s.attempts }

-- The arguments of `Login`, its readings of the clock before and after the lookup, and what
-- `newToken` gives, which is `none` where the random source fails.
pub record Attempt : Type 0 where
  pub username : Text
  pub password : Text
  pub client : Text
  pub begun : Moment
  pub now : Moment
  pub token : Option Text

abbrev pub must_change : AdminRow → Bool
must_change r = ltb 0 r.must_change_password

unfoldable pub open_session :
    Text → Moment → Bool → Option Text → Store → Outcome (Text × Bool) × Store
open_session name now change none s = (no_token, s)
open_session name now change (some token) s =
    let sess : Session = record {
      username = name;
      must_change_password = change;
      expires_at = now + session_lifetime;
    } in
    (done (token, change), record s { sessions = insert token sess s.sessions })

unfoldable pub reject : Attempt → Store → Outcome (Text × Bool) × Store
unfolding record_failure
reject a s = (invalid_credentials, record_failure a.client a.now s)

unfoldable pub admit : Attempt → AdminRow → Store → Outcome (Text × Bool) × Store
unfolding open_session clear_failures
admit a row s = open_session a.username a.now (must_change row) a.token (clear_failures a.client s)

unfoldable pub looked_up :
    Bcrypt → Attempt → Store → Result (Option AdminRow) × Db → Outcome (Text × Bool) × Store
unfolding reject admit
looked_up b a s (err e, db) = (failed e, record s { db = db })
looked_up b a s (ok none, db) = reject a (record s { db = db })
looked_up b a s (ok (some row), db) =
    if b.compare row.password_hash a.password
    then admit a row (record s { db = db })
    else reject a (record s { db = db })

unfoldable pub login : Bcrypt → Attempt → Store → Outcome (Text × Bool) × Store
unfolding looked_up check_lockout
login b a s =
    if check_lockout a.client a.begun s
    then (locked_out, s)
    else looked_up b a s (query (admin a.username) s.db)

abbrev pub settle : Text → Session → Session
settle name sess =
    if sess.username == name then record sess { must_change_password = false } else sess

-- The loop over the sessions.
unfoldable pub settle_all : Text → List (Text × Session) → List (Text × Session)
settle_all name [] = []
settle_all name (entry ∷ rest) = (entry.0, settle name entry.1) ∷ settle_all name rest

abbrev pub new_hash : Text → AdminRow → AdminRow
new_hash hash r = record r { password_hash = hash; must_change_password = 0 }

unfoldable pub password_stored : Text → Store → Result (Unit {0}) × Db → Outcome (Unit {0}) × Store
unfolding settle_all
password_stored name s (err e, db) = (failed e, record s { db = db })
password_stored name s (ok u, db) =
    (done tt, record s { db = db; sessions = settle_all name s.sessions })

unfoldable pub store_password : Text → Option Text → Store → Outcome (Unit {0}) × Store
unfolding password_stored
store_password name none s = (no_hash, s)
store_password name (some hash) s = password_stored name s (
    exec
      (λ t. record t {
        admin_users = update_where (keyed username name) (new_hash hash) t.admin_users;
      })
      s.db)

-- A new password for the row that was read; `salt` is the number of the call of the hash.
unfoldable pub change_found :
    Bcrypt
    → ℕ
    → Text
    → Text
    → Text
    → Store
    → Result (Option AdminRow) × Db
    → Outcome (Unit {0}) × Store
unfolding store_password
change_found b salt name current fresh s (err e, db) = (failed e, record s { db = db })
change_found b salt name current fresh s (ok none, db) = (no_user, record s { db = db })
change_found b salt name current fresh s (ok (some row), db) =
    if b.compare row.password_hash current
    then store_password name (b.generate salt fresh) (record s { db = db })
    else (invalid_credentials, record s { db = db })

-- `ChangePassword`.
unfoldable pub change_password :
    Bcrypt → ℕ → Text → Text → Text → Store → Outcome (Unit {0}) × Store
unfolding change_found
change_password b salt name current fresh s =
    if ltb (length fresh) 8
    then (too_short, s)
    else if current == fresh
    then (not_different, s)
    else if (name == default_username) && (fresh == default_password)
    then (default_reused, s)
    else change_found b salt name current fresh s (query (admin name) s.db)

-- `ValidateSession`, with the session that it found.
unfoldable pub validate_found :
    Text → Moment → Option Session → Store → Option (Text × Bool) × Store
validate_found token now none s = (none, s)
validate_found token now (some sess) s =
    if ltb sess.expires_at now
    then (none, record s { sessions = erase token s.sessions })
    else (some (sess.username, sess.must_change_password), s)

unfoldable pub validate_session : Text → Moment → Store → Option (Text × Bool) × Store
unfolding validate_found
validate_session token now s = validate_found token now (lookup token s.sessions) s

unfoldable pub logout : Text → Store → Store
logout token s = record s { sessions = erase token s.sessions }
