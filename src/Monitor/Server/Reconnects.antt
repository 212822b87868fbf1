-- ===== src/Monitor/Server/Reconnects.antt =====
-- The key of the lockout is the address with its port, which every connection has anew.
use quake_mesh.Base.{
  ◌≡◌, ◌≢◌, Bool, false, not, Option, none, some, List, [], ◌∷◌, All, ◌==◌, if_elim, arith,
}
use quake_mesh.Base.Text.{Text, text_eq}
use quake_mesh.Base.Map.{lookup}
use quake_mesh.Storage.{Db, Result, ok, err, AdminRow, query}
use quake_mesh.Monitor.Auth.{
  Attempt, Bcrypt, Moment, Outcome, Store, admin, admit, check_lockout, clear_failures, locks,
  login, looked_up, must_change, open_session, reject,
}
use quake_mesh.Monitor.Auth.Lockout.{login-other}
use quake_mesh.Monitor.Server.{
  Decoder, LoginCall, Response, attempt, handle_login, login_answer, login_decoded, post,
  too_many_requests,
}

-- The answers to logins, one after another.
unfoldable pub handle_logins : Decoder → Bcrypt → List LoginCall → Store → List Response
handle_logins j b [] s = []
handle_logins j b (c ∷ rest) s = let r = handle_login j b c s in r.0 ∷ handle_logins j b rest r.1

abbrev pub address : LoginCall → Text
address c = c.request.remote_addr

-- No two of the calls come from one address.
unfoldable pub Apart : List LoginCall → Type 0
Apart [] = Unit
Apart (c ∷ rest) = All (λ d. address c == address d ≡ false) rest × Apart rest

-- There is no failure on record for the address.
abbrev IsNew : Store → LoginCall → Type 0
IsNew s c = lookup (address c) s.attempts ≡ none

abbrev Compared : Outcome (Text × Bool) × Store → Type 0
Compared r = login_answer r.0 ≢ too_many_requests

open_session-Compared :
    (name : Text) (now : Moment) (change : Bool) (token : Option Text) (s : Store)
    → Compared (open_session name now change token s)
unfolding open_session login_answer
open_session-Compared name now change none s = λ same. ground (arith, same)
open_session-Compared name now change (some token) s = λ same. ground (arith, same)

looked_up-Compared :
    (b : Bcrypt) (a : Attempt) (s : Store) (r : Result (Option AdminRow) × Db)
    → Compared (looked_up b a s r)
unfolding looked_up reject admit login_answer
looked_up-Compared b a s (err e, db) = λ same. ground (arith, same)
looked_up-Compared b a s (ok none, db) = λ same. ground (arith, same)
looked_up-Compared b a s (ok (some row), db) =
    if_elim Compared (b.compare row.password_hash a.password)
      (open_session-Compared a.username a.now (must_change row) a.token
        (clear_failures a.client (record s { db = db })))
      (λ same. ground (arith, same))

login-Compared :
    (b : Bcrypt) (a : Attempt) (s : Store)
    → lookup a.client s.attempts ≡ none
    → Compared (login b a s)
unfolding login check_lockout locks
login-Compared b a s unknown = rw unknown (looked_up-Compared b a s (query (admin a.username) s.db))

login_decoded-Compared :
    (b : Bcrypt) (c : LoginCall) (o : Option (Text × Text)) (s : Store)
    → IsNew s c
    → (login_decoded b c o s).0 ≢ too_many_requests
unfolding login_decoded
login_decoded-Compared b c none s unknown = λ same. ground (arith, same)
login_decoded-Compared b c (some body) s unknown = login-Compared b (attempt c body) s unknown

handle_login-Compared :
    (j : Decoder) (b : Bcrypt) (c : LoginCall) (s : Store)
    → IsNew s c
    → (handle_login j b c s).0 ≢ too_many_requests
unfolding handle_login
handle_login-Compared j b c s unknown =
    if_elim (λ (r : Response × Store). r.0 ≢ too_many_requests) (not (c.request.method == post))
      (λ same. ground (arith, same))
      (login_decoded-Compared b c (j.credentials c.request.body) s unknown)

login_decoded-IsNew :
    (b : Bcrypt) (c d : LoginCall) (o : Option (Text × Text)) (s : Store)
    → address c == address d ≡ false
    → IsNew s d
    → IsNew (login_decoded b c o s).1 d
unfolding login_decoded
login_decoded-IsNew b c d none s other unknown = unknown
login_decoded-IsNew b c d (some body) s other unknown =
    rw (login-other b (address d) (attempt c body) s other) unknown

handle_login-IsNew :
    (j : Decoder) (b : Bcrypt) (c d : LoginCall) (s : Store)
    → address c == address d ≡ false
    → IsNew s d
    → IsNew (handle_login j b c s).1 d
unfolding handle_login
handle_login-IsNew j b c d s other unknown =
    if_elim (λ (r : Response × Store). IsNew r.1 d) (not (c.request.method == post)) unknown
      (login_decoded-IsNew b c d (j.credentials c.request.body) s other unknown)

handle_login-AllNew :
    (j : Decoder) (b : Bcrypt) (c : LoginCall) (l : List LoginCall) (s : Store)
    → All (λ d. address c == address d ≡ false) l
    → All (IsNew s) l
    → All (IsNew (handle_login j b c s).1) l
handle_login-AllNew j b c [] s others unknown = tt
handle_login-AllNew j b c (d ∷ l) s others unknown = (
  handle_login-IsNew j b c d s others.0 unknown.0,
  handle_login-AllNew j b c l s others.1 unknown.1,
)

-- Logins from addresses that all differ, none of which has a failure on record, are never answered
-- 429, however many of them have failed.
pub handle_logins-Apart :
    (j : Decoder) (b : Bcrypt) (calls : List LoginCall) (s : Store)
    → Apart calls
    → All (IsNew s) calls
    → All (λ r. r ≢ too_many_requests) (handle_logins j b calls s)
unfolding handle_logins Apart
handle_logins-Apart j b [] s apart unknown = tt
handle_logins-Apart j b (c ∷ rest) s apart unknown = (
  handle_login-Compared j b c s unknown.0,
  handle_logins-Apart j b rest (handle_login j b c s).1 apart.1
      (handle_login-AllNew j b c rest s apart.0 unknown.1),
)
