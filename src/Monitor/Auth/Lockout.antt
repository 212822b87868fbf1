-- ===== src/Monitor/Auth/Lockout.antt =====
-- What the lockout bounds: how many passwords a client can try.
use quake_mesh.Base.{
  ◌≡◌, refl, sym, ◌⊎◌, inl, inr, ℕ, zero, suc, ◌+◌, ◌≤◌, ◌<◌, Bool, true, false, Option, none, some,
  List, [], ◌∷◌, All, arith, Bool-cases, lt→ltb, ◌==◌, if◌then◌else◌,
}
use quake_mesh.Base.Text.{Text, text_eq, text_beq_iff, text_beq_refl}
use quake_mesh.Base.Map.{lookup, insert, erase, lookup-insert, lookup-erase}
use quake_mesh.Storage.{Error, Db, Result, ok, err, AdminRow, query}
use quake_mesh.Monitor.Auth.{
  Attempt, Bcrypt, LoginAttempts, Moment, Outcome, Store, admin, attempts_or_zero, check_lockout,
  clear_failures, must_change, done, failed, invalid_credentials, locked_out, lockout_duration,
  locks, login, looked_up, no_token, one_more, admit, open_session, record_failure, reject,
  max_login_failures,
}

-- The four ways in which a login ends.
data Ending (a : Attempt) (s : Store) (r : Outcome (Text × Bool) × Store) : Type 0 where
  barred : check_lockout a.client a.begun s ≡ true → r ≡ (locked_out, s) → Ending a s r
  broken : (e : Error) → r.0 ≡ failed e → r.1.attempts ≡ s.attempts → Ending a s r
  rejected :
      r.0 ≡ invalid_credentials
      → r.1.attempts
        ≡ insert a.client
            (one_more a.now (attempts_or_zero (lookup a.client s.attempts)))
            s.attempts
      → Ending a s r
  admitted :
      (r.0 ≡ no_token) ⊎ ((p : Text × Bool) × (r.0 ≡ done p))
      → r.1.attempts ≡ erase a.client s.attempts
      → Ending a s r

open_session-ends :
    (name : Text) (now : Moment) (change : Bool) (token : Option Text) (s : Store)
    → let r = open_session name now change token s in
      ((r.0 ≡ no_token) ⊎ ((p : Text × Bool) × (r.0 ≡ done p))) × (r.1.attempts ≡ s.attempts)
unfolding open_session
open_session-ends name now change none s = (inl refl, refl)
open_session-ends name now change (some token) s = (inr ((token, change), refl), refl)

admit-ends :
    (a : Attempt) (row : AdminRow) (s : Store) (db : Db)
    → Ending a s (admit a row (record s { db = db }))
unfolding admit clear_failures
admit-ends a row s db =
    let ends =
      open_session-ends a.username a.now (must_change row) a.token
        (record s { db = db; attempts = erase a.client s.attempts }) in
    admitted ends.0 ends.1

looked_up-ends :
    (b : Bcrypt) (a : Attempt) (s : Store) (r : Result (Option AdminRow) × Db)
    → Ending a s (looked_up b a s r)
unfolding looked_up reject record_failure
looked_up-ends b a s (err e, db) = broken e refl refl
looked_up-ends b a s (ok none, db) = rejected refl refl
looked_up-ends b a s (ok (some row), db) =
    elim (Bool-cases (b.compare row.password_hash a.password)) [
      | inl right ↦ rw right (admit-ends a row s db)
      | inr wrong ↦ rw wrong (rejected refl refl)
    ]

login-ends : (b : Bcrypt) (a : Attempt) (s : Store) → Ending a s (login b a s)
unfolding login
login-ends b a s = elim (Bool-cases (check_lockout a.client a.begun s)) [
  | inl locked ↦ rw locked (barred locked refl)
  | inr free ↦ rw free (looked_up-ends b a s (query (admin a.username) s.db))
]

-- Adds a refused password to a count, which ends where a password is accepted.
abbrev pub tally_own : Outcome (Text × Bool) → ℕ → ℕ
tally_own (done p) n = 0
tally_own no_token n = 0
tally_own invalid_credentials n = suc n
tally_own o n = n

-- How many logins of a client are answered that the credentials are invalid before one of its own is
-- accepted, in logins of any clients, one after another.
unfoldable pub vain_tries : Bcrypt → Text → List Attempt → Store → ℕ
vain_tries b client [] s = 0
vain_tries b client (a ∷ rest) s =
    let r = login b a s in
    let n = vain_tries b client rest r.1 in if a.client == client then tally_own r.0 n else n

-- The login falls in the time from `start` to the end of a lockout that begins then.
abbrev pub InWindow : Moment → Attempt → Type 0
InWindow start a = (start ≤ a.now) × (a.begun < start + lockout_duration)

-- What is left to a client: `n` more tries, or none until the window is over.
abbrev pub Left : Moment → ℕ → LoginAttempts → Type 0
Left start zero att = start + lockout_duration ≤ att.locked_until
Left start (suc m) att = att.failures + suc m ≡ max_login_failures

unfoldable LeftOf : Moment → ℕ → Text → Store → Type 0
LeftOf start n client s = Left start n (attempts_or_zero (lookup client s.attempts))

-- A failed try costs one.
one_more-Left :
    (start now : Moment) (m : ℕ) (att : LoginAttempts)
    → start ≤ now
    → Left start (suc m) att
    → Left start m (one_more now att)
unfolding one_more
one_more-Left start now zero att late h = ground arith
one_more-Left start now (suc m) att late h = ground arith

locks-Left :
    (start now : Moment) (o : Option LoginAttempts)
    → now < start + lockout_duration
    → Left start 0 (attempts_or_zero o)
    → locks now o ≡ true
unfolding locks
locks-Left start now none soon h = ground arith
locks-Left start now (some att) soon h = lt→ltb now att.locked_until (omega arith)

-- A login of another client leaves this one's record.
pub login-other :
    (b : Bcrypt) (client : Text) (a : Attempt) (s : Store)
    → a.client == client ≡ false
    → lookup client (login b a s).1.attempts ≡ lookup client s.attempts
login-other b client a s other = elim (login-ends b a s) [
  | barred locked same ↦ rw same refl
  | broken e says kept ↦ rw kept refl
  | rejected says now_has ↦
      rw
        (
          now_has,
          lookup-insert a.client client
              (one_more a.now (attempts_or_zero (lookup a.client s.attempts))) s.attempts,
          other,
        )
        refl
  | admitted says now_has ↦ rw (now_has, lookup-erase a.client client s.attempts, other) refl
]

login_locked :
    (b : Bcrypt) (a : Attempt) (s : Store)
    → check_lockout a.client a.begun s ≡ true
    → login b a s ≡ (locked_out, s)
unfolding login
login_locked b a s locked = rw locked refl

LeftOf-same :
    (start : Moment) (m : ℕ) (c d : Text) (s : Store)
    → c ≡ d
    → LeftOf start m c s
    → LeftOf start m d s
unfolding LeftOf
LeftOf-same start m c d s same left = rw same at left

-- The store after logins of any clients, one after another.
unfoldable pub login_all : Bcrypt → List Attempt → Store → Store
login_all b [] s = s
login_all b (a ∷ rest) s = login_all b rest (login b a s).1

-- One of its own that is one of `n` refusals leaves one less.
login-spends :
    (b : Bcrypt) (start : Moment) (n : ℕ) (a : Attempt) (s : Store) (t : ℕ)
    → InWindow start a
    → LeftOf start n a.client s
    → tally_own (login b a s).0 t ≡ n
    → LeftOf start t a.client (login b a s).1
unfolding check_lockout LeftOf
login-spends b start zero a s t within left spent =
    let same =
      login_locked b a s (locks-Left start a.begun (lookup a.client s.attempts) within.1 left) in
    let none_more : t ≡ 0 = rw same at spent in rw (same, none_more) left
login-spends b start (suc m) a s t within left spent = elim (login-ends b a s) [
  | barred locked same ↦ let all_more : t ≡ suc m = rw same at spent in rw (same, all_more) left
  | broken e says kept ↦ let all_more : t ≡ suc m = rw says at spent in rw (kept, all_more) left
  | rejected says now_has ↦
      let one : suc t ≡ suc m = rw says at spent in
      let fewer : t ≡ m = omega (arith, one) in
      rw
        (
          now_has,
          lookup-insert a.client a.client
              (one_more a.now (attempts_or_zero (lookup a.client s.attempts))) s.attempts,
          text_beq_refl a.client,
          fewer,
        )
        (one_more-Left start a.now m (attempts_or_zero (lookup a.client s.attempts)) within.0 left)
  | admitted (inl says) now_has ↦
      let never : 0 ≡ suc m = rw says at spent in absurd (omega (arith, never))
  | admitted (inr (p, says)) now_has ↦
      let never : 0 ≡ suc m = rw says at spent in absurd (omega (arith, never))
]

login_all-LeftOf :
    (b : Bcrypt) (client : Text) (start : Moment) (n : ℕ) (guesses : List Attempt) (s : Store)
    → All (InWindow start) guesses
    → LeftOf start n client s
    → vain_tries b client guesses s ≡ n
    → LeftOf start 0 client (login_all b guesses s)
unfolding vain_tries login_all
login_all-LeftOf b client start n [] s within left spent = rw spent left
login_all-LeftOf b client start n (a ∷ rest) s within left spent =
    elim (Bool-cases (a.client == client)) [
      | inl own ↦
          let same : a.client ≡ client = (text_beq_iff a.client client).0 own in
          let t = vain_tries b client rest (login b a s).1 in
          login_all-LeftOf b client start t rest (login b a s).1 within.1
            (LeftOf-same start t a.client client (login b a s).1 same (
              login-spends b start n a s t within.0
                (LeftOf-same start n client a.client s (sym same) left) (rw own at spent)))
            refl
      | inr other ↦
          login_all-LeftOf b client start n rest (login b a s).1 within.1
            (unfold LeftOf in (rw (login-other b client a s other) left)) (rw other at spent)
    ]

-- Where five of the logins between a time and 60 seconds after it, made one after another by any
-- clients, were refused to a client that had no failure on record, and none of its own was accepted
-- before, every further login of that client in this time is answered that it is locked out,
-- whatever its user and its password, also if they are right, and changes nothing.
pub login_locked_out :
    (b : Bcrypt) (start : Moment) (guesses : List Attempt) (a : Attempt) (s : Store)
    → All (InWindow start) guesses
    → InWindow start a
    → lookup a.client s.attempts ≡ none
    → vain_tries b a.client guesses s ≡ max_login_failures
    → login b a (login_all b guesses s) ≡ (locked_out, login_all b guesses s)
unfolding LeftOf check_lockout
login_locked_out b start guesses a s within soon clean spent =
    login_locked b a (login_all b guesses s) (
      locks-Left start a.begun (lookup a.client (login_all b guesses s).attempts) soon.1 (
        login_all-LeftOf b a.client start max_login_failures guesses s within (rw clean refl)
          spent))
