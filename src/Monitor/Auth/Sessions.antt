-- ===== src/Monitor/Auth/Sessions.antt =====
-- How long a session lasts, whatever else happens in the store.
use quake_mesh.Base.{
  ◌≡◌, ◌≢◌, refl, sym, ap, inl, inr, ℕ, ◌≤◌, Bool, false, Option, none, some, List, [], ◌∷◌, All,
  arith, Bool-cases, if_elim, ◌<◌, ◌∙◌, ltb→lt, length, ltb, ◌+◌, ◌&&◌, ◌==◌, if◌then◌else◌,
}
use mathlib.Core.Option
use quake_mesh.Base.Text.{Text, text_eq, text_beq_iff, text_beq_refl}
use quake_mesh.Base.Map.{lookup, insert, erase, lookup-insert, lookup-erase}
use quake_mesh.Storage.{Db, Result, ok, err, AdminRow, query}
use quake_mesh.Monitor.Auth.{
  Attempt, Bcrypt, Moment, Outcome, Session, Store, admin, admit, change_found, change_password,
  default_username, default_password, check_lockout, clear_failures, done, login, logout, looked_up,
  must_change, open_session, password_stored, record_failure, reject, session_lifetime, settle,
  settle_all, store_password, validate_found, validate_session,
}

-- One call of the store from outside.
pub data Operation : Type 0 where
  logs_in : Attempt → Operation
  changes : ℕ → Text → Text → Text → Operation
  validates : Text → Moment → Operation
  logs_out : Text → Operation

abbrev pub apply_operation : Bcrypt → Operation → Store → Store
apply_operation b (logs_in a) s = (login b a s).1
apply_operation b (changes salt name current fresh) s =
    (change_password b salt name current fresh s).1
apply_operation b (validates token now) s = (validate_session token now s).1
apply_operation b (logs_out token) s = logout token s

unfoldable pub apply_all : Bcrypt → List Operation → Store → Store
apply_all b [] s = s
apply_all b (o ∷ rest) s = apply_all b rest (apply_operation b o s)

-- The call does not give out the token again, does not end its session, and is not made after the
-- session's end.
abbrev pub Spares : Text → Moment → Operation → Type 0
Spares token end (logs_in a) = a.token ≢ some token
Spares token end (changes salt name current fresh) = Unit
Spares token end (validates asked now) = now ≤ end
Spares token end (logs_out asked) = asked ≢ token

-- The token belongs to a session of that user that ends then.
unfoldable Belongs : Text → Text → Moment → List (Text × Session) → Type 0
Belongs token name end m =
    (sess : Session) × (lookup token m ≡ some sess)
    × (sess.username ≡ name)
    × (sess.expires_at ≡ end)

differ : (s t : Text) → s ≢ t → s == t ≡ false
differ s t h = elim (Bool-cases (s == t)) [
  | inl same ↦ absurd (h ((text_beq_iff s t).0 same))
  | inr other ↦ other
]

Belongs-insert :
    (token name asked : Text) (end : Moment) (sess : Session) (m : List (Text × Session))
    → asked ≢ token
    → Belongs token name end m
    → Belongs token name end (insert asked sess m)
unfolding Belongs
Belongs-insert token name asked end sess m apart (old, has, whose, ends) =
    (old, rw (lookup-insert asked token sess m, differ asked token apart) has, whose, ends)

Belongs-erase :
    (token name asked : Text) (end : Moment) (m : List (Text × Session))
    → asked ≢ token
    → Belongs token name end m
    → Belongs token name end (erase asked m)
unfolding Belongs
Belongs-erase token name asked end m apart (old, has, whose, ends) =
    (old, rw (lookup-erase asked token m, differ asked token apart) has, whose, ends)

pub lookup-settle_all :
    (name token : Text) (m : List (Text × Session)) (sess : Session)
    → lookup token m ≡ some sess
    → lookup token (settle_all name m) ≡ some (settle name sess)
unfolding lookup settle_all
lookup-settle_all name token [] sess h = cc
lookup-settle_all name token (entry ∷ rest) sess h = elim (Bool-cases (entry.0 == token)) [
  | inl here ↦
      rw here (ap (λ o. elim o [ none ↦ none | some x ↦ some (settle name x) ]) (rw here at h))
  | inr further ↦ rw further (lookup-settle_all name token rest sess (rw further at h))
]

Belongs-settle_all :
    (name token user : Text) (end : Moment) (m : List (Text × Session))
    → Belongs token user end m
    → Belongs token user end (settle_all name m)
unfolding Belongs
Belongs-settle_all name token user end m (sess, has, whose, ends) = (
  settle name sess,
  lookup-settle_all name token m sess has,
  if_elim (λ (x : Session). x.username ≡ user) (sess.username == name) whose whose,
  if_elim (λ (x : Session). x.expires_at ≡ end) (sess.username == name) ends ends,
)

module _ (token name : Text) (end : Moment) where
  abbrev Here : Store → Type 0
  Here s = Belongs token name end s.sessions

  open_session-Here :
      (user : Text) (now : Moment) (change : Bool) (given : Option Text) (s : Store)
      → given ≢ some token
      → Here s
      → Here (open_session user now change given s).1
  unfolding open_session
  open_session-Here user now change none s apart here = here
  open_session-Here user now change (some t) s apart here =
      Belongs-insert token name t end
        (record {
          username = user;
          must_change_password = change;
          expires_at = now + session_lifetime;
        })
        s.sessions (λ same. apart (ap some same)) here

  admit-Here :
      (a : Attempt) (row : AdminRow) (s : Store)
      → a.token ≢ some token
      → Here s
      → Here (admit a row s).1
  unfolding admit clear_failures
  admit-Here a row s apart here =
      open_session-Here a.username a.now (must_change row) a.token (clear_failures a.client s) apart
        here

  looked_up-Here :
      (b : Bcrypt) (a : Attempt) (s : Store) (r : Result (Option AdminRow) × Db)
      → a.token ≢ some token
      → Here s
      → Here (looked_up b a s r).1
  unfolding looked_up reject record_failure
  looked_up-Here b a s (err e, db) apart here = here
  looked_up-Here b a s (ok none, db) apart here = here
  looked_up-Here b a s (ok (some row), db) apart here =
      if_elim (λ (x : Outcome (Text × Bool) × Store). Here x.1)
        (b.compare row.password_hash a.password)
        (admit-Here a row (record s { db = db }) apart here) here

  login-Here :
      (b : Bcrypt) (a : Attempt) (s : Store) → a.token ≢ some token → Here s → Here (login b a s).1
  unfolding login
  login-Here b a s apart here =
      if_elim (λ (x : Outcome (Text × Bool) × Store). Here x.1) (check_lockout a.client a.begun s)
        here (looked_up-Here b a s (query (admin a.username) s.db) apart here)

  password_stored-Here :
      (user : Text) (s : Store) (r : Result (Unit {0}) × Db)
      → Here s
      → Here (password_stored user s r).1
  unfolding password_stored
  password_stored-Here user s (err e, db) here = here
  password_stored-Here user s (ok u, db) here =
      Belongs-settle_all user token name end s.sessions here

  store_password-Here :
      (user : Text) (hash : Option Text) (s : Store) → Here s → Here (store_password user hash s).1
  unfolding store_password
  store_password-Here user none s here = here
  store_password-Here user (some hash) s here = password_stored-Here user s _ here

  change_found-Here :
      (b : Bcrypt) (salt : ℕ) (user current fresh : Text) (s : Store)
      (r : Result (Option AdminRow) × Db)
      → Here s
      → Here (change_found b salt user current fresh s r).1
  unfolding change_found
  change_found-Here b salt user current fresh s (err e, db) here = here
  change_found-Here b salt user current fresh s (ok none, db) here = here
  change_found-Here b salt user current fresh s (ok (some row), db) here =
      if_elim (λ (x : Outcome (Unit {0}) × Store). Here x.1) (b.compare row.password_hash current)
        (store_password-Here user (b.generate salt fresh) (record s { db = db }) here) here

  change_password-Here :
      (b : Bcrypt) (salt : ℕ) (user current fresh : Text) (s : Store)
      → Here s
      → Here (change_password b salt user current fresh s).1
  unfolding change_password
  change_password-Here b salt user current fresh s here =
      let P : Outcome (Unit {0}) × Store → Type 0 = λ x. Here x.1 in
      if_elim P (ltb (length fresh) 8) here (
        if_elim P (current == fresh) here (
          if_elim P ((user == default_username) && (fresh == default_password)) here
            (change_found-Here b salt user current fresh s (query (admin user) s.db) here)))

  validate_found-Here :
      (asked : Text) (now : Moment) (o : Option Session) (s : Store)
      → now ≤ end
      → o ≡ lookup asked s.sessions
      → Here s
      → Here (validate_found asked now o s).1
  unfolding validate_found Belongs
  validate_found-Here asked now none s soon found here = here
  validate_found-Here asked now (some sess) s soon found (old, has, whose, ends) =
      elim (Bool-cases (ltb sess.expires_at now)) [
        | inr kept ↦ rw kept (old, has, whose, ends)
        | inl over ↦ elim (Bool-cases (asked == token)) [
          | inr other ↦ rw over (
              Belongs-erase token name asked end s.sessions
                (λ same. ground (arith, (text_beq_iff asked token).1 same, other))
                (old, has, whose, ends))
          | inl own ↦
              let same : asked ≡ token = (text_beq_iff asked token).0 own in
              let one : some sess ≡ some old = found ∙ ap (λ t. lookup t s.sessions) same ∙ has in
              let one' : sess ≡ old = cc in
              let late : end < now =
                rw (sym ends) (rw (sym one') (ltb→lt sess.expires_at now over)) in
              absurd (ground (arith, late, soon))
        ]
      ]

  operation-Here :
      (b : Bcrypt) (o : Operation) (s : Store)
      → Spares token end o
      → Here s
      → Here (apply_operation b o s)
  unfolding validate_session logout
  operation-Here b (logs_in a) s spares here = login-Here b a s spares here
  operation-Here b (changes salt user current fresh) s spares here =
      change_password-Here b salt user current fresh s here
  operation-Here b (validates asked now) s spares here =
      validate_found-Here asked now (lookup asked s.sessions) s spares refl here
  operation-Here b (logs_out asked) s spares here =
      Belongs-erase token name asked end s.sessions spares here

  apply_all-Here :
      (b : Bcrypt) (operations : List Operation) (s : Store)
      → All (Spares token end) operations
      → Here s
      → Here (apply_all b operations s)
  unfolding apply_all
  apply_all-Here b [] s spares here = here
  apply_all-Here b (o ∷ rest) s spares here =
      apply_all-Here b rest (apply_operation b o s) spares.1 (operation-Here b o s spares.0 here)

  validate_session-Here :
      (at : Moment) (s : Store)
      → Here s
      → Option.map (λ p. p.0) (validate_session token at s).0
        ≡ (if ltb end at then none else some name)
  unfolding validate_session validate_found Belongs
  validate_session-Here at s (sess, has, whose, ends) =
      rw (has, sym ends)
        (elim (Bool-cases (ltb sess.expires_at at)) [
          | inl over ↦ rw over refl
          | inr kept ↦ rw (kept, whose) refl
        ])

-- A login that is done has opened its session.
module _ (a : Attempt) (token : Text) (change : Bool) where
  abbrev Opened : Outcome (Text × Bool) × Store → Type 0
  Opened r =
      r.0 ≡ done (token, change) → Belongs token a.username (a.now + session_lifetime) r.1.sessions

  open_session-opens :
      (new : Bool) (given : Option Text) (s : Store)
      → Opened (open_session a.username a.now new given s)
  unfolding open_session Belongs
  open_session-opens new none s says = cc
  open_session-opens new (some t) s says =
      let same : t ≡ token = cc in
      let sess : Session = record {
        username = a.username;
        must_change_password = new;
        expires_at = a.now + session_lifetime;
      } in
      (sess, rw (lookup-insert t token sess s.sessions, same, text_beq_refl token) refl, refl, refl)

  looked_up-opens :
      (b : Bcrypt) (s : Store) (r : Result (Option AdminRow) × Db) → Opened (looked_up b a s r)
  unfolding looked_up reject admit
  looked_up-opens b s (err e, db) = λ says. cc
  looked_up-opens b s (ok none, db) = λ says. cc
  looked_up-opens b s (ok (some row), db) =
      if_elim Opened (b.compare row.password_hash a.password)
        (open_session-opens (must_change row) a.token
          (clear_failures a.client (record s { db = db })))
        (λ says. cc)

  login-opens : (b : Bcrypt) (s : Store) → Opened (login b a s)
  unfolding login
  login-opens b s =
      if_elim Opened (check_lockout a.client a.begun s) (λ says. cc)
        (looked_up-opens b s (query (admin a.username) s.db))

-- A login that is done gives out a token that names its user, whatever calls come in between that do
-- not log that session out, give the same token out again or check a token after the session's end:
-- up to 24 hours after the login it is valid and is that user's, and after them it is not valid.
pub validate_session-login :
    (b : Bcrypt) (a : Attempt) (s : Store) (token : Text) (change : Bool) (between : List Operation)
    (at : Moment)
    → (login b a s).0 ≡ done (token, change)
    → All (Spares token (a.now + session_lifetime)) between
    → Option.map (λ p. p.0) (validate_session token at (apply_all b between (login b a s).1)).0
      ≡ (if ltb (a.now + session_lifetime) at then none else some a.username)
validate_session-login b a s token change between at says spares =
    let end : Moment = a.now + session_lifetime in
    validate_session-Here token a.username end at (apply_all b between (login b a s).1) (
      apply_all-Here token a.username end b between (login b a s).1 spares
        (login-opens a token change b s says))
