-- ===== src/Monitor/Server/Renewed.antt =====
-- What a change of password opens.
use quake_mesh.Base.{
  ◌≡◌, refl, sym, ap, ◌∙◌, inl, inr, ℕ, Bool, false, ◌&&◌, Option, none, some, ltb, length,
  Bool-cases, Option-cases, ◌==◌, if_elim, arith,
}
use quake_mesh.Base.Text.{Text, text_eq, text_beq_refl}
use quake_mesh.Base.Map.{lookup}
use quake_mesh.Storage.{Db, Result, ok, err, AdminRow, query}
use quake_mesh.Monitor.Auth.{
  Bcrypt, Moment, Outcome, Session, Store, admin, change_found, change_password, default_password,
  default_username, default_reused, done, failed, invalid_credentials, locked_out, no_hash,
  no_token, no_user, not_different, too_short, password_stored, settle, settle_all, store_password,
  validate_found, validate_session,
}
use quake_mesh.Monitor.Auth.Sessions.{lookup-settle_all}
use quake_mesh.Monitor.Server.{
  Decoder, Handler, Request, accepted, change_answer, change_decoded, change_for, guarded,
  handle_change_password, post, require_auth, session, session_token,
}

-- A change that is done has settled the sessions of its user.
abbrev Settles : Text → Store → Outcome (Unit {0}) × Store → Type 0
Settles name s r = r.0 ≡ done tt → r.1.sessions ≡ settle_all name s.sessions

password_stored-Settles :
    (name : Text) (s : Store) (r : Result (Unit {0}) × Db)
    → Settles name s (password_stored name s r)
unfolding password_stored
password_stored-Settles name s (err e, db) = λ says. cc
password_stored-Settles name s (ok u, db) = λ says. refl

store_password-Settles :
    (name : Text) (hash : Option Text) (s : Store) → Settles name s (store_password name hash s)
unfolding store_password
store_password-Settles name none s = λ says. cc
store_password-Settles name (some hash) s = password_stored-Settles name s _

change_found-Settles :
    (b : Bcrypt) (salt : ℕ) (name current fresh : Text) (s : Store)
    (r : Result (Option AdminRow) × Db)
    → Settles name s (change_found b salt name current fresh s r)
unfolding change_found
change_found-Settles b salt name current fresh s (err e, db) = λ says. cc
change_found-Settles b salt name current fresh s (ok none, db) = λ says. cc
change_found-Settles b salt name current fresh s (ok (some row), db) =
    if_elim (Settles name s) (b.compare row.password_hash current)
      (store_password-Settles name (b.generate salt fresh) (record s { db = db })) (λ says. cc)

change_password-Settles :
    (b : Bcrypt) (salt : ℕ) (name current fresh : Text) (s : Store)
    → Settles name s (change_password b salt name current fresh s)
unfolding change_password
change_password-Settles b salt name current fresh s =
    if_elim (Settles name s) (ltb (length fresh) 8) (λ says. cc)
      (if_elim (Settles name s) (current == fresh) (λ says. cc)
        (if_elim (Settles name s) ((name == default_username) && (fresh == default_password))
          (λ says. cc)
          (change_found-Settles b salt name current fresh s (query (admin name) s.db))))

change_answer-accepted : (o : Outcome (Unit {0})) → change_answer o ≡ accepted → o ≡ done tt
unfolding change_answer
change_answer-accepted (done u) says = refl
change_answer-accepted invalid_credentials says = ground (arith, says)
change_answer-accepted locked_out says = ground (arith, says)
change_answer-accepted too_short says = ground (arith, says)
change_answer-accepted not_different says = ground (arith, says)
change_answer-accepted default_reused says = ground (arith, says)
change_answer-accepted no_hash says = ground (arith, says)
change_answer-accepted no_token says = ground (arith, says)
change_answer-accepted no_user says = ground (arith, says)
change_answer-accepted (failed e) says = ground (arith, says)

change_decoded-Settles :
    (b : Bcrypt) (salt : ℕ) (name : Text) (o : Option (Text × Text)) (s : Store)
    → (change_decoded b salt name o s).0 ≡ accepted
    → (change_decoded b salt name o s).1.sessions ≡ settle_all name s.sessions
unfolding change_decoded
change_decoded-Settles b salt name none s says = ground (arith, says)
change_decoded-Settles b salt name (some (current, fresh)) s says =
    change_password-Settles b salt name current fresh s
      (change_answer-accepted (change_password b salt name current fresh s).0 says)

change_for-Settles :
    (j : Decoder) (b : Bcrypt) (salt : ℕ) (r : Request) (v : Option (Text × Bool) × Store)
    → (change_for j b salt r v).0 ≡ accepted
    → (p : Text × Bool) × (v.0 ≡ some p)
      × ((change_for j b salt r v).1.sessions ≡ settle_all p.0 v.1.sessions)
unfolding change_for
change_for-Settles j b salt r (none, s) says = ground (arith, says)
change_for-Settles j b salt r (some (name, change), s) says =
    ((name, change), refl, change_decoded-Settles b salt name (j.passwords r.body) s says)

handle_change_password-Settles :
    (j : Decoder) (b : Bcrypt) (salt : ℕ) (now : Moment) (r : Request) (s : Store)
    → (handle_change_password j b salt now r s).0 ≡ accepted
    → (p : Text × Bool) × ((session r now s).0 ≡ some p)
      × ((handle_change_password j b salt now r s).1.sessions
          ≡ settle_all p.0 (session r now s).1.sessions)
unfolding handle_change_password
handle_change_password-Settles j b salt now r s says = elim (Bool-cases (r.method == post)) [
  | inl right ↦ rw right (change_for-Settles j b salt r (session r now s) (rw right at says))
  | inr wrong ↦ absurd (ground (arith, wrong, says))
]

-- What a session that is accepted says of the store.
abbrev Valid : Text → Moment → Store → Text × Bool → Type 0
Valid token now s p =
    (sess : Session) × (lookup token s.sessions ≡ some sess)
    × (ltb sess.expires_at now ≡ false)
    × (sess.username ≡ p.0)

validate_session-Valid :
    (token : Text) (now : Moment) (s : Store) (p : Text × Bool)
    → (validate_session token now s).0 ≡ some p
    → Valid token now s p × ((validate_session token now s).1 ≡ s)
unfolding validate_session validate_found
validate_session-Valid token now s p says = elim (Option-cases (lookup token s.sessions)) [
  | inl missing ↦ absurd (ground (arith, missing, says))
  | inr (sess, found) ↦ elim (Bool-cases (ltb sess.expires_at now)) [
    | inl over ↦ absurd (ground (arith, found, over, says))
    | inr kept ↦
        let same : some (sess.username, sess.must_change_password) ≡ some p =
          rw (found, kept) at says in
        let stays : (validate_session token now s).1 ≡ s = rw (found, kept) refl in
        ((sess, found, kept, cc), stays)
  ]
]

-- The guard lets a session through whose user has no change pending.
require_auth_settled :
    {W : Type 0} (next : Handler W) (at : Moment) (r : Request) (s : Store) (w : W) (name : Text)
    (sess : Session)
    → lookup (session_token r) s.sessions ≡ some (settle name sess)
    → ltb sess.expires_at at ≡ false
    → sess.username ≡ name
    → require_auth next at r (s, w) ≡ next (record r { user = name }) (s, w)
unfolding require_auth session validate_session validate_found guarded
require_auth_settled next at r s w name sess found kept whose =
    rw (found, whose, text_beq_refl name, kept) refl

-- Where a change of password is accepted, the session that made it passes the guard from then until
-- it expires: whichever page it asks for is called with its user's name, without another change.
pub require_auth-handle_change_password :
    {W : Type 0} (next : Handler W) (j : Decoder) (b : Bcrypt) (salt : ℕ) (now at : Moment)
    (r asks : Request) (s : Store) (w : W) (name : Text) (change : Bool)
    → (handle_change_password j b salt now r s).0 ≡ accepted
    → asks.cookie ≡ r.cookie
    → (session r at s).0 ≡ some (name, change)
    → let after = (handle_change_password j b salt now r s).1 in
      require_auth next at asks (after, w) ≡ next (record asks { user = name }) (after, w)
unfolding session
require_auth-handle_change_password next j b salt now at r asks s w name change says same valid =
    let (p, before, settled) = handle_change_password-Settles j b salt now r s says in
    let ((sess, found, kept, whose), stays) =
      validate_session-Valid (session_token r) at s (name, change) valid in
    let ((old, found', kept', whose'), stays') =
      validate_session-Valid (session_token r) now s p before in
    let one : some old ≡ some sess = sym found' ∙ found in
    let once : old ≡ sess = cc in
    let named : p.0 ≡ name = sym whose' ∙ ap (λ o. o.username) once ∙ whose in
    let held : lookup (session_token r) (session r now s).1.sessions ≡ some sess =
      rw stays' found in
    let new : lookup (session_token r) (handle_change_password j b salt now r s).1.sessions
        ≡ some (settle name sess) =
      rw settled (
        rw named
          (lookup-settle_all name (session_token r) (session r now s).1.sessions sess held)) in
    require_auth_settled next at asks (handle_change_password j b salt now r s).1 w name sess
      (rw same new) kept whose
