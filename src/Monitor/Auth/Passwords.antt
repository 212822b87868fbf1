-- ===== src/Monitor/Auth/Passwords.antt =====
-- A changed password lets its user in.
use quake_mesh.Base.{
  ◌≡◌, refl, inl, inr, ℕ, suc, ltb, true, false, ◌&&◌, Option, none, some, length, arith,
  Bool-cases, Option-cases, ◌==◌,
}
use quake_mesh.Base.Text.{Text, text_eq, text_beq_refl}
use quake_mesh.Base.Rows.{keyed, update_where, row_at-update_where}
use quake_mesh.Storage.{Db, AdminRow, ok, ran, Healthy}
use quake_mesh.Storage.Laws.{query_up, exec_up}
use quake_mesh.Monitor.Auth.{
  Attempt, Bcrypt, Store, admin, change_found, change_password, check_lockout, done,
  default_password, default_username, login, looked_up, new_hash, password_stored, store_password,
  Moment, must_change, settle_all, username, admit, open_session,
}

abbrev changed : Text → Text → Db → Db
changed name hash db = record db {
  tables = record db.tables {
    admin_users = update_where (keyed username name) (new_hash hash) db.tables.admin_users;
  };
  done = suc db.done;
}

-- A change that is done has stored a hash of the new password.
change_found-stores :
    (b : Bcrypt) (salt : ℕ) (name current fresh : Text) (s : Store) (o : Option AdminRow) (db : Db)
    → Healthy db
    → (change_found b salt name current fresh s (ok o, db)).0 ≡ done tt
    → (row : AdminRow) × (hash : Text) × (o ≡ some row)
      × (b.generate salt fresh ≡ some hash)
      × ((change_found b salt name current fresh s (ok o, db)).1
          ≡ record s { db = changed name hash db; sessions = settle_all name s.sessions })
unfolding change_found store_password password_stored
change_found-stores b salt name current fresh s none db up says = cc
change_found-stores b salt name current fresh s (some row) db up says =
    elim (Bool-cases (b.compare row.password_hash current)) [
      | inr wrong ↦ absurd (ground (arith, wrong, says))
      | inl right ↦ elim (Option-cases (b.generate salt fresh)) [
        | inl refused ↦ absurd (ground (arith, right, refused, says))
        | inr (hash, made) ↦ (
          row,
          hash,
          refl,
          made,
          rw (right, made)
              (rw
                (exec_up
                  (λ t. record t {
                    admin_users = update_where (keyed username name) (new_hash hash) t.admin_users;
                  })
                  db up)
                refl),
        )
      ]
    ]

change_password-stores :
    (b : Bcrypt) (salt : ℕ) (name current fresh : Text) (s : Store)
    → Healthy s.db
    → (change_password b salt name current fresh s).0 ≡ done tt
    → (row : AdminRow) × (hash : Text) × (admin name s.db.tables ≡ some row)
      × (b.generate salt fresh ≡ some hash)
      × ((change_password b salt name current fresh s).1
          ≡ record s { db = changed name hash (ran s.db); sessions = settle_all name s.sessions })
unfolding change_password
change_password-stores b salt name current fresh s up says =
    elim (Bool-cases (ltb (length fresh) 8)) [
      | inl short ↦ absurd (ground (arith, short, says))
      | inr long ↦ elim (Bool-cases (current == fresh)) [
        | inl same ↦ absurd (ground (arith, long, same, says))
        | inr new ↦ elim (Bool-cases ((name == default_username) && (fresh == default_password))) [
          | inl default ↦ absurd (ground (arith, long, new, default, says))
          | inr free ↦
              let found = query_up (admin name) s.db up in
              rw (long, new, free, found)
                (change_found-stores b salt name current fresh s (admin name s.db.tables) (ran s.db)
                  up (rw (long, new, free, found) at says))
        ]
      ]
    ]

-- A login that finds a row with a fitting hash, and nothing that locks it out, is done.
login_finds :
    (b : Bcrypt) (a : Attempt) (s : Store) (row : AdminRow) (token : Text)
    → Healthy s.db
    → check_lockout a.client a.begun s ≡ false
    → admin a.username s.db.tables ≡ some row
    → b.compare row.password_hash a.password ≡ true
    → a.token ≡ some token
    → (login b a s).0 ≡ done (token, must_change row)
unfolding login looked_up admit open_session
login_finds b a s row token up free found fits given =
    rw (free, query_up (admin a.username) s.db up, found, fits, given) refl

-- Where the database works and bcrypt accepts a password for each hash that it made of it, a change
-- of password that is done lets the user in with the new password from every client that is not
-- locked out, as soon as a token can be made, without asking for another change.
pub login-change_password :
    (b : Bcrypt) (salt : ℕ) (name current fresh : Text) (s : Store) (client token : Text)
    (begun now : Moment)
    → ((n : ℕ) (p h : Text) → b.generate n p ≡ some h → b.compare h p ≡ true)
    → Healthy s.db
    → (change_password b salt name current fresh s).0 ≡ done tt
    → check_lockout client begun s ≡ false
    → (login b
        (record {
          username = name;
          password = fresh;
          client = client;
          begun = begun;
          now = now;
          token = some token;
        })
        (change_password b salt name current fresh s).1).0
      ≡ done (token, false)
unfolding check_lockout
login-change_password b salt name current fresh s client token begun now accepts up says free =
    let (row, hash, found, made, stores) =
      change_password-stores b salt name current fresh s up says in
    let a : Attempt = record {
      username = name;
      password = fresh;
      client = client;
      begun = begun;
      now = now;
      token = some token;
    } in
    let next : Store = record s {
      db = changed name hash (ran s.db);
      sessions = settle_all name s.sessions;
    } in
    rw stores (
      login_finds b a next (new_hash hash row) token up free
        (rw
          (
            row_at-update_where username name name (new_hash hash) (λ r. refl)
                s.db.tables.admin_users,
            text_beq_refl name,
            found,
          )
          refl)
        (accepts salt fresh hash made) refl)
