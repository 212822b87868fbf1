-- ===== src/Storage/Laws.antt =====
-- What holds of every statement and of every transaction.
use quake_mesh.Base.{◌≡◌, ◌⊎◌, inl, inr, refl, suc, arith, Bool-cases}
use quake_mesh.Storage.{
  Db, Tables, M, Error, Result, exec_checked, stored, after, pure, ◌>>◌, ok, err, fault, ◌>>=◌,
  query, exec, transaction, ran, Healthy,
}

module _ {A : Type 0} where
  pub query-tables : (f : Tables → A) (db : Db) → (query f db).1.tables ≡ db.tables
  unfolding query
  query-tables f db = ground arith

  pub query_up : (f : Tables → A) (db : Db) → Healthy db → query f db ≡ (ok (f db.tables), ran db)
  unfolding query
  query_up f db h = rw (h db.done)

  -- A transaction that fails leaves the tables as they were.
  pub transaction-err :
      (m : M A) (db : Db) {e : Error}
      → (transaction m db).0 ≡ err e
      → (transaction m db).1.tables ≡ db.tables
  unfolding transaction
  transaction-err m db h = ground arith

  -- One that succeeds did what its body did.
  pub transaction-ok :
      (m : M A) (db : Db) {a : A}
      → (transaction m db).0 ≡ ok a
      → ((m (ran db)).0 ≡ ok a) × ((transaction m db).1.tables ≡ (m (ran db)).1.tables)
  unfolding transaction
  transaction-ok m db h = ground arith

module _ {A B : Type 0} where
  -- A chain that begins with a read goes on from what was read.
  pub query_bind-ok :
      (f : Tables → A) (k : A → M B) (db : Db) {b : B}
      → ((query f >>= k) db).0 ≡ ok b
      → (query f >>= k) db ≡ k (f db.tables) (ran db)
  unfolding query
  query_bind-ok f k db h = ground arith

  pub query_bind-err-or :
      (f : Tables → A) (k : A → M B) (db : Db)
      → ((query f >>= k) db ≡ (err fault, ran db)) ⊎ ((query f >>= k) db ≡ k (f db.tables) (ran db))
  unfolding query
  query_bind-err-or f k db = ground arith

-- A chain that begins with a write goes on from what was written.
pub exec_then-ok :
    {B : Type 0} (f : Tables → Tables) (k : M B) (db : Db) {b : B}
    → ((exec f >> k) db).0 ≡ ok b
    → (exec f >> k) db ≡ k (record db { tables = f db.tables; done = suc db.done })
unfolding exec
exec_then-ok f k db h = ground arith

pub exec-ok :
    (f : Tables → Tables) (db : Db) {u : Unit {0}}
    → (exec f db).0 ≡ ok u
    → exec f db ≡ (ok tt, record db { tables = f db.tables; done = suc db.done })
unfolding exec
exec-ok f db h = ground arith

pub exec-err :
    (f : Tables → Tables) (db : Db) {e : Error}
    → (exec f db).0 ≡ err e
    → exec f db ≡ (err fault, ran db)
unfolding exec
exec-err f db h = ground arith

-- Where no statement fails, each does what it says.
pub exec_up :
    (f : Tables → Tables) (db : Db)
    → Healthy db
    → exec f db ≡ (ok tt, record db { tables = f db.tables; done = suc db.done })
unfolding exec
exec_up f db up = rw (up db.done)

pub query_bind_up :
    {A B : Type 0} (f : Tables → A) (k : A → M B) (db : Db)
    → Healthy db
    → (query f >>= k) db ≡ k (f db.tables) (ran db)
unfolding query
query_bind_up f k db up = rw (up db.done)

stored-ok :
    (db : Db) (r : Result Tables) {u : Unit {0}}
    → (stored db r).0 ≡ ok u
    → (t : Tables) × (r ≡ ok t)
      × (stored db r ≡ (ok tt, record db { tables = t; done = suc db.done }))
stored-ok db (ok t) h = (t, refl, refl)
stored-ok db (err e) h = cc

-- A checked write that succeeds wrote what its check accepted.
pub exec_checked-ok :
    (f : Tables → Result Tables) (db : Db) {u : Unit {0}}
    → (exec_checked f db).0 ≡ ok u
    → (t : Tables) × (f db.tables ≡ ok t)
      × (exec_checked f db ≡ (ok tt, record db { tables = t; done = suc db.done }))
unfolding exec_checked
exec_checked-ok f db h = elim (Bool-cases (db.faults db.done)) [
  | inl down ↦ ground arith
  | inr up ↦ rw up (stored-ok db (f db.tables) (rw up at h))
]

pub exec_checked-err :
    (f : Tables → Result Tables) (db : Db) {e : Error}
    → (exec_checked f db).0 ≡ err e
    → exec_checked f db ≡ (err e, ran db)
unfolding exec_checked
exec_checked-err f db h = ground arith

pub exec_checked_up :
    (f : Tables → Result Tables) (db : Db)
    → Healthy db
    → exec_checked f db ≡ stored db (f db.tables)
unfolding exec_checked
exec_checked_up f db up = rw (up db.done)

-- A write followed by a plain result: where the whole succeeds the write did, and that is all.
pub before_pure :
    {B : Type 0} (m : M (Unit {0})) (b : B) (db : Db) {c : B}
    → ((m >> pure b) db).0 ≡ ok c
    → ((m db).0 ≡ ok tt) × (((m >> pure b) db).1 ≡ (m db).1)
before_pure m b db h = ground arith

after-ok :
    {A B : Type 0} (r : Result A × Db) (k : A → M B) {b : B}
    → (after r k).0 ≡ ok b
    → (a : A) × (r.0 ≡ ok a) × ((k a r.1).0 ≡ ok b)
after-ok (ok a, db) k h = (a, refl, h)
after-ok (err e, db) k h = cc

-- A chain that succeeds did so in both parts.
pub bind-ok :
    {A B : Type 0} (m : M A) (k : A → M B) (db : Db) {b : B}
    → ((m >>= k) db).0 ≡ ok b
    → (a : A) × ((m db).0 ≡ ok a) × ((k a (m db).1).0 ≡ ok b)
bind-ok m k db h = after-ok (m db) k h

pub ok_inj : {A : Type 0} (a b : A) → ok a ≡ ok b → a ≡ b
ok_inj a b h = cc
