-- ===== src/Sqlite/Execute.antt =====
-- What the end of create, update and delete in src/libdbo_backend_sqlite.c does to the database.
use dbo.Prelude.{
  ◌≤◌, ◌≡◌, refl, Bool, true, some, Status, ok, done, take, arith, ◌⊎◌, Option-cases, inl, inr,
}
use dbo.Prelude.Text.{Text}
use dbo.Prelude.Run.{Run, returns, fails, crashes}
use dbo.Sqlite.Bind.{Binds, Accepts}
use dbo.Sqlite.Session.{prepared, Stepped, Engine, Backend, prepare, step, finalize, execute}

pub Run-cases :
    {A : Type 0} (m : Run A) → ((a : A) × (m ≡ returns a)) ⊎ ((m ≡ fails) ⊎ (m ≡ crashes))
Run-cases (returns a) = inl (a, refl)
Run-cases fails = inr (inl refl)
Run-cases crashes = inr (inr refl)

-- The backend has the same statements, transaction and initialization as before.
abbrev pub Kept : {Db : Type 0} → Backend Db → Backend Db → Type 0
Kept s s' = (s'.live ≡ s.live) × (s'.transaction ≡ s.transaction) × (s'.initialized ≡ s.initialized)

module _ {Db : Type 0} (e : Engine Db) where
  -- The text was prepared, the values were bound and accepted, and the database went through that
  -- one step, which ended with SQLITE_DONE; nothing else of the backend has changed, and with a
  -- revision field at least one row has.
  pub record Executed (s : Backend Db) (sql : Text) (bind : Accepts → Run Binds) (revised : Bool)
      (s' : Backend Db) : Type 0 where
    pub db : Db
    pub opened : s.db ≡ some db
    pub prepares : e.prepares db (take 4096 sql) ≡ prepared true
    pub binds : Binds
    pub bound : bind (e.accepts db (take 4096 sql)) ≡ returns binds
    pub finishes : (e.steps db (take 4096 sql) binds.bound).1 ≡ Stepped.finished
    pub after : s' ≡ record s { db = some ((e.steps db (take 4096 sql) binds.bound).0) }
    pub changed : revised ≡ true → 1 ≤ e.changes ((e.steps db (take 4096 sql) binds.bound).0)

  -- The values that an operation that answers ok has bound.
  executed_binds :
      (s : Backend Db) (sql : Text) (bind : Accepts → Run Binds) (revised : Bool) (s' : Backend Db)
      (db : Db)
      → s.db ≡ some db
      → execute e s sql bind revised ≡ done (ok, some s')
      → (binds : Binds) × (bind (e.accepts db (take 4096 sql)) ≡ returns binds)
  unfolding execute prepare step finalize
  executed_binds s sql bind revised s' db opened h =
      elim (Run-cases (bind (e.accepts db (take 4096 sql)))) [
        | inl r ↦ r
        | inr (inl f) ↦ absurd (ground (arith, opened, h, f))
        | inr (inr c) ↦ absurd (ground (arith, opened, h, c))
      ]

  -- An operation that answers ok has executed its statement.
  pub execute-Executed :
      (s : Backend Db) (sql : Text) (bind : Accepts → Run Binds) (revised : Bool) (s' : Backend Db)
      → execute e s sql bind revised ≡ done (ok, some s')
      → Executed s sql bind revised s'
  unfolding execute prepare step finalize
  execute-Executed s sql bind revised s' h = elim (Option-cases s.db) [
    | inl closed ↦ absurd (ground (arith, closed, h))
    | inr (db, opened) ↦
        let (binds, bound) = executed_binds s sql bind revised s' db opened h in
        record {
          db = db;
          opened = opened;
          prepares = ground (arith, opened, h);
          binds = binds;
          bound = bound;
          finishes = ground (arith, opened, h, bound);
          after = ground (arith, opened, h, bound);
          changed = λ r. ground (arith, opened, h, bound, r);
        }
  ]

  pub execute-Kept :
      (s : Backend Db) (sql : Text) (bind : Accepts → Run Binds) (revised : Bool) (r : Status)
      (s' : Backend Db)
      → execute e s sql bind revised ≡ done (r, some s')
      → Kept s s'
  unfolding execute prepare step finalize
  execute-Kept s sql bind revised r s' h = ground arith
