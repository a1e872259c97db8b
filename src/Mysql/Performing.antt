-- ===== src/Mysql/Performing.antt =====
-- What a call of src/libdbo_backend_mysql.c that answers ok has MySQL carry out.
use dbo.Prelude.{
  ℕ, ◌≡◌, refl, Bool, true, Option, some, [], Status, ok, error_unknown, Outcome, done, arith,
  Option-cases, inl, inr,
}
use dbo.Prelude.Text.{Text, Memory}
use dbo.Prelude.Run.{Run, returns, fails, crashes}
use dbo.Sqlite.Results.{attempt}
use dbo.Sqlite.Execute.{Run-cases}
use dbo.Mysql.Bind.{Inputs}
use dbo.Mysql.Session.{Server, Backend, prepare, execute, finish, sent}
use dbo.Mysql.Operations.{perform, after_reset}

module _ {Db : Type 0} (e : Server Db) where
  -- A statement was prepared, its binds were set, and it was executed once, with success, on what the
  -- binds send after the variable `revision` was reset; nothing else of the backend has changed.
  pub record Performed (s : Backend Db) (sql : Text) (bind : Inputs → Run Inputs) (s' : Backend Db)
      : Type 0 where
    pub db : Db
    pub opened : s.db ≡ some db
    pub params : ℕ
    pub prepares : e.prepares db sql ≡ some params
    pub bound : Inputs
    pub binds : bind (record { params = params; bind = 0; sends = [] }) ≡ returns bound
    pub executes : (e.executes db sql (sent e bound after_reset)).1 ≡ true
    pub after : s' ≡ record s { db = some ((e.executes db sql (sent e bound after_reset)).0) }

  pub perform-Performed :
      (s : Backend Db) (sql : Text) (bind : Inputs → Run Inputs) (enough : ℕ → Bool) (m m' : Memory)
      (s' : Backend Db)
      → perform e s sql bind enough m ≡ done (ok, some s', m')
      → Performed s sql bind s'
  unfolding perform prepare execute finish
  perform-Performed s sql bind enough m m' s' h = elim (Option-cases s.db) [
    | inl closed ↦ absurd (ground (arith, closed, h))
    | inr (db, opened) ↦ elim (Option-cases (e.prepares db sql)) [
      | inl refused ↦ absurd (ground (arith, opened, refused, h))
      | inr (params, prepares) ↦
          elim (Run-cases (bind (record { params = params; bind = 0; sends = [] }))) [
            | inl (bound, binds) ↦ record {
              db = db;
              opened = opened;
              params = params;
              prepares = prepares;
              bound = bound;
              binds = binds;
              executes = ground (arith, opened, prepares, binds, h);
              after = ground (arith, opened, prepares, binds, h);
            }
            | inr (inl failed) ↦ absurd (ground (arith, opened, prepares, failed, h))
            | inr (inr crashed) ↦ absurd (ground (arith, opened, prepares, crashed, h))
          ]
    ]
  ]

-- An early return with the error, left behind.
pub attempt-ok :
    {A Db : Type 0} (r : Run A) (s : Backend Db) (m₀ : Memory)
    (f : A → Outcome (Status × Option (Backend Db) × Memory)) (s' : Backend Db) (m' : Memory)
    → attempt r (error_unknown, some s, m₀) f ≡ done (ok, some s', m')
    → (a : A) × (r ≡ returns a) × (f a ≡ done (ok, some s', m'))
attempt-ok (returns a) s m₀ f s' m' h = (a, refl, h)
attempt-ok fails s m₀ f s' m' h = absurd (ground (arith, h))
attempt-ok crashes s m₀ f s' m' h = absurd (ground (arith, h))
