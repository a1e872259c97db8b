-- ===== src/Sqlite/Opening.antt =====
-- What libdbo_backend_sqlite_read has prepared where it returns a result list.
use dbo.Prelude.{
  suc, ◌≡◌, refl, Bool, true, Option, none, some, List, done, arith, take, length, ap, ◌∙◌,
  Option-cases, inl, inr, if◌then◌else◌,
}
use dbo.Prelude.Text.{Text, Memory}
use dbo.Prelude.Run.{returns}
use dbo.Object.{DatabaseObject, fields_of}
use dbo.Clause.Tree.{ClauseList}
use dbo.Join.{Join}
use dbo.Sqlite.Sql.{Buffer}
use dbo.Sqlite.Bind.{Binds}
use dbo.Sqlite.Execute.{Run-cases}
use dbo.Sqlite.Session.{Engine, Backend, Statement, Prepared, refused, prepared, prepare}
use dbo.Sqlite.Prints.{take-Prints}
use dbo.Sqlite.Statements.{select_sql}
use dbo.Sqlite.Results.{Cursor, bind_conditions, open_cursor, read, opened_lem}
use dbo.Sqlite.Selecting.{select_text, select_sql-Prints, select_table}

-- The cursor's statement was prepared from the text, which SQLite reads whole, and its values bound
-- and accepted; it is the only statement that was added, and nothing else has changed.
pub record Selected {Db : Type 0} (e : Engine Db) (s : Backend Db) (object : DatabaseObject)
    (joins : Option (List Join)) (l : ClauseList) (c : Cursor) (s' : Backend Db) : Type 0 where
  pub table : Text
  pub named : object.table ≡ some table
  pub text : c.statement.sql ≡ select_text table (fields_of object.object_field_list) joins l
  pub db : Db
  pub opened : s.db ≡ some db
  pub prepares : e.prepares db c.statement.sql ≡ prepared c.statement.exists
  pub bound :
      (binds : Binds) × (bind_conditions e s c.statement l ≡ returns binds)
      × (binds.bound ≡ c.bound)
  pub fields : c.fields ≡ length (fields_of object.object_field_list)
  pub reads : c.object ≡ some object
  pub after : s' ≡ record s { live = if c.statement.exists then suc s.live else s.live }

-- The statement that is prepared from a text.
abbrev statement_of : Buffer → Bool → Statement
statement_of b exists = record { sql = take 4096 b.text; exists = exists }

module _ {Db : Type 0} (e : Engine Db) (s : Backend Db) (object : DatabaseObject)
    (joins : Option (List Join)) (l : ClauseList) (m : Memory) (c : Cursor) (s' : Backend Db)
    (m' : Memory) (h : open_cursor e s object joins l m ≡ done (some c, s', m')) where
  select_built : (b : Buffer) × (select_sql object joins l ≡ returns b)
  unfolding open_cursor
  select_built = elim (Run-cases (select_sql object joins l)) [
    | inl r ↦ r
    | inr (inl f) ↦ absurd (ground (arith, f, h))
    | inr (inr f) ↦ absurd (ground (arith, f, h))
  ]

  -- The cursor that was made, for each result of sqlite3_prepare_v2 and of the binding.
  cursor_lem :
      (db : Db) (b : Buffer) (p : Prepared)
      → s.db ≡ some db
      → select_sql object joins l ≡ returns b
      → e.prepares db (take 4096 b.text) ≡ p
      → (exists : Bool) × (binds : Binds) × (p ≡ prepared exists)
        × (bind_conditions e s (statement_of b exists) l ≡ returns binds)
        × (c ≡ record {
          statement = statement_of b exists;
          bound = binds.bound;
          fields = length (fields_of object.object_field_list);
          object = some object;
        })
        × (s' ≡ record s { live = if exists then suc s.live else s.live })
  unfolding open_cursor prepare
  cursor_lem db b refused opened built ep = absurd (ground (arith, opened, built, ep, h))
  cursor_lem db b (prepared exists) opened built ep =
      elim (Run-cases (bind_conditions e s (statement_of b exists) l)) [
        | inl (binds, bound) ↦ (
          exists,
          binds,
          refl,
          bound,
          ground (arith, opened, built, ep, bound, h),
          ground (arith, opened, built, ep, bound, h),
        )
        | inr (inl f) ↦ absurd (ground (arith, opened, built, ep, f, h))
        | inr (inr f) ↦ absurd (ground (arith, opened, built, ep, f, h))
      ]

closed_lem :
    {Db : Type 0} (e : Engine Db) (s : Backend Db) (object : DatabaseObject)
    (joins : Option (List Join)) (l : ClauseList) (m : Memory) (c : Cursor) (s' : Backend Db)
    (m' : Memory)
    → s.db ≡ none
    → open_cursor e s object joins l m ≡ done (some c, s', m')
    → ⊥
unfolding open_cursor prepare
closed_lem e s object joins l m c s' m' closed h = elim (Run-cases (select_sql object joins l)) [
  | inl (b, built) ↦ ground (arith, closed, built, h)
  | inr (inl f) ↦ ground (arith, f, h)
  | inr (inr f) ↦ ground (arith, f, h)
]

-- A read that returns a result list, from a backend that is initialized: the statement `SELECT` with
-- the object's fields by table, its table, the joins and the conditions of the clause list was
-- prepared, and the values of the conditions were bound and accepted; the cursor keeps it, with the
-- number of the object's fields. One more statement waits to be finalized, unless it is NULL, and
-- nothing else of the backend has changed.
pub read-Selected :
    {Db : Type 0} (e : Engine Db) (s : Backend Db) (object : DatabaseObject)
    (joins : Option (List Join)) (l : ClauseList) (m : Memory) (c : Cursor) (s' : Backend Db)
    (m' : Memory)
    → s.initialized ≡ true
    → read e (some s) (some object) joins l m ≡ done (some c, some s', m')
    → Selected e s object joins l c s'
unfolding read
read-Selected e s object joins l m c s' m' on h₀ =
    let h = opened_lem (open_cursor e s object joins l m) (ground (arith, on, h₀)) in
    let (b, built) = select_built e s object joins l m c s' m' h in
    let (t, named) = select_table object joins l b built in
    let (text, whole) = take-Prints _ b (select_sql-Prints object joins l t b named built) in
    elim (Option-cases s.db) [
      | inl closed ↦ absurd (closed_lem e s object joins l m c s' m' closed h)
      | inr (db, opened) ↦
          let (exists, binds, ep, bound, made, after) =
            cursor_lem e s object joins l m c s' m' h db b (e.prepares db (take 4096 b.text)) opened
              built refl in
          record {
            table = t;
            named = named;
            text = ap (λ x. x.statement.sql) made ∙ whole;
            db = db;
            opened = opened;
            prepares = ground (arith, made, ep);
            bound = (binds, ground (arith, made, bound), ground (arith, made));
            fields = ground (arith, made);
            reads = ground (arith, made);
            after = ground (arith, made, after);
          }
    ]
