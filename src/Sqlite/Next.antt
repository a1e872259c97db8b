-- ===== src/Sqlite/Next.antt =====
-- What libdbo_backend_sqlite_next does: a row that it makes a result of, and the finish.
use dbo.Prelude.{
  ℕ, ◌≡◌, refl, false, Option, some, Outcome, done, undefined, arith, get_elem?, Option-cases,
  Bool-cases, inl, inr,
}
use mathlib.Core.Path.{subst}
use dbo.Prelude.Text.{Memory, allocate}
use dbo.Value.Sets
use dbo.Value.Sets.{ValueSet}
use dbo.Object.{ObjectField, DatabaseObject, fields_of}
use dbo.Sqlite.Session.{Engine, Row, Backend, Stepped, step}
use dbo.Sqlite.Columns.{read_columns}
use dbo.Sqlite.Rows.{IsReadAt, read_columns-column_datum}
use dbo.Sqlite.Results.{Cursor, make_result, next}
use native.Mathlib.Nat.{zero-add}

made_lem :
    {Db : Type 0} (e : Engine Db) (columns : Row) (c : Cursor) (object : DatabaseObject)
    (m m' : Memory) (set : ValueSet)
    → make_result e (some columns) c object m ≡ done (some set, m')
    → (set₀ : ValueSet) × (m₀ : Memory) × (read_columns columns
          (fields_of object.object_field_list)
          0
          set₀
          m₀
        ≡ done (some set, m'))
unfolding make_result
made_lem e columns c object m m' set h =
    elim (Option-cases ((Sets.new c.fields (allocate m).1).0)) [
      | inl null ↦ absurd (ground (arith, null, h))
      | inr (set₀, there) ↦ elim (Bool-cases ((allocate m).0)) [
        | inl got ↦ (set₀, (Sets.new c.fields (allocate m).1).1, ground (arith, there, got, h))
        | inr lost ↦ absurd (ground (arith, there, lost, h))
      ]
    ]

-- A call that made a result: the statement was stepped once and stands at a row, nothing else has
-- changed, and each value of the result is read from the column of its field.
pub record Fetched {Db : Type 0} (e : Engine Db) (s : Backend Db) (c : Cursor) (set : ValueSet)
    (c' : Option Cursor) (s' : Backend Db) : Type 0 where
  pub object : DatabaseObject
  pub reads : c.object ≡ some object
  pub db : Db
  pub opened : s.db ≡ some db
  pub at_row : (e.steps db c.statement.sql c.bound).1 ≡ Stepped.row
  pub after : s' ≡ record s { db = some ((e.steps db c.statement.sql c.bound).0) }
  pub cursor : c' ≡ some c
  pub values :
      (i : ℕ) (f : ObjectField)
      → get_elem? (fields_of object.object_field_list) i ≡ some f
      → IsReadAt (e.row ((e.steps db c.statement.sql c.bound).0) c.statement.sql c.bound) set f i

module _ {Db : Type 0} (e : Engine Db) (s s' : Backend Db) (c : Cursor) (c' : Option Cursor)
    (m m' : Memory) (set : ValueSet) (object : DatabaseObject) (db : Db)
    (reads : c.object ≡ some object) (opened : s.db ≡ some db)
    (h : next e s (some c) false m ≡ done (some set, c', s', m')) where
  at_row_lem : (e.steps db c.statement.sql c.bound).1 ≡ Stepped.row
  unfolding next step
  at_row_lem = ground (arith, reads, opened, h)

  -- The result that was made.
  result_lem :
      (r : Outcome (Option ValueSet × Memory))
      → make_result e
          (some (e.row ((e.steps db c.statement.sql c.bound).0) c.statement.sql c.bound))
          c
          object
          m
        ≡ r
      → (r ≡ done (some set, m'))
        × (s' ≡ record s { db = some ((e.steps db c.statement.sql c.bound).0) })
        × (c' ≡ some c)
  unfolding next step
  result_lem undefined made = absurd (ground (arith, reads, opened, h, made, at_row_lem))
  result_lem (done (o, m₁)) made = ground (arith, reads, opened, h, made, at_row_lem)

-- A call for the next row that gives a result has stepped the statement once, to a row, and changed
-- nothing else of the backend and the cursor; the result has, for each field of the object, the
-- value that the row's column of the same number means for the type of the field.
pub next-Fetched :
    {Db : Type 0} (e : Engine Db) (s s' : Backend Db) (c : Cursor) (c' : Option Cursor)
    (m m' : Memory) (set : ValueSet)
    → next e s (some c) false m ≡ done (some set, c', s', m')
    → Fetched e s c set c' s'
unfolding next step
next-Fetched e s s' c c' m m' set h = elim (Option-cases c.object) [
  | inl no_object ↦ absurd (ground (arith, no_object, h))
  | inr (object, reads) ↦ elim (Option-cases s.db) [
    | inl closed ↦ absurd (ground (arith, reads, closed, h))
    | inr (db, opened) ↦
        let (made, after, cursor) =
          result_lem e s s' c c' m m' set object db reads opened h
            (make_result e
              (some (e.row ((e.steps db c.statement.sql c.bound).0) c.statement.sql c.bound)) c
              object m)
            refl in
        let (set₀, m₀, columns) = made_lem e _ c object m m' set made in
        record {
          object = object;
          reads = reads;
          db = db;
          opened = opened;
          at_row = at_row_lem e s s' c c' m m' set object db reads opened h;
          after = after;
          cursor = cursor;
          values = λ i f there.
              subst
                (IsReadAt (e.row ((e.steps db c.statement.sql c.bound).0) c.statement.sql c.bound)
                  set f)
                (zero-add i)
                (read_columns-column_datum _ (fields_of object.object_field_list) 0 set₀ set m₀ m' i
                  f columns there);
        }
  ]
]
