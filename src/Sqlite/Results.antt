-- ===== src/Sqlite/Results.antt =====
-- src/libdbo_backend_sqlite.c: libdbo_backend_sqlite_read, _next and _count. What read hands to the
-- result list is a cursor; a result is its value set.
use dbo.Prelude.{
  ℕ, ◌≡◌, Bool, true, false, not, Option, none, some, List, Status, ok, error_unknown, Outcome,
  done, undefined, arith, if◌then◌else◌, ◌>>=◌, length,
}
use dbo.Prelude.Int.{to_unsigned64}
use dbo.Prelude.Text.{Memory, allocate}
use dbo.Prelude.Run.{Run, returns, fails, crashes}
use dbo.Value.Sets
use dbo.Value.Sets.{ValueSet}
use dbo.Object.{DatabaseObject, fields_of}
use dbo.Clause.Tree.{ClauseList, list, absent}
use dbo.Join.{Join}
use dbo.Sqlite.Bind.{Bound, Binds, bind_clause}
use dbo.Sqlite.Statements.{select_sql, count_sql}
use dbo.Sqlite.Session.{
  Engine, Row, Backend, Statement, Stepped, prepare, accepts_of, step, finalize,
}
use dbo.Sqlite.Operations.{no_binds}
use dbo.Sqlite.Columns.{read_columns}

-- struct libdbo_backend_sqlite_statement, with the values bound to the statement
pub record Cursor : Type 0 where
  pub statement : Statement
  pub bound : List (ℕ × Bound)
  pub fields : ℕ
  pub object : Option DatabaseObject

-- Early return: the answer of a part that fails.
abbrev pub attempt : {A R : Type 0} → Run A → R → (A → Outcome R) → Outcome R
attempt (returns a) r rest = rest a
attempt fails r rest = done r
attempt crashes r rest = undefined

abbrev pub is_row : Stepped → Bool
is_row Stepped.row = true
is_row _ = false

abbrev pub is_other : Stepped → Bool
is_other Stepped.other = true
is_other _ = false

-- The cursor with the pointer to the backend.
abbrev pass :
    {Db : Type 0}
    → Option Cursor × Backend Db × Memory
    → Outcome (Option Cursor × Option (Backend Db) × Memory)
pass r = done (r.0, some r.1, r.2)

-- The answer of count with its pointers.
abbrev pass_count :
    {Db : Type 0} → Status × ℕ × Backend Db → Outcome (Status × Option ℕ × Option (Backend Db))
pass_count r = done (r.0, some r.1, some r.2)

module _ {Db : Type 0} (e : Engine Db) where
  -- The row that a statement stands at.
  abbrev pub row_of : Backend Db → Statement → List (ℕ × Bound) → Option Row
  row_of s st bound = elim s.db [ none ↦ none | some db ↦ some (e.row db st.sql bound) ]

  -- A new result with a value set for the row, or NULL.
  unfoldable pub make_result :
      Option Row → Cursor → DatabaseObject → Memory → Outcome (Option ValueSet × Memory)
  unfolding read_columns
  make_result r c object m =
      let (got, m₁) = allocate m in
      let (made, m₂) = Sets.new c.fields m₁ in
      elim r [
        | none ↦ undefined
        | some columns ↦ elim made [
          | none ↦ done (none, if got then m₂ else m₁)
          | some set ↦
              if not got
              then done (none, m₁)
              else read_columns columns (fields_of object.object_field_list) 0 set m₂
        ]
      ]

  -- libdbo_backend_sqlite_next: the result, the cursor and the backend behind it.
  unfoldable pub next :
      Backend Db
      → Option Cursor
      → Bool
      → Memory
      → Outcome (Option ValueSet × Option Cursor × Backend Db × Memory)
  unfolding step finalize make_result
  next s none finish m = done (none, none, s, m)
  next s (some c) finish m = elim c.object [
    | none ↦ done (none, some c, s, m)
    | some object ↦
        if not c.statement.exists
        then done (none, some c, s, m)
        else if finish
        then done (none, none, finalize c.statement s, m)
        else let stepped = step e s c.statement c.bound in
          if not (is_row stepped.0)
          then done (none, some c, stepped.1, m)
          else make_result (row_of stepped.1 c.statement c.bound) c object m >>= λ r.
              done (r.0, some c, stepped.1, r.1)
  ]

  -- __db_backend_sqlite_bind_clause for a list that is not NULL; it refuses a NULL statement.
  abbrev pub bind_conditions : Backend Db → Statement → ClauseList → Run Binds
  bind_conditions s st absent = returns no_binds
  bind_conditions s st (list cs) =
      if st.exists then bind_clause (accepts_of e s st) (list cs) no_binds else fails

  -- libdbo_backend_sqlite_read, of an object: the cursor of the result list that it returns.
  unfoldable pub open_cursor :
      Backend Db
      → DatabaseObject
      → Option (List Join)
      → ClauseList
      → Memory
      → Outcome (Option Cursor × Backend Db × Memory)
  unfolding select_sql prepare finalize bind_clause
  open_cursor s object joins l m =
      attempt (select_sql object joins l) (none, s, m)
        λ b.
          let (got, m₁) = allocate m in
          if not got then done (none, s, m₁) else elim (prepare e s b.text 4096) [
            | none ↦ done (none, s, m₁)
            | some (st, opened) ↦
                attempt (bind_conditions opened st l) (none, finalize st opened, m₁)
                  λ binds.
                    let (listed, m₂) = allocate m₁ in
                    if not listed
                    then done (none, finalize st opened, m₂)
                    else done (
                      some (record {
                        statement = st;
                        bound = binds.bound;
                        fields = length (fields_of object.object_field_list);
                        object = some object;
                      }),
                      opened,
                      m₂,
                    )
          ]

  -- libdbo_backend_sqlite_count, of an object, with what `count` points to.
  unfoldable pub count_rows :
      Backend Db
      → DatabaseObject
      → Option (List Join)
      → ClauseList
      → ℕ
      → Outcome (Status × ℕ × Backend Db)
  unfolding count_sql prepare step finalize bind_clause
  count_rows s object joins l old =
      attempt (count_sql object joins l) (error_unknown, old, s)
        λ b. elim (prepare e s b.text 4096) [
          | none ↦ done (error_unknown, old, s)
          | some (st, opened) ↦
              attempt (bind_conditions opened st l) (error_unknown, old, finalize st opened)
                λ binds.
                  let stepped = step e opened st binds.bound in
                  let closed = finalize st stepped.1 in
                  if is_other stepped.0
                  then done (error_unknown, old, closed)
                  else elim (row_of stepped.1 st binds.bound) [
                    | none ↦ undefined
                    | some columns ↦
                        if columns.is_error 0
                        then done (error_unknown, old, closed)
                        else done (ok, to_unsigned64 (columns.int 0), closed)
                  ]
        ]

  -- libdbo_backend_sqlite_read and libdbo_backend_sqlite_count, of pointers that may be NULL
  unfoldable pub read :
      Option (Backend Db)
      → Option DatabaseObject
      → Option (List Join)
      → ClauseList
      → Memory
      → Outcome (Option Cursor × Option (Backend Db) × Memory)
  unfolding open_cursor
  read (some s) (some object) joins l m =
      if not s.initialized then done (none, some s, m) else open_cursor s object joins l m >>= pass
  read handle _ joins l m = done (none, handle, m)

  unfoldable pub count :
      Option (Backend Db)
      → Option DatabaseObject
      → Option (List Join)
      → ClauseList
      → Option ℕ
      → Outcome (Status × Option ℕ × Option (Backend Db))
  unfolding count_rows
  count (some s) (some object) joins l (some old) =
      if not s.initialized
      then done (error_unknown, some old, some s)
      else count_rows s object joins l old >>= pass_count
  count handle _ joins l out = done (error_unknown, out, handle)

-- What read does with a cursor that was opened.
pub opened_lem :
    {Db : Type 0} {c : Cursor} {s' : Backend Db} {m' : Memory}
    (r : Outcome (Option Cursor × Backend Db × Memory))
    → (r >>= pass) ≡ done (some c, some s', m')
    → r ≡ done (some c, s', m')
opened_lem undefined h = cc
opened_lem (done x) h = ground (arith, h)

-- What count does with the answer for an object.
pub answered_lem :
    {Db : Type 0} {s' : Backend Db} {n : ℕ} (r : Outcome (Status × ℕ × Backend Db))
    → (r >>= pass_count) ≡ done (ok, some n, some s')
    → r ≡ done (ok, n, s')
answered_lem undefined h = cc
answered_lem (done x) h = ground (arith, h)
