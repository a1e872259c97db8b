-- ===== src/Sqlite/Session.antt =====
-- src/libdbo_backend_sqlite.c: the backend's state and how statements are prepared, stepped and
-- finalized. What SQLite does is a parameter, `Engine`; `db` is the state of a database with the
-- connection to it, which changes only when a statement is stepped. The busy handler and the field
-- `time` that only it reads are left out; `timeout` and `usleep` are what connect sets for it.
use dbo.Prelude.{
  ℕ, suc, ◌-◌, Bool, true, false, ◌&&◌, not, Option, none, some, List, Status, ok, error_unknown,
  Outcome, done, undefined, if◌then◌else◌, take, ltb,
}
use dbo.Prelude.Int.{ℤ}
use dbo.Prelude.Text.{Text}
use dbo.Prelude.Run.{Run, returns, fails, crashes}
use dbo.Sqlite.Bind.{Bound, Binds, Accepts}

-- The result of sqlite3_prepare_v2: an error, or SQLITE_OK and whether the statement is not NULL,
-- which it is for a text that holds no statement.
pub data Prepared : Type 0 where
  refused : Prepared
  prepared : Bool → Prepared

-- The result of sqlite3_step: SQLITE_DONE, SQLITE_ROW or another code.
pub data Stepped : Type 0 where
  finished row other : Stepped

-- sqlite3_column_type
pub data ColumnType : Type 0 where
  integer_column text_column other_column : ColumnType

-- The columns of the row that a statement stands at, by number: sqlite3_column_int,
-- sqlite3_column_int64, sqlite3_column_text, sqlite3_column_type, and whether sqlite3_errcode after
-- such a call is none of SQLITE_OK, SQLITE_ROW and SQLITE_DONE.
pub record Row : Type 0 where
  pub int : ℕ → ℤ
  pub int64 : ℕ → ℤ
  pub text : ℕ → Option Text
  pub type : ℕ → ColumnType
  pub is_error : ℕ → Bool

-- SQLite, by database, SQL text and bound values; `changes` is sqlite3_changes.
pub record Engine (Db : Type 0) : Type 0 where
  pub prepares : Db → Text → Prepared
  pub accepts : Db → Text → Accepts
  pub steps : Db → Text → List (ℕ × Bound) → Db × Stepped
  pub changes : Db → ℕ
  pub row : Db → Text → List (ℕ × Bound) → Row

-- struct libdbo_backend_sqlite with __sqlite3_initialized, and the number of statements that are
-- prepared and not finalized.
pub record Backend (Db : Type 0) : Type 0 where
  pub initialized : Bool
  pub db : Option Db
  pub transaction : Bool
  pub timeout : ℤ
  pub usleep : ℤ
  pub live : ℕ

-- A statement: the text that SQLite read, and whether the pointer is not NULL.
pub record Statement : Type 0 where
  pub sql : Text
  pub exists : Bool

module _ {Db : Type 0} (e : Engine Db) where
  -- __db_backend_sqlite_prepare, for a NULL `*statement`: `size` bytes of the text are read. A
  -- statement that comes with an error is finalized at once.
  unfoldable pub prepare : Backend Db → Text → ℕ → Option (Statement × Backend Db)
  prepare s sql size = elim s.db [
    | none ↦ none
    | some db ↦ elim (e.prepares db (take size sql)) [
      | refused ↦ none
      | prepared exists ↦ some (
        record { sql = take size sql; exists = exists },
        record s { live = if exists then suc s.live else s.live },
      )
    ]
  ]

  -- Whether sqlite3_bind_* of a statement answers SQLITE_OK; it does not for NULL.
  abbrev pub accepts_of : Backend Db → Statement → Accepts
  accepts_of s st k x = elim s.db [ none ↦ false | some db ↦ st.exists && e.accepts db st.sql k x ]

  -- __db_backend_sqlite_step
  unfoldable pub step : Backend Db → Statement → List (ℕ × Bound) → Stepped × Backend Db
  step s st bound = elim s.db [
    | none ↦ (Stepped.other, s)
    | some db ↦
        if st.exists
        then ((e.steps db st.sql bound).1, record s { db = some ((e.steps db st.sql bound).0) })
        else (Stepped.other, s)
  ]

-- __db_backend_sqlite_finalize
unfoldable pub finalize : {Db : Type 0} → Statement → Backend Db → Backend Db
finalize st s = record s { live = if st.exists then s.live - 1 else s.live }

-- The rest of an operation after a part that may return early, leaving a state behind.
abbrev pub or_fail :
    {Db A : Type 0}
    → Run A
    → Backend Db
    → (A → Outcome (Status × Option (Backend Db)))
    → Outcome (Status × Option (Backend Db))
or_fail (returns a) s rest = rest a
or_fail fails s rest = done (error_unknown, some s)
or_fail crashes s rest = undefined

abbrev pub is_finished : Stepped → Bool
is_finished Stepped.finished = true
is_finished _ = false

abbrev pub changes_of : {Db : Type 0} → Engine Db → Backend Db → ℕ
changes_of e s = elim s.db [ none ↦ 0 | some db ↦ e.changes db ]

-- The end of create, update and delete: the text in the buffer is prepared, values are bound, the
-- statement is stepped once and finalized; with a revision field a change is required.
unfoldable pub execute :
    {Db : Type 0}
    → Engine Db
    → Backend Db
    → Text
    → (Accepts → Run Binds)
    → Bool
    → Outcome (Status × Option (Backend Db))
unfolding prepare step finalize
execute e s sql bind revised = elim (prepare e s sql 4096) [
  | none ↦ done (error_unknown, some s)
  | some (st, opened) ↦ or_fail (bind (accepts_of e opened st)) (finalize st opened) λ binds.
      let stepped = step e opened st binds.bound in
      let closed = finalize st stepped.1 in
      if not (is_finished stepped.0)
      then done (error_unknown, some closed)
      else if revised && ltb (changes_of e closed) 1
      then done (error_unknown, some closed)
      else done (ok, some closed)
]
