-- ===== src/Sqlite/Life.antt =====
-- src/libdbo_backend_sqlite.c: libdbo_backend_sqlite_initialize, _shutdown, _connect, _disconnect and
-- _free. What SQLite does there is a second parameter, `Library`. The flag __sqlite3_initialized is
-- part of the backend's state, as in Session.
use dbo.Prelude.{
  ℕ, Bool, true, false, not, Option, none, some, List, ok, error_unknown, Outcome, done, undefined,
  ◌>>=◌, if◌then◌else◌, is_some,
}
use dbo.Prelude.Int.{ℤ, pos, ◌<ℤ◌}
use dbo.Prelude.Text.{Text, codes, atoi}
use dbo.Configuration
use dbo.Configuration.{Configuration}
use dbo.Backend.Functions.{Answer, call}
use dbo.Sqlite.Session.{Engine, Backend}
use dbo.Sqlite.Transactions.{rollback, transact}

-- Whether sqlite3_initialize and sqlite3_shutdown answer SQLITE_OK; the pointer that sqlite3_open_v2
-- leaves for a file, which may be set although it fails, and whether it answers SQLITE_OK; the same
-- for sqlite3_busy_handler of a database, and for sqlite3_close of a database with a number of
-- statements that are not finalized.
pub record Library (Db : Type 0) : Type 0 where
  pub initializes : Bool
  pub shuts_down : Bool
  pub opens : Option Text → Option Db × Bool
  pub handles_busy : Db → Bool
  pub closes : Db → ℕ → Bool

-- LIBDBO_BACKEND_SQLITE_DEFAULT_TIMEOUT and LIBDBO_BACKEND_SQLITE_DEFAULT_USLEEP
abbrev pub default_timeout : ℤ
default_timeout = pos 30

abbrev pub default_usleep : ℤ
default_usleep = pos 200000

-- The data of a new handle, all zero, with __sqlite3_initialized as it is.
abbrev pub zero_data : {Db : Type 0} → Bool → Backend Db
zero_data flag = record {
  initialized = flag;
  db = none;
  transaction = false;
  timeout = pos 0;
  usleep = pos 0;
  live = 0;
}

-- A number in the configuration: `start` where it has none, and the default for one below 1.
unfoldable pub number : Option (List Configuration) → Text → ℤ → Outcome ℤ
unfolding Configuration.find Configuration.value_of
number cs name start = call (Configuration.find cs (some name)) (done start) λ found.
    call (Configuration.value_of (some found)) undefined
      λ v. atoi v >>= λ n. if n <ℤ pos 1 then done default_timeout else done n

module _ {Db : Type 0} (lib : Library Db) where
  unfoldable pub initialize : Option (Backend Db) → Answer (Backend Db)
  initialize none = done (error_unknown, none)
  initialize (some s) =
      if s.initialized
      then done (ok, some s)
      else if not lib.initializes
      then done (error_unknown, some s)
      else done (ok, some (record s { initialized = true }))

  unfoldable pub shutdown : Option (Backend Db) → Answer (Backend Db)
  shutdown none = done (error_unknown, none)
  shutdown (some s) =
      if not s.initialized
      then done (ok, some s)
      else if not lib.shuts_down
      then done (error_unknown, some s)
      else done (ok, some (record s { initialized = false }))

  -- The end of libdbo_backend_sqlite_connect: the file is opened and the busy handler set.
  unfoldable pub open_file : Backend Db → Option Text → Answer (Backend Db)
  open_file s file =
      let opened = record s { db = (lib.opens file).0 } in
      if not ((lib.opens file).1)
      then done (error_unknown, some opened)
      else elim ((lib.opens file).0) [
        | none ↦ done (error_unknown, some opened)
        | some db ↦
            if lib.handles_busy db
            then done (ok, some opened)
            else done (error_unknown, some (record s { db = none }))
      ]

  -- libdbo_backend_sqlite_connect, once the tests are passed
  unfoldable pub configure : Backend Db → Option (List Configuration) → Answer (Backend Db)
  unfolding open_file
  configure s cs =
      call (Configuration.find cs (some (codes "file"))) (done (error_unknown, some s)) λ file.
        number cs (codes "timeout") default_timeout >>= λ timeout.
        number cs (codes "usleep") default_usleep >>= λ usleep.
        open_file (record s { timeout = timeout; usleep = usleep })
          (Configuration.value_of (some file))

  unfoldable pub connect : Option (Backend Db) → Option (List Configuration) → Answer (Backend Db)
  unfolding configure
  connect none cs = done (error_unknown, none)
  connect (some s) cs =
      if not s.initialized
      then done (error_unknown, some s)
      else if is_some s.db
      then done (error_unknown, some s)
      else if is_some cs
      then configure s cs
      else done (error_unknown, some s)

module _ {Db : Type 0} (e : Engine Db) (lib : Library Db) where
  -- `if (backend_sqlite->transaction) libdbo_backend_sqlite_transaction_rollback(backend_sqlite);`
  abbrev pub rolled_back : Backend Db → Option (Backend Db)
  unfolding transact
  rolled_back s = if s.transaction then (transact e rollback (some s)).1 else some s

  -- `sqlite3_close(backend_sqlite->db)`
  unfoldable pub close : Option (Backend Db) → Answer (Backend Db)
  close none = undefined
  close (some s) = call s.db (done (error_unknown, some s)) λ db.
      if lib.closes db s.live
      then done (ok, some (record s { db = none }))
      else done (error_unknown, some s)

  unfoldable pub disconnect : Option (Backend Db) → Answer (Backend Db)
  unfolding close
  disconnect none = done (error_unknown, none)
  disconnect (some s) =
      if not s.initialized
      then done (error_unknown, some s)
      else if is_some s.db
      then close (rolled_back s)
      else done (error_unknown, some s)

  unfoldable pub free : Option (Backend Db) → Outcome (Option (Backend Db))
  unfolding disconnect
  free none = done none
  free (some s) = if is_some s.db then disconnect (some s) >>= (λ r. done (r.1)) else done (some s)
