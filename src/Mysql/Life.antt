-- ===== src/Mysql/Life.antt =====
-- src/libdbo_backend_mysql.c: libdbo_backend_mysql_initialize, _shutdown, _connect, _disconnect and
-- _free. What MySQL does there is a second parameter, `Client`. The flag __mysql_initialized is part
-- of the backend's state, as in Session.
use dbo.Prelude.{
  ℕ, Bool, true, false, not, Option, none, some, List, Status, ok, error_unknown, Outcome, done,
  undefined, ◌>>=◌, if◌then◌else◌, is_some,
}
use dbo.Prelude.Int.{ℤ, pos, ◌<ℤ◌, to_unsigned32}
use dbo.Prelude.Text.{Text, codes, atoi, Memory}
use dbo.Configuration
use dbo.Configuration.{Configuration}
use dbo.Backend.Functions.{Answer, call}
use dbo.Sqlite.Transactions.{rollback}
use dbo.Mysql.Session.{Server, Backend}
use dbo.Mysql.Operations.{transact}

-- Whether mysql_library_init succeeds; the pointer of mysql_init; mysql_options with the timeout,
-- mysql_real_connect with host, user, password, database and port, and mysql_autocommit, each with the
-- connection it leaves, or none where it fails.
pub record Client (Db : Type 0) : Type 0 where
  pub initializes : Bool
  pub allocates : Option Db
  pub options : Db → ℕ → Option Db
  pub connects : Db → Option Text → Option Text → Option Text → Option Text → ℕ → Option Db
  pub autocommits : Db → Option Db

-- LIBDBO_BACKEND_MYSQL_DEFAULT_TIMEOUT
abbrev pub default_timeout : ℕ
default_timeout = 30

-- The data of a new handle, all zero, with __mysql_initialized as it is.
abbrev pub zero_data : {Db : Type 0} → Bool → Backend Db
zero_data flag = record {
  initialized = flag;
  db = none;
  transaction = false;
  timeout = 0;
  live = 0;
}

-- `atoi(libdbo_configuration_value(…))`
unfoldable pub number : Configuration → Outcome ℤ
unfolding Configuration.value_of
number c = call (Configuration.value_of (some c)) undefined λ v. atoi v

-- The port, converted to an unsigned int, 0 where there is none.
unfoldable pub port_of : List Configuration → Outcome ℕ
unfolding Configuration.find number
port_of cs =
    call (Configuration.find (some cs) (some (codes "port"))) (done 0)
      λ found. number found >>= λ n. done (to_unsigned32 n)

-- The timeout: the default where there is none and for one below 1.
unfoldable pub timeout_of : List Configuration → Outcome ℕ
unfolding Configuration.find number
timeout_of cs =
    call (Configuration.find (some cs) (some (codes "timeout"))) (done default_timeout)
      λ found. number found >>= λ n. done (if n <ℤ pos 1 then default_timeout else to_unsigned32 n)

-- `(host ? libdbo_configuration_value(host) : NULL)`
unfoldable pub text_of : List Configuration → Text → Option Text
unfolding Configuration.find Configuration.value_of
text_of cs name = Configuration.value_of (Configuration.find (some cs) (some name))

module _ {Db : Type 0} (client : Client Db) where
  unfoldable pub initialize : Option (Backend Db) → Answer (Backend Db)
  initialize none = done (error_unknown, none)
  initialize (some s) =
      if s.initialized
      then done (ok, some s)
      else if not client.initializes
      then done (error_unknown, some s)
      else done (ok, some (record s { initialized = true }))

  -- The condition around mysql_real_connect: each call is made where those before it succeed.
  unfoldable pub real_connect : List Configuration → ℕ → ℕ → Option Db
  unfolding text_of
  real_connect cs timeout port = call client.allocates none λ db.
      call (client.options db timeout) none λ db'.
        call
          (client.connects db' (text_of cs (codes "host")) (text_of cs (codes "user"))
            (text_of cs (codes "pass")) (text_of cs (codes "db")) port)
          none client.autocommits

  -- libdbo_backend_mysql_connect, once the tests are passed. Where one of the calls fails, the
  -- connection is closed and the pointer is NULL again.
  unfoldable pub configure : Backend Db → List Configuration → Answer (Backend Db)
  unfolding real_connect port_of timeout_of
  configure s cs = port_of cs >>= λ port. timeout_of cs >>= λ timeout.
      elim (real_connect cs timeout port) [
        | none ↦ done (error_unknown, some (record s { timeout = timeout }))
        | some db ↦ done (ok, some (record s { timeout = timeout; db = some db }))
      ]

  unfoldable pub connect : Option (Backend Db) → Option (List Configuration) → Answer (Backend Db)
  unfolding configure
  connect (some s) (some cs) =
      if not s.initialized
      then done (error_unknown, some s)
      else if is_some s.db
      then done (error_unknown, some s)
      else configure s cs
  connect handle _ = done (error_unknown, handle)

unfoldable pub shutdown : {Db : Type 0} → Option (Backend Db) → Answer (Backend Db)
shutdown none = done (error_unknown, none)
shutdown (some s) =
    if s.initialized then done (ok, some (record s { initialized = false })) else done (ok, some s)

module _ {Db : Type 0} (e : Server Db) where
  -- `if (backend_mysql->transaction) libdbo_backend_mysql_transaction_rollback(backend_mysql);`
  unfoldable pub rolled_back : Backend Db → Memory → Outcome (Status × Option (Backend Db) × Memory)
  unfolding transact
  rolled_back s m = if s.transaction then transact e rollback (some s) m else done (ok, some s, m)

  -- `mysql_close(backend_mysql->db)`, with the pointer set to NULL
  abbrev pub close :
      Status × Option (Backend Db) × Memory → Outcome (Status × Option (Backend Db) × Memory)
  close (_, none, m) = undefined
  close (_, some s, m) = done (ok, some (record s { db = none }), m)

  unfoldable pub disconnect :
      Option (Backend Db) → Memory → Outcome (Status × Option (Backend Db) × Memory)
  unfolding rolled_back
  disconnect none m = done (error_unknown, none, m)
  disconnect (some s) m =
      if not s.initialized
      then done (error_unknown, some s, m)
      else if is_some s.db
      then rolled_back s m >>= close
      else done (error_unknown, some s, m)

  unfoldable pub free : Option (Backend Db) → Memory → Outcome (Option (Backend Db) × Memory)
  unfolding disconnect
  free none m = done (none, m)
  free (some s) m =
      if is_some s.db then disconnect (some s) m >>= (λ r. done (r.1, r.2)) else done (some s, m)
