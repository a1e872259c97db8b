-- ===== src/Connection.antt =====
-- src/libdbo_connection.c: a connection, which has a configuration list and a backend, with the
-- calls that it passes on to the backend. What libdbo_backend_factory_get_backend gives for a name is
-- an argument of setup.

pub mod Setup
mod Examples
use dbo.Prelude.{
  ℕ, Option, none, some, List, Status, ok, error_unknown, is_some, if◌then◌else◌, Outcome, done,
  undefined,
}
use dbo.Prelude.Text.{Text, codes, Memory}
use dbo.Value.Sets.{ValueSet}
use dbo.Object.{ObjectField, DatabaseObject}
use dbo.Clause.Tree.{ClauseList}
use dbo.Join.{Join}
use dbo.Configuration
use dbo.Configuration.{Configuration}
use dbo.Backend.Functions.{Answer, call}
use dbo.Backend
use dbo.Backend.{Backend}

-- struct libdbo_connection
pub record Connection (Data Rows : Type 0) : Type 0 where
  pub configuration_list : Option (List Configuration)
  pub backend : Option (Backend Data Rows)

-- libdbo_connection_new, where memory is given
abbrev pub zero_connection : {Data Rows : Type 0} → Connection Data Rows
zero_connection = record { configuration_list = none; backend = none }

module _ {Data Rows : Type 0} where
  -- The backend as a call has left it.
  abbrev pub keeping :
      Connection Data Rows → Answer (Backend Data Rows) → Answer (Connection Data Rows)
  keeping c (done (r, b)) = done (r, some (record c { backend = b }))
  keeping c undefined = undefined

  abbrev pub keeping_rows :
      Connection Data Rows
      → Outcome (Option Rows × Option (Backend Data Rows) × Memory)
      → Outcome (Option Rows × Option (Connection Data Rows) × Memory)
  keeping_rows c (done (r, b, m)) = done (r, some (record c { backend = b }), m)
  keeping_rows c undefined = undefined

  abbrev pub keeping_count :
      Connection Data Rows
      → Outcome (Status × Option ℕ × Option (Backend Data Rows))
      → Outcome (Status × Option ℕ × Option (Connection Data Rows))
  keeping_count c (done (r, n, b)) = done (r, n, some (record c { backend = b }))
  keeping_count c undefined = undefined

  -- libdbo_connection_set_configuration_list
  unfoldable pub set_configuration_list :
      Option (Connection Data Rows)
      → Option (List Configuration)
      → Status × Option (Connection Data Rows)
  set_configuration_list none cs = (error_unknown, none)
  set_configuration_list (some c) cs =
      if is_some c.configuration_list
      then (error_unknown, some c)
      else (ok, some (record c { configuration_list = cs }))

  -- The search for the backend's name in libdbo_connection_setup, and the call of the factory.
  unfoldable pub find_backend :
      (Option Text → Memory → Outcome (Option (Backend Data Rows) × Memory))
      → Connection Data Rows
      → List Configuration
      → Memory
      → Outcome (Status × Option (Connection Data Rows) × Memory)
  unfolding Configuration.find Configuration.value_of
  find_backend factory c cs m =
      call (Configuration.find (some cs) (some (codes "backend"))) (done (error_unknown, some c, m))
        λ found. elim (factory (Configuration.value_of (some found)) m) [
          | undefined ↦ undefined
          | done (none, m') ↦ done (error_unknown, some c, m')
          | done (some b, m') ↦ done (ok, some (record c { backend = some b }), m')
        ]

  -- libdbo_connection_setup
  unfoldable pub setup :
      (Option Text → Memory → Outcome (Option (Backend Data Rows) × Memory))
      → Option (Connection Data Rows)
      → Memory
      → Outcome (Status × Option (Connection Data Rows) × Memory)
  unfolding find_backend
  setup factory none m = done (error_unknown, none, m)
  setup factory (some c) m =
      call c.configuration_list (done (error_unknown, some c, m))
        λ cs. if is_some c.backend then done (ok, some c, m) else find_backend factory c cs m

  -- libdbo_connection_connect
  unfoldable pub connect : Option (Connection Data Rows) → Answer (Connection Data Rows)
  connect none = done (error_unknown, none)
  connect (some c) = call c.configuration_list (done (error_unknown, some c)) λ cs.
      call c.backend (done (error_unknown, some c))
        λ b. keeping c (Backend.connect (some b) (some cs))

  -- The functions that have no arguments but the connection, by the backend's function.
  unfoldable pub pass :
      (Option (Backend Data Rows) → Answer (Backend Data Rows))
      → Option (Connection Data Rows)
      → Answer (Connection Data Rows)
  pass f none = done (error_unknown, none)
  pass f (some c) = call c.backend (done (error_unknown, some c)) λ b. keeping c (f (some b))

  -- libdbo_connection_disconnect
  abbrev pub disconnect : Option (Connection Data Rows) → Answer (Connection Data Rows)
  disconnect = pass Backend.disconnect

  -- libdbo_connection_transaction_begin
  abbrev pub transaction_begin : Option (Connection Data Rows) → Answer (Connection Data Rows)
  transaction_begin = pass Backend.transaction_begin

  -- libdbo_connection_transaction_commit
  abbrev pub transaction_commit : Option (Connection Data Rows) → Answer (Connection Data Rows)
  transaction_commit = pass Backend.transaction_commit

  -- libdbo_connection_transaction_rollback
  abbrev pub transaction_rollback : Option (Connection Data Rows) → Answer (Connection Data Rows)
  transaction_rollback = pass Backend.transaction_rollback

  -- libdbo_connection_create
  unfoldable pub create :
      Option (Connection Data Rows)
      → Option DatabaseObject
      → Option (List ObjectField)
      → Option ValueSet
      → Answer (Connection Data Rows)
  create (some c) (some o) (some fs) (some set) =
      call c.backend (done (error_unknown, some c))
        λ b. keeping c (Backend.create (some b) (some o) (some fs) (some set))
  create connection _ _ _ = done (error_unknown, connection)

  -- libdbo_connection_read
  unfoldable pub read :
      Option (Connection Data Rows)
      → Option DatabaseObject
      → Option (List Join)
      → ClauseList
      → Memory
      → Outcome (Option Rows × Option (Connection Data Rows) × Memory)
  read (some c) (some o) joins l m =
      call c.backend (done (none, some c, m))
        λ b. keeping_rows c (Backend.read (some b) (some o) joins l m)
  read connection _ joins l m = done (none, connection, m)

  -- libdbo_connection_update
  unfoldable pub update :
      Option (Connection Data Rows)
      → Option DatabaseObject
      → Option (List ObjectField)
      → Option ValueSet
      → ClauseList
      → Answer (Connection Data Rows)
  update (some c) (some o) (some fs) (some set) l =
      call c.backend (done (error_unknown, some c))
        λ b. keeping c (Backend.update (some b) (some o) (some fs) (some set) l)
  update connection _ _ _ l = done (error_unknown, connection)

  -- libdbo_connection_delete
  unfoldable pub delete :
      Option (Connection Data Rows)
      → Option DatabaseObject
      → ClauseList
      → Answer (Connection Data Rows)
  delete (some c) (some o) l =
      call c.backend (done (error_unknown, some c))
        λ b. keeping c (Backend.delete (some b) (some o) l)
  delete connection _ l = done (error_unknown, connection)

  -- libdbo_connection_count
  unfoldable pub count :
      Option (Connection Data Rows)
      → Option DatabaseObject
      → Option (List Join)
      → ClauseList
      → Option ℕ
      → Outcome (Status × Option ℕ × Option (Connection Data Rows))
  count (some c) (some o) joins l (some n) =
      call c.backend (done (error_unknown, some n, some c))
        λ b. keeping_count c (Backend.count (some b) (some o) joins l (some n))
  count connection _ joins l n = done (error_unknown, n, connection)

  -- libdbo_connection_free
  unfoldable pub free : Option (Connection Data Rows) → Outcome (Option Data)
  unfolding Backend.free
  free none = done none
  free (some c) = Backend.free c.backend
