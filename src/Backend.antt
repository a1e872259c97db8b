-- ===== src/Backend.antt =====
-- src/libdbo_backend.c: struct libdbo_backend, a handle with a name, and the calls that it passes on
-- to its handle, each after its own tests.
pub mod Functions
pub mod Setters
pub mod Factory
pub mod Making
pub mod MetaData
pub mod MetaCopying
mod Examples
use dbo.Prelude.{
  ℕ, Option, none, some, List, Status, ok, error_unknown, is_some, if◌then◌else◌, Outcome, done,
  undefined,
}
use dbo.Prelude.Text.{Text, Memory, strdup}
use dbo.Value.Sets.{ValueSet}
use dbo.Object.{ObjectField, DatabaseObject}
use dbo.Clause.Tree.{ClauseList}
use dbo.Join.{Join}
use dbo.Configuration.{Configuration}
use dbo.Backend.Functions
use dbo.Backend.Functions.{Answer, Handle, call}

-- struct libdbo_backend
pub record Backend (Data Rows : Type 0) : Type 0 where
  pub name : Option Text
  pub handle : Option (Handle Data Rows)

-- libdbo_backend_new, where memory is given
abbrev pub zero_backend : {Data Rows : Type 0} → Backend Data Rows
zero_backend = record { name = none; handle = none }

module _ {Data Rows : Type 0} where
  -- The handle as a call has left it.
  abbrev pub keeping : Backend Data Rows → Answer (Handle Data Rows) → Answer (Backend Data Rows)
  keeping b (done (r, h)) = done (r, some (record b { handle = h }))
  keeping b undefined = undefined

  abbrev pub keeping_rows :
      Backend Data Rows
      → Outcome (Option Rows × Option (Handle Data Rows) × Memory)
      → Outcome (Option Rows × Option (Backend Data Rows) × Memory)
  keeping_rows b (done (r, h, m)) = done (r, some (record b { handle = h }), m)
  keeping_rows b undefined = undefined

  abbrev pub keeping_count :
      Backend Data Rows
      → Outcome (Status × Option ℕ × Option (Handle Data Rows))
      → Outcome (Status × Option ℕ × Option (Backend Data Rows))
  keeping_count b (done (r, n, h)) = done (r, n, some (record b { handle = h }))
  keeping_count b undefined = undefined

  -- libdbo_backend_set_name; NULL is given to strdup untested
  unfoldable pub set_name :
      Option (Backend Data Rows)
      → Option Text
      → Memory
      → Outcome (Status × Option (Backend Data Rows) × Memory)
  set_name none n m = done (error_unknown, none, m)
  set_name (some b) none m = undefined
  set_name (some b) (some n) m = elim ((strdup n m).0) [
    | none ↦ done (error_unknown, some b, (strdup n m).1)
    | some copy ↦ done (ok, some (record b { name = some copy }), (strdup n m).1)
  ]

  -- libdbo_backend_set_handle
  unfoldable pub set_handle :
      Option (Backend Data Rows) → Option (Handle Data Rows) → Status × Option (Backend Data Rows)
  set_handle none h = (error_unknown, none)
  set_handle (some b) h =
      if is_some b.handle then (error_unknown, some b) else (ok, some (record b { handle = h }))

  -- libdbo_backend_not_empty
  unfoldable pub not_empty : Option (Backend Data Rows) → Status
  not_empty none = error_unknown
  not_empty (some b) =
      if is_some b.name then if is_some b.handle then ok else error_unknown else error_unknown

  -- The functions that have no arguments but the backend, by the handle's function that they call.
  unfoldable pub pass :
      (Option (Handle Data Rows) → Answer (Handle Data Rows))
      → Option (Backend Data Rows)
      → Answer (Backend Data Rows)
  pass f none = done (error_unknown, none)
  pass f (some b) = call b.handle (done (error_unknown, some b)) λ h. keeping b (f (some h))

  -- libdbo_backend_initialize
  abbrev pub initialize : Option (Backend Data Rows) → Answer (Backend Data Rows)
  initialize = pass Functions.initialize

  -- libdbo_backend_shutdown
  abbrev pub shutdown : Option (Backend Data Rows) → Answer (Backend Data Rows)
  shutdown = pass Functions.shutdown

  -- libdbo_backend_disconnect
  abbrev pub disconnect : Option (Backend Data Rows) → Answer (Backend Data Rows)
  disconnect = pass Functions.disconnect

  -- libdbo_backend_transaction_begin
  abbrev pub transaction_begin : Option (Backend Data Rows) → Answer (Backend Data Rows)
  transaction_begin = pass Functions.transaction_begin

  -- libdbo_backend_transaction_commit
  abbrev pub transaction_commit : Option (Backend Data Rows) → Answer (Backend Data Rows)
  transaction_commit = pass Functions.transaction_commit

  -- libdbo_backend_transaction_rollback
  abbrev pub transaction_rollback : Option (Backend Data Rows) → Answer (Backend Data Rows)
  transaction_rollback = pass Functions.transaction_rollback

  -- libdbo_backend_connect
  unfoldable pub connect :
      Option (Backend Data Rows) → Option (List Configuration) → Answer (Backend Data Rows)
  unfolding Functions.connect
  connect (some b) (some cs) =
      call b.handle (done (error_unknown, some b))
        λ h. keeping b (Functions.connect (some h) (some cs))
  connect backend _ = done (error_unknown, backend)

  -- libdbo_backend_create
  unfoldable pub create :
      Option (Backend Data Rows)
      → Option DatabaseObject
      → Option (List ObjectField)
      → Option ValueSet
      → Answer (Backend Data Rows)
  create (some b) (some o) (some fs) (some set) =
      call b.handle (done (error_unknown, some b))
        λ h. keeping b (Functions.create (some h) (some o) (some fs) (some set))
  create backend _ _ _ = done (error_unknown, backend)

  -- libdbo_backend_read
  unfoldable pub read :
      Option (Backend Data Rows)
      → Option DatabaseObject
      → Option (List Join)
      → ClauseList
      → Memory
      → Outcome (Option Rows × Option (Backend Data Rows) × Memory)
  read (some b) (some o) joins l m =
      call b.handle (done (none, some b, m))
        λ h. keeping_rows b (Functions.read (some h) (some o) joins l m)
  read backend _ joins l m = done (none, backend, m)

  -- libdbo_backend_update
  unfoldable pub update :
      Option (Backend Data Rows)
      → Option DatabaseObject
      → Option (List ObjectField)
      → Option ValueSet
      → ClauseList
      → Answer (Backend Data Rows)
  update (some b) (some o) (some fs) (some set) l =
      call b.handle (done (error_unknown, some b))
        λ h. keeping b (Functions.update (some h) (some o) (some fs) (some set) l)
  update backend _ _ _ l = done (error_unknown, backend)

  -- libdbo_backend_delete
  unfoldable pub delete :
      Option (Backend Data Rows) → Option DatabaseObject → ClauseList → Answer (Backend Data Rows)
  delete (some b) (some o) l =
      call b.handle (done (error_unknown, some b))
        λ h. keeping b (Functions.delete (some h) (some o) l)
  delete backend _ l = done (error_unknown, backend)

  -- libdbo_backend_count
  unfoldable pub count :
      Option (Backend Data Rows)
      → Option DatabaseObject
      → Option (List Join)
      → ClauseList
      → Option ℕ
      → Outcome (Status × Option ℕ × Option (Backend Data Rows))
  count (some b) (some o) joins l (some n) =
      call b.handle (done (error_unknown, some n, some b))
        λ h. keeping_count b (Functions.count (some h) (some o) joins l (some n))
  count backend _ joins l n = done (error_unknown, n, backend)

  -- libdbo_backend_free
  unfoldable pub free : Option (Backend Data Rows) → Outcome (Option Data)
  unfolding Functions.free
  free none = done none
  free (some b) = Functions.free b.handle
