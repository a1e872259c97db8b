-- ===== src/Sqlite/NewHandle.antt =====
-- src/libdbo_backend_sqlite.c: libdbo_backend_sqlite_new_handle, the table of the functions of this
-- backend. A result list of the backend is the cursor that it walks.
use dbo.Prelude.{Bool, Option, none, some, Status, ok, error_unknown, is_ok, if◌then◌else◌, done}
use dbo.Prelude.Text.{Memory, allocate}
use dbo.Backend.Functions.{Handle, zero_handle, set_data}
use dbo.Backend.Setters
use dbo.Sqlite.Session.{Engine, Backend}
use dbo.Sqlite.Operations
use dbo.Sqlite.Results
use dbo.Sqlite.Results.{Cursor}
use dbo.Sqlite.Transactions.{begin, commit, rollback, transact}
use dbo.Sqlite.Life
use dbo.Sqlite.Life.{Library, zero_data}

-- `a || b` of two setters: the second one is called where the first answers ok.
infixl 5 ◌|||◌
abbrev pub ◌|||◌ : {A : Type 0} → Status × A → (A → Status × A) → Status × A
(ok, h) ||| set = set h
(error_unknown, h) ||| set = (error_unknown, h)

module _ {Db : Type 0} (e : Engine Db) (lib : Library Db) where
  -- The setters, one after another, on a new handle.
  unfoldable pub filled : Bool → Status × Option (Handle (Backend Db) Cursor)
  filled flag =
      set_data (some zero_handle) (some (zero_data flag))
      ||| (λ h. Setters.set_initialize h (some (Life.initialize lib)))
      ||| (λ h. Setters.set_shutdown h (some (Life.shutdown lib)))
      ||| (λ h. Setters.set_connect h (some (Life.connect lib)))
      ||| (λ h. Setters.set_disconnect h (some (Life.disconnect e lib)))
      ||| (λ h. Setters.set_create h (some (Operations.create e)))
      ||| (λ h. Setters.set_read h (some (Results.read e)))
      ||| (λ h. Setters.set_update h (some (Operations.update e)))
      ||| (λ h. Setters.set_delete h (some (Operations.delete e)))
      ||| (λ h. Setters.set_count h (some (Results.count e)))
      ||| (λ h. Setters.set_free h (some (Life.free e lib)))
      ||| (λ h. Setters.set_transaction_begin h (some (λ d. done (transact e begin d))))
      ||| (λ h. Setters.set_transaction_commit h (some (λ d. done (transact e commit d))))
      ||| (λ h. Setters.set_transaction_rollback h (some (λ d. done (transact e rollback d))))

  -- The data and the handle are allocated; a handle that a setter refuses is freed.
  unfoldable pub new_handle : Bool → Memory → Option (Handle (Backend Db) Cursor) × Memory
  unfolding filled
  new_handle flag m =
      let handle_memory = (allocate m).1 in
      if (allocate m).0
      then (if (allocate handle_memory).0
          then (
            (if is_ok ((filled flag).0) then (filled flag).1 else none),
            (allocate handle_memory).1,
          )
          else (none, (allocate handle_memory).1))
      else (none, handle_memory)
