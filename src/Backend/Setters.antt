-- ===== src/Backend/Setters.antt =====
-- src/libdbo_backend.c: the functions libdbo_backend_handle_set_*, which put a function, or NULL, into
-- a handle that is not NULL.
use dbo.Prelude.{ℕ, Option, none, some, List, Status, ok, error_unknown, Outcome}
use dbo.Prelude.Text.{Memory}
use dbo.Value.Sets.{ValueSet}
use dbo.Object.{ObjectField, DatabaseObject}
use dbo.Clause.Tree.{ClauseList}
use dbo.Join.{Join}
use dbo.Configuration.{Configuration}
use dbo.Backend.Functions.{Answer, Handle}

module _ {Data Rows : Type 0} where
  unfoldable pub set_initialize :
      Option (Handle Data Rows)
      → Option (Option Data → Answer Data)
      → Status × Option (Handle Data Rows)
  set_initialize none f = (error_unknown, none)
  set_initialize (some h) f = (ok, some (record h { initialize_function = f }))

  unfoldable pub set_shutdown :
      Option (Handle Data Rows)
      → Option (Option Data → Answer Data)
      → Status × Option (Handle Data Rows)
  set_shutdown none f = (error_unknown, none)
  set_shutdown (some h) f = (ok, some (record h { shutdown_function = f }))

  unfoldable pub set_connect :
      Option (Handle Data Rows)
      → Option (Option Data → Option (List Configuration) → Answer Data)
      → Status × Option (Handle Data Rows)
  set_connect none f = (error_unknown, none)
  set_connect (some h) f = (ok, some (record h { connect_function = f }))

  unfoldable pub set_disconnect :
      Option (Handle Data Rows)
      → Option (Option Data → Answer Data)
      → Status × Option (Handle Data Rows)
  set_disconnect none f = (error_unknown, none)
  set_disconnect (some h) f = (ok, some (record h { disconnect_function = f }))

  unfoldable pub set_create :
      Option (Handle Data Rows)
      → Option (
          Option Data
          → Option DatabaseObject
          → Option (List ObjectField)
          → Option ValueSet
          → Answer Data)
      → Status × Option (Handle Data Rows)
  set_create none f = (error_unknown, none)
  set_create (some h) f = (ok, some (record h { create_function = f }))

  unfoldable pub set_read :
      Option (Handle Data Rows)
      → Option (
          Option Data
          → Option DatabaseObject
          → Option (List Join)
          → ClauseList
          → Memory
          → Outcome (Option Rows × Option Data × Memory))
      → Status × Option (Handle Data Rows)
  set_read none f = (error_unknown, none)
  set_read (some h) f = (ok, some (record h { read_function = f }))

  unfoldable pub set_update :
      Option (Handle Data Rows)
      → Option (
          Option Data
          → Option DatabaseObject
          → Option (List ObjectField)
          → Option ValueSet
          → ClauseList
          → Answer Data)
      → Status × Option (Handle Data Rows)
  set_update none f = (error_unknown, none)
  set_update (some h) f = (ok, some (record h { update_function = f }))

  unfoldable pub set_delete :
      Option (Handle Data Rows)
      → Option (Option Data → Option DatabaseObject → ClauseList → Answer Data)
      → Status × Option (Handle Data Rows)
  set_delete none f = (error_unknown, none)
  set_delete (some h) f = (ok, some (record h { delete_function = f }))

  unfoldable pub set_count :
      Option (Handle Data Rows)
      → Option (
          Option Data
          → Option DatabaseObject
          → Option (List Join)
          → ClauseList
          → Option ℕ
          → Outcome (Status × Option ℕ × Option Data))
      → Status × Option (Handle Data Rows)
  set_count none f = (error_unknown, none)
  set_count (some h) f = (ok, some (record h { count_function = f }))

  unfoldable pub set_free :
      Option (Handle Data Rows)
      → Option (Option Data → Outcome (Option Data))
      → Status × Option (Handle Data Rows)
  set_free none f = (error_unknown, none)
  set_free (some h) f = (ok, some (record h { free_function = f }))

  unfoldable pub set_transaction_begin :
      Option (Handle Data Rows)
      → Option (Option Data → Answer Data)
      → Status × Option (Handle Data Rows)
  set_transaction_begin none f = (error_unknown, none)
  set_transaction_begin (some h) f = (ok, some (record h { transaction_begin_function = f }))

  unfoldable pub set_transaction_commit :
      Option (Handle Data Rows)
      → Option (Option Data → Answer Data)
      → Status × Option (Handle Data Rows)
  set_transaction_commit none f = (error_unknown, none)
  set_transaction_commit (some h) f = (ok, some (record h { transaction_commit_function = f }))

  unfoldable pub set_transaction_rollback :
      Option (Handle Data Rows)
      → Option (Option Data → Answer Data)
      → Status × Option (Handle Data Rows)
  set_transaction_rollback none f = (error_unknown, none)
  set_transaction_rollback (some h) f = (ok, some (record h { transaction_rollback_function = f }))
