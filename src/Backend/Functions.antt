-- ===== src/Backend/Functions.antt =====
-- src/libdbo_backend.c: struct libdbo_backend_handle, the table of a backend's functions, with its
-- setters and the calls that it passes on. `Data` is what the pointer `data` points to, and `Rows`
-- what a result list is for the backend. A function gets `data` and the arguments, and gives its
-- answer with what `data` points to from then on; it may run into undefined behaviour.
use dbo.Prelude.{
  ℕ, Option, none, some, List, Status, ok, error_unknown, is_some, ◌&&◌, if◌then◌else◌, Outcome,
  done, undefined,
}
use dbo.Prelude.Text.{Memory}
use dbo.Value.Sets.{ValueSet}
use dbo.Object.{ObjectField, DatabaseObject}
use dbo.Clause.Tree.{ClauseList}
use dbo.Join.{Join}
use dbo.Configuration.{Configuration}

-- What a call that answers with a status gives.
abbrev pub Answer : Type 0 → Type 0
Answer S = Outcome (Status × Option S)

-- struct libdbo_backend_handle
pub record Handle (Data Rows : Type 0) : Type 0 where
  pub initialize_function : Option (Option Data → Answer Data)
  pub shutdown_function : Option (Option Data → Answer Data)
  pub connect_function : Option (Option Data → Option (List Configuration) → Answer Data)
  pub disconnect_function : Option (Option Data → Answer Data)
  pub create_function : Option (
      Option Data
      → Option DatabaseObject
      → Option (List ObjectField)
      → Option ValueSet
      → Answer Data)
  pub read_function : Option (
      Option Data
      → Option DatabaseObject
      → Option (List Join)
      → ClauseList
      → Memory
      → Outcome (Option Rows × Option Data × Memory))
  pub update_function : Option (
      Option Data
      → Option DatabaseObject
      → Option (List ObjectField)
      → Option ValueSet
      → ClauseList
      → Answer Data)
  pub delete_function : Option (Option Data → Option DatabaseObject → ClauseList → Answer Data)
  pub count_function : Option (
      Option Data
      → Option DatabaseObject
      → Option (List Join)
      → ClauseList
      → Option ℕ
      → Outcome (Status × Option ℕ × Option Data))
  pub free_function : Option (Option Data → Outcome (Option Data))
  pub transaction_begin_function : Option (Option Data → Answer Data)
  pub transaction_commit_function : Option (Option Data → Answer Data)
  pub transaction_rollback_function : Option (Option Data → Answer Data)
  pub own_data : Option Data

-- `if (!p) return …; …`
abbrev pub call {ℓ} : {F : Type 0} {B : Type ℓ} → Option F → B → (F → B) → B
call none early rest = early
call (some f) early rest = rest f

-- libdbo_backend_handle_new, where memory is given
abbrev pub zero_handle : {Data Rows : Type 0} → Handle Data Rows
zero_handle = record {
  initialize_function = none;
  shutdown_function = none;
  connect_function = none;
  disconnect_function = none;
  create_function = none;
  read_function = none;
  update_function = none;
  delete_function = none;
  count_function = none;
  free_function = none;
  transaction_begin_function = none;
  transaction_commit_function = none;
  transaction_rollback_function = none;
  own_data = none;
}

module _ {Data Rows : Type 0} where
  -- What a function has left behind its pointer `data`.
  abbrev pub keep :
      {A : Type 0} → Handle Data Rows → A × Option Data → A × Option (Handle Data Rows)
  keep h (a, d) = (a, some (record h { own_data = d }))

  abbrev pub keeping : Handle Data Rows → Answer Data → Answer (Handle Data Rows)
  keeping h (done r) = done (keep h r)
  keeping h undefined = undefined

  abbrev pub keeping_rows :
      Handle Data Rows
      → Outcome (Option Rows × Option Data × Memory)
      → Outcome (Option Rows × Option (Handle Data Rows) × Memory)
  keeping_rows h (done (r, d, m)) = done (r, some (record h { own_data = d }), m)
  keeping_rows h undefined = undefined

  abbrev pub keeping_count :
      Handle Data Rows
      → Outcome (Status × Option ℕ × Option Data)
      → Outcome (Status × Option ℕ × Option (Handle Data Rows))
  keeping_count h (done (r, n, d)) = done (r, n, some (record h { own_data = d }))
  keeping_count h undefined = undefined

  -- The functions that have no arguments but the handle, by the field that they call.
  unfoldable pub pass :
      (Handle Data Rows → Option (Option Data → Answer Data))
      → Option (Handle Data Rows)
      → Answer (Handle Data Rows)
  pass field none = done (error_unknown, none)
  pass field (some h) = call (field h) (done (error_unknown, some h)) λ f. keeping h (f h.own_data)

  -- libdbo_backend_handle_initialize
  abbrev pub initialize : Option (Handle Data Rows) → Answer (Handle Data Rows)
  initialize = pass λ h. h.initialize_function

  -- libdbo_backend_handle_shutdown
  abbrev pub shutdown : Option (Handle Data Rows) → Answer (Handle Data Rows)
  shutdown = pass λ h. h.shutdown_function

  -- libdbo_backend_handle_disconnect
  abbrev pub disconnect : Option (Handle Data Rows) → Answer (Handle Data Rows)
  disconnect = pass λ h. h.disconnect_function

  -- libdbo_backend_handle_transaction_begin
  abbrev pub transaction_begin : Option (Handle Data Rows) → Answer (Handle Data Rows)
  transaction_begin = pass λ h. h.transaction_begin_function

  -- libdbo_backend_handle_transaction_commit
  abbrev pub transaction_commit : Option (Handle Data Rows) → Answer (Handle Data Rows)
  transaction_commit = pass λ h. h.transaction_commit_function

  -- libdbo_backend_handle_transaction_rollback
  abbrev pub transaction_rollback : Option (Handle Data Rows) → Answer (Handle Data Rows)
  transaction_rollback = pass λ h. h.transaction_rollback_function

  -- libdbo_backend_handle_connect
  unfoldable pub connect :
      Option (Handle Data Rows) → Option (List Configuration) → Answer (Handle Data Rows)
  connect (some h) (some cs) =
      call h.connect_function (done (error_unknown, some h)) λ f. keeping h (f h.own_data (some cs))
  connect handle _ = done (error_unknown, handle)

  -- libdbo_backend_handle_create
  unfoldable pub create :
      Option (Handle Data Rows)
      → Option DatabaseObject
      → Option (List ObjectField)
      → Option ValueSet
      → Answer (Handle Data Rows)
  create (some h) (some o) (some fs) (some set) =
      call h.create_function (done (error_unknown, some h))
        λ f. keeping h (f h.own_data (some o) (some fs) (some set))
  create handle _ _ _ = done (error_unknown, handle)

  -- libdbo_backend_handle_read
  unfoldable pub read :
      Option (Handle Data Rows)
      → Option DatabaseObject
      → Option (List Join)
      → ClauseList
      → Memory
      → Outcome (Option Rows × Option (Handle Data Rows) × Memory)
  read (some h) (some o) joins l m =
      call h.read_function (done (none, some h, m))
        λ f. keeping_rows h (f h.own_data (some o) joins l m)
  read handle _ joins l m = done (none, handle, m)

  -- libdbo_backend_handle_update
  unfoldable pub update :
      Option (Handle Data Rows)
      → Option DatabaseObject
      → Option (List ObjectField)
      → Option ValueSet
      → ClauseList
      → Answer (Handle Data Rows)
  update (some h) (some o) (some fs) (some set) l =
      call h.update_function (done (error_unknown, some h))
        λ f. keeping h (f h.own_data (some o) (some fs) (some set) l)
  update handle _ _ _ l = done (error_unknown, handle)

  -- libdbo_backend_handle_delete
  unfoldable pub delete :
      Option (Handle Data Rows) → Option DatabaseObject → ClauseList → Answer (Handle Data Rows)
  delete (some h) (some o) l =
      call h.delete_function (done (error_unknown, some h)) λ f. keeping h (f h.own_data (some o) l)
  delete handle _ l = done (error_unknown, handle)

  -- libdbo_backend_handle_count; the count is `none` for a NULL pointer
  unfoldable pub count :
      Option (Handle Data Rows)
      → Option DatabaseObject
      → Option (List Join)
      → ClauseList
      → Option ℕ
      → Outcome (Status × Option ℕ × Option (Handle Data Rows))
  count (some h) (some o) joins l (some n) =
      call h.count_function (done (error_unknown, some n, some h))
        λ f. keeping_count h (f h.own_data (some o) joins l (some n))
  count handle _ joins l n = done (error_unknown, n, handle)

  -- libdbo_backend_handle_free: what the backend's functions do before the handle's memory is given
  -- back.
  unfoldable pub free : Option (Handle Data Rows) → Outcome (Option Data)
  free none = done none
  free (some h) =
      let closed =
        call h.disconnect_function (done (error_unknown, h.own_data)) (λ f. f h.own_data) in
      elim closed [
        | undefined ↦ undefined
        | done r ↦ call h.free_function (done (r.1)) λ f. f (r.1)
      ]

  -- libdbo_backend_handle_set_data
  unfoldable pub set_data :
      Option (Handle Data Rows) → Option Data → Status × Option (Handle Data Rows)
  set_data none d = (error_unknown, none)
  set_data (some h) d =
      if is_some h.own_data then (error_unknown, some h) else (ok, some (record h { own_data = d }))

  -- libdbo_backend_handle_not_empty
  unfoldable pub not_empty : Option (Handle Data Rows) → Status
  not_empty none = error_unknown
  not_empty (some h) =
      if is_some h.initialize_function
        && is_some h.shutdown_function
        && is_some h.connect_function
        && is_some h.disconnect_function
        && is_some h.create_function
        && is_some h.read_function
        && is_some h.update_function
        && is_some h.count_function
        && is_some h.delete_function
        && is_some h.free_function
        && is_some h.transaction_begin_function
        && is_some h.transaction_commit_function
        && is_some h.transaction_rollback_function
      then ok
      else error_unknown
