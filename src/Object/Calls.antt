-- ===== src/Object/Calls.antt =====
-- src/libdbo_object.c: struct libdbo_object with its setters, and the calls that an object passes on
-- to its connection. Objects share connections, so that an object has the address of one, and what
-- is at the addresses is passed in and out.
use dbo.Prelude.{
  ℕ, Option, none, some, List, Status, ok, error_unknown, is_some, if◌then◌else◌, Outcome, done,
  undefined, ◌==◌,
}
use dbo.Prelude.Text.{Text, Memory}
use dbo.Value.Sets.{ValueSet}
use dbo.Object.{ObjectField, DatabaseObject}
use dbo.Clause.Tree.{ClauseList}
use dbo.Join.{Join}
use dbo.Backend.Functions.{Answer, call}
use dbo.Connection
use dbo.Connection.{Connection}
use dbo.Chain.{Ptr}

-- struct libdbo_object; `Meta` stands for the list of meta data, of which only whether it is set
-- is looked at here.
pub record Object (Meta : Type 0) : Type 0 where
  pub connection : Option Ptr
  pub table : Option Text
  pub primary_key_name : Option Text
  pub object_field_list : Option (List ObjectField)
  pub backend_meta_data_list : Option Meta

-- The connections by address; the use of an address that has none is undefined.
abbrev pub Connections : Type 0 → Type 0 → Type 0
Connections Data Rows = Ptr → Option (Connection Data Rows)

module _ {Meta : Type 0} where
  -- libdbo_object_new, where memory is given
  abbrev pub zero_object : Object Meta
  zero_object = record {
    connection = none;
    table = none;
    primary_key_name = none;
    object_field_list = none;
    backend_meta_data_list = none;
  }

  -- What a backend reads of an object.
  abbrev pub seen : Object Meta → DatabaseObject
  seen o = record {
    table = o.table;
    primary_key_name = o.primary_key_name;
    object_field_list = o.object_field_list;
  }

  -- `if (object_field_list) … object_field_list … else … object->object_field_list`
  abbrev pub fields_or : Option (List ObjectField) → Object Meta → Option (List ObjectField)
  fields_or none o = o.object_field_list
  fields_or (some fs) o = some fs

  -- libdbo_object_set_connection
  unfoldable pub set_connection : Option (Object Meta) → Option Ptr → Status × Option (Object Meta)
  set_connection none c = (error_unknown, none)
  set_connection (some o) none = (error_unknown, some o)
  set_connection (some o) (some c) =
      if is_some o.connection
      then (error_unknown, some o)
      else (ok, some (record o { connection = some c }))

  -- libdbo_object_set_table
  unfoldable pub set_table : Option (Object Meta) → Option Text → Status × Option (Object Meta)
  set_table none t = (error_unknown, none)
  set_table (some o) none = (error_unknown, some o)
  set_table (some o) (some t) =
      if is_some o.table then (error_unknown, some o) else (ok, some (record o { table = some t }))

  -- libdbo_object_set_primary_key_name
  unfoldable pub set_primary_key_name :
      Option (Object Meta) → Option Text → Status × Option (Object Meta)
  set_primary_key_name none n = (error_unknown, none)
  set_primary_key_name (some o) none = (error_unknown, some o)
  set_primary_key_name (some o) (some n) =
      if is_some o.primary_key_name
      then (error_unknown, some o)
      else (ok, some (record o { primary_key_name = some n }))

  -- libdbo_object_set_object_field_list
  unfoldable pub set_object_field_list :
      Option (Object Meta) → Option (List ObjectField) → Status × Option (Object Meta)
  set_object_field_list none fs = (error_unknown, none)
  set_object_field_list (some o) none = (error_unknown, some o)
  set_object_field_list (some o) (some fs) =
      if is_some o.object_field_list
      then (error_unknown, some o)
      else (ok, some (record o { object_field_list = some fs }))

  -- libdbo_object_set_backend_meta_data_list; a list that is set is replaced
  unfoldable pub set_backend_meta_data_list :
      Option (Object Meta) → Option Meta → Status × Option (Object Meta)
  set_backend_meta_data_list none l = (error_unknown, none)
  set_backend_meta_data_list (some o) none = (error_unknown, some o)
  set_backend_meta_data_list (some o) (some l) =
      (ok, some (record o { backend_meta_data_list = some l }))

module _ {Data Rows : Type 0} where
  -- The connection as a call has left it, at its address; the call is of a connection that is there.
  abbrev pub put :
      Connections Data Rows → Ptr → Option (Connection Data Rows) → Connections Data Rows
  put s p c q = if q == p then c else s q

  abbrev pub keeping :
      Connections Data Rows
      → Ptr
      → Answer (Connection Data Rows)
      → Outcome (Status × Connections Data Rows)
  keeping s p (done (r, c)) = done (r, put s p c)
  keeping s p undefined = undefined

  abbrev pub keeping_rows :
      Connections Data Rows
      → Ptr
      → Outcome (Option Rows × Option (Connection Data Rows) × Memory)
      → Outcome (Option Rows × Connections Data Rows × Memory)
  keeping_rows s p (done (r, c, m)) = done (r, put s p c, m)
  keeping_rows s p undefined = undefined

  abbrev pub keeping_count :
      Connections Data Rows
      → Ptr
      → Outcome (Status × Option ℕ × Option (Connection Data Rows))
      → Outcome (Status × Option ℕ × Connections Data Rows)
  keeping_count s p (done (r, n, c)) = done (r, n, put s p c)
  keeping_count s p undefined = undefined

module _ {Data Rows Meta : Type 0} where
  -- The tests that all calls of an object begin with, then the call at the object's connection.
  unfoldable pub connected :
      {A : Type 0}
      → Object Meta
      → Connections Data Rows
      → Outcome A
      → (Ptr → Connection Data Rows → Outcome A)
      → Outcome A
  connected o s early rest =
      call o.connection early λ p.
        call o.table early λ t. call o.primary_key_name early λ n. call (s p) undefined (rest p)

  -- libdbo_object_create
  unfoldable pub create :
      Connections Data Rows
      → Option (Object Meta)
      → Option (List ObjectField)
      → Option ValueSet
      → Outcome (Status × Connections Data Rows)
  unfolding connected
  create s (some o) fs (some set) =
      connected o s (done (error_unknown, s))
        λ p c. keeping s p (Connection.create (some c) (some (seen o)) (fields_or fs o) (some set))
  create s _ fs _ = done (error_unknown, s)

  -- libdbo_object_read
  unfoldable pub read :
      Connections Data Rows
      → Option (Object Meta)
      → Option (List Join)
      → ClauseList
      → Memory
      → Outcome (Option Rows × Connections Data Rows × Memory)
  unfolding connected
  read s none joins l m = done (none, s, m)
  read s (some o) joins l m =
      connected o s (done (none, s, m))
        λ p c. keeping_rows s p (Connection.read (some c) (some (seen o)) joins l m)

  -- libdbo_object_update
  unfoldable pub update :
      Connections Data Rows
      → Option (Object Meta)
      → Option (List ObjectField)
      → Option ValueSet
      → ClauseList
      → Outcome (Status × Connections Data Rows)
  unfolding connected
  update s (some o) fs (some set) l =
      connected o s (done (error_unknown, s)) λ p c.
        keeping s p (Connection.update (some c) (some (seen o)) (fields_or fs o) (some set) l)
  update s _ fs _ l = done (error_unknown, s)

  -- libdbo_object_delete
  unfoldable pub delete :
      Connections Data Rows
      → Option (Object Meta)
      → ClauseList
      → Outcome (Status × Connections Data Rows)
  unfolding connected
  delete s none l = done (error_unknown, s)
  delete s (some o) l =
      connected o s (done (error_unknown, s))
        λ p c. keeping s p (Connection.delete (some c) (some (seen o)) l)

  -- libdbo_object_count
  unfoldable pub count :
      Connections Data Rows
      → Option (Object Meta)
      → Option (List Join)
      → ClauseList
      → Option ℕ
      → Outcome (Status × Option ℕ × Connections Data Rows)
  unfolding connected
  count s (some o) joins l (some n) =
      connected o s (done (error_unknown, some n, s))
        λ p c. keeping_count s p (Connection.count (some c) (some (seen o)) joins l (some n))
  count s _ joins l n = done (error_unknown, n, s)
