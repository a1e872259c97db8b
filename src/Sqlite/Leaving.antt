-- ===== src/Sqlite/Leaving.antt =====
-- The operations of src/libdbo_backend_sqlite.c leave the backend's data where it was: no call makes
-- the pointer NULL.
use dbo.Prelude.{◌≢◌, Bool, false, Option, none, some, List, Status, Outcome, done, arith, is_some}
use dbo.Prelude.Text.{Text}
use dbo.Prelude.Run.{Run, returns, fails, crashes}
use dbo.Value.Sets.{ValueSet}
use dbo.Object.{ObjectField, DatabaseObject, fields_of}
use dbo.Clause.Tree.{ClauseList}
use dbo.Sqlite.Bind.{Binds, Accepts}
use dbo.Sqlite.Revision.{find_revision}
use dbo.Sqlite.Statements.{insert_sql, update_sql, delete_sql}
use dbo.Sqlite.Session.{Engine, Backend, prepare, step, finalize, execute, or_fail}
use dbo.Sqlite.Operations.{
  insert_binds, update_binds, bind_where, no_binds, insert, create, modify, update, remove, delete,
  update_revision, require_revision,
}

abbrev pub Stays : {Db : Type 0} → Outcome (Status × Option (Backend Db)) → Type 0
Stays o = (r : Status) → o ≢ done (r, none)

or_fail-Stays :
    {Db A : Type 0} (m : Run A) (s : Backend Db) (f : A → Outcome (Status × Option (Backend Db)))
    → ((a : A) → Stays (f a))
    → Stays (or_fail m s f)
or_fail-Stays (returns a) s f g = g a
or_fail-Stays fails s f g = λ r h. ground (arith, h)
or_fail-Stays crashes s f g = λ r h. ground (arith, h)

module _ {Db : Type 0} (e : Engine Db) where
  execute-Stays :
      (s : Backend Db) (sql : Text) (bind : Accepts → Run Binds) (revised : Bool)
      → Stays (execute e s sql bind revised)
  unfolding execute prepare step finalize
  execute-Stays s sql bind revised r h = ground arith

  insert-Stays :
      (s : Backend Db) (object : DatabaseObject) (fs : List ObjectField) (set : ValueSet)
      → Stays (insert e s object fs set)
  unfolding insert
  insert-Stays s object fs set =
      or_fail-Stays (find_revision none (fields_of object.object_field_list)) s _ λ revision.
        or_fail-Stays (insert_sql object fs revision) s _
          λ b. execute-Stays s b.text (insert_binds set revision) false

  modify-Stays :
      (s : Backend Db) (object : DatabaseObject) (fs : List ObjectField) (set : ValueSet)
      (l : ClauseList)
      → Stays (modify e s object fs set l)
  unfolding modify
  modify-Stays s object fs set l =
      or_fail-Stays (find_revision none (fields_of object.object_field_list)) s _ λ revision.
        or_fail-Stays (update_revision revision l) s _ λ number.
          or_fail-Stays (update_sql object fs revision l) s _
            λ b. execute-Stays s b.text (update_binds set number l) (is_some revision)

  remove-Stays :
      (s : Backend Db) (object : DatabaseObject) (l : ClauseList) → Stays (remove e s object l)
  unfolding remove
  remove-Stays s object l =
      or_fail-Stays (find_revision none (fields_of object.object_field_list)) s _ λ revision.
        or_fail-Stays (require_revision revision l) s _ λ found.
          or_fail-Stays (delete_sql object l) s _ λ b.
            execute-Stays s b.text (λ accepts. bind_where l accepts no_binds) (is_some revision)

  pub create-Stays :
      (s : Backend Db) (object : DatabaseObject) (fs : List ObjectField) (set : ValueSet)
      → Stays (create e (some s) (some object) (some fs) (some set))
  unfolding create
  create-Stays s object fs set r h = ground (arith, insert-Stays s object fs set r)

  pub update-Stays :
      (s : Backend Db) (object : DatabaseObject) (fs : List ObjectField) (set : ValueSet)
      (l : ClauseList)
      → Stays (update e (some s) (some object) (some fs) (some set) l)
  unfolding update
  update-Stays s object fs set l r h = ground (arith, modify-Stays s object fs set l r)

  pub delete-Stays :
      (s : Backend Db) (object : DatabaseObject) (l : ClauseList)
      → Stays (delete e (some s) (some object) l)
  unfolding delete
  delete-Stays s object l r h = ground (arith, remove-Stays s object l r)
