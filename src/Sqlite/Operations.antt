-- ===== src/Sqlite/Operations.antt =====
-- src/libdbo_backend_sqlite.c: create, update, delete, count and the transactions, as functions on
-- the backend's state. `data`, `object`, the lists and the value set may be NULL, which is `none`.
use dbo.Prelude.{
  false, Option, none, some, List, [], Status, error_unknown, Outcome, done, is_some, if◌then◌else◌,
}
use dbo.Prelude.Int.{ℤ, pos}
use dbo.Prelude.Run.{Run, returns, ◌>>=◌}
use dbo.Value.Sets
use dbo.Value.Sets.{ValueSet}
use dbo.Object.{ObjectField, DatabaseObject, fields_of}
use dbo.Clause.Tree.{ClauseList, list, absent}
use dbo.Sqlite.Bind.{Bound, int, int64, Binds, Accepts, put, bind_clause, bind_values}
use dbo.Sqlite.Revision.{find_revision, revision_clause, revision_number, next_revision}
use dbo.Sqlite.Statements.{insert_sql, update_sql, delete_sql}
use dbo.Sqlite.Session.{Engine, Backend, or_fail, execute}
use dbo.Value.{type_of}

abbrev pub no_binds : Binds
no_binds = record { bind = 1; bound = [] }

-- `if (clause_list) { … }`: the values of the conditions.
abbrev pub bind_where : ClauseList → Accepts → Binds → Run Binds
bind_where absent accepts s = returns s
bind_where (list cs) accepts s = bind_clause accepts (list cs) s

-- The value for a revision field.
abbrev pub bind_revision : Option Bound → Accepts → Binds → Run Binds
bind_revision none accepts s = returns s
bind_revision (some x) accepts s = put accepts x s

-- What update finds out before it builds its text: the revision field and the number to set.
unfoldable pub update_revision : Option ObjectField → ClauseList → Run (Option ℤ)
unfolding revision_clause revision_number
update_revision none l = returns none
update_revision (some f) l = do
  c ← revision_clause l f
  n ← revision_number (type_of (some c.value)) c.value
  returns (some n)

-- `revision_number + 1`, computed when it is bound.
abbrev pub bind_next_revision : Option ℤ → Accepts → Binds → Run Binds
bind_next_revision none accepts s = returns s
bind_next_revision (some n) accepts s = next_revision n >>= λ k. put accepts (int64 k) s

-- The search of delete for a clause on the revision field.
unfoldable pub require_revision : Option ObjectField → ClauseList → Run (Unit {0})
unfolding revision_clause
require_revision none l = returns tt
require_revision (some f) l = revision_clause l f >>= λ c. returns tt

-- How create binds its values; the first revision is 1.
abbrev pub insert_binds : ValueSet → Option ObjectField → Accepts → Run Binds
insert_binds set revision accepts =
    bind_values (Sets.size_of (some set)) accepts set 0 no_binds
    >>= bind_revision (if is_some revision then some (int (pos 1)) else none) accepts

-- How update binds its values.
abbrev pub update_binds : ValueSet → Option ℤ → ClauseList → Accepts → Run Binds
update_binds set number l accepts =
    bind_values (Sets.size_of (some set)) accepts set 0 no_binds
    >>= bind_next_revision number accepts
    >>= bind_where l accepts

module _ {Db : Type 0} (e : Engine Db) where
  -- libdbo_backend_sqlite_create, of arguments that are not NULL
  unfoldable pub insert :
      Backend Db
      → DatabaseObject
      → List ObjectField
      → ValueSet
      → Outcome (Status × Option (Backend Db))
  unfolding find_revision insert_sql execute
  insert s object fs set =
      or_fail (find_revision none (fields_of object.object_field_list)) s λ revision.
        or_fail (insert_sql object fs revision) s
          λ b. execute e s b.text (insert_binds set revision) false

  unfoldable pub create :
      Option (Backend Db)
      → Option DatabaseObject
      → Option (List ObjectField)
      → Option ValueSet
      → Outcome (Status × Option (Backend Db))
  unfolding insert
  create (some s) (some object) (some fs) (some set) =
      if s.initialized then insert s object fs set else done (error_unknown, some s)
  create handle _ _ _ = done (error_unknown, handle)

  -- libdbo_backend_sqlite_update, of arguments that are not NULL
  unfoldable pub modify :
      Backend Db
      → DatabaseObject
      → List ObjectField
      → ValueSet
      → ClauseList
      → Outcome (Status × Option (Backend Db))
  unfolding find_revision update_revision update_sql execute
  modify s object fs set l =
      or_fail (find_revision none (fields_of object.object_field_list)) s λ revision.
        or_fail (update_revision revision l) s λ number.
          or_fail (update_sql object fs revision l) s
            λ b. execute e s b.text (update_binds set number l) (is_some revision)

  unfoldable pub update :
      Option (Backend Db)
      → Option DatabaseObject
      → Option (List ObjectField)
      → Option ValueSet
      → ClauseList
      → Outcome (Status × Option (Backend Db))
  unfolding modify
  update (some s) (some object) (some fs) (some set) l =
      if s.initialized then modify s object fs set l else done (error_unknown, some s)
  update handle _ _ _ l = done (error_unknown, handle)

  -- libdbo_backend_sqlite_delete, of arguments that are not NULL
  unfoldable pub remove :
      Backend Db → DatabaseObject → ClauseList → Outcome (Status × Option (Backend Db))
  unfolding find_revision require_revision delete_sql execute
  remove s object l =
      or_fail (find_revision none (fields_of object.object_field_list)) s λ revision.
        or_fail (require_revision revision l) s λ found.
          or_fail (delete_sql object l) s
            λ b. execute e s b.text (λ accepts. bind_where l accepts no_binds) (is_some revision)

  unfoldable pub delete :
      Option (Backend Db)
      → Option DatabaseObject
      → ClauseList
      → Outcome (Status × Option (Backend Db))
  unfolding remove
  delete (some s) (some object) l =
      if s.initialized then remove s object l else done (error_unknown, some s)
  delete handle _ l = done (error_unknown, handle)
