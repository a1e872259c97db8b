-- ===== src/Mysql/Operations.antt =====
-- src/libdbo_backend_mysql.c: create, update, delete and the transactions, as functions on the
-- backend's state. The search of the revision and the texts of update and delete are the same code
-- as in src/libdbo_backend_sqlite.c.
use dbo.Prelude.{
  ℕ, Bool, true, not, ◌&&◌, Option, none, some, List, [], ◌++◌, Status, ok, error_unknown, is_ok,
  is_some, Outcome, done, undefined, if◌then◌else◌, ltb, ◌==◌,
}
use dbo.Prelude.Int.{ℤ, pos}
use dbo.Prelude.Text.{Text, codes, Memory}
use dbo.Prelude.Run.{Run, returns, fails, crashes, ◌>>=◌, used}
use dbo.Value.{Value, zero_value}
use dbo.Value.Convert.{from_int64}
use dbo.Value.Sets.{ValueSet}
use dbo.Object.{ObjectField, DatabaseObject, fields_of}
use dbo.Clause.Tree.{ClauseList, list, absent}
use dbo.Sqlite.Sql.{Buffer, empty_buffer, print}
use dbo.Sqlite.Revision.{find_revision, next_revision}
use dbo.Sqlite.Statements.{insert_fields_sql, update_sql, delete_sql}
use dbo.Sqlite.Operations.{update_revision, require_revision}
use dbo.Sqlite.Results.{attempt}
use dbo.Sqlite.Transactions.{Transaction, text_of, is_wrong, flag_after}
use dbo.Mysql.Bind.{Inputs, bind_value_set, bind_revision, bind_clause, advance}
use dbo.Mysql.Session.{Server, Backend, prepare, execute, affected, finish}

-- The text of create.
unfoldable pub insert_sql : DatabaseObject → List ObjectField → Option ObjectField → Run Buffer
unfolding print insert_fields_sql
insert_sql object [] none = used object.table >>= λ t.
    print (codes "INSERT INTO " ++ (t ++ codes " () VALUES ()")) empty_buffer
insert_sql object fs revision = used object.table >>= λ t. insert_fields_sql t fs revision

-- The local variable `revision` once it is set, and bound.
unfoldable pub bind_number : ℤ → Inputs → Run Inputs
unfolding from_int64 bind_revision
bind_number n s = elim ((from_int64 (some zero_value) n).1) [
  | none ↦ crashes
  | some revision ↦
      if is_ok ((from_int64 (some zero_value) n).0) then bind_revision revision s else fails
]

-- What `libdbo_value_reset(&revision)`, which comes before the statement is executed, leaves.
abbrev pub after_reset : Value
after_reset = zero_value

-- `if (revision_field) …` in create: the first revision is 1.
abbrev pub bind_first_revision : Option ObjectField → Inputs → Run Inputs
bind_first_revision none s = returns s
bind_first_revision (some f) s = bind_number (pos 1) s

-- `if (revision_field) …` in update, with the step to the next bind.
abbrev pub bind_next_number : Option ℤ → Inputs → Run Inputs
bind_next_number none s = returns s
bind_next_number (some n) s = next_revision n >>= λ k. bind_number k s >>= λ t. returns (advance t)

abbrev pub bind_where : ClauseList → Inputs → Run Inputs
bind_where absent s = returns s
bind_where (list cs) s = bind_clause (list cs) s

-- How create and update bind what they send.
unfoldable pub insert_binds : ValueSet → Option ObjectField → Inputs → Run Inputs
unfolding bind_value_set bind_number
insert_binds set revision s =
    if s.params == 0 then fails else bind_value_set set s >>= bind_first_revision revision

unfoldable pub update_binds : ValueSet → Option ℤ → ClauseList → Inputs → Run Inputs
unfolding bind_value_set bind_number bind_clause
update_binds set number l s = bind_value_set set s >>= bind_next_number number >>= bind_where l

module _ {Db : Type 0} (e : Server Db) where
  -- The end of create, update and delete: the text is prepared, values are bound, the statement is
  -- executed and finished; `enough` is the test of the affected rows.
  unfoldable pub perform :
      Backend Db
      → Text
      → (Inputs → Run Inputs)
      → (ℕ → Bool)
      → Memory
      → Outcome (Status × Option (Backend Db) × Memory)
  unfolding prepare execute finish
  perform s sql bind enough m = elim (prepare e s sql m) [
    | undefined ↦ undefined
    | done (none, m') ↦ done (error_unknown, some s, m')
    | done (some (inputs, opened), m') ↦
        attempt (bind inputs) (error_unknown, some (finish opened), m')
          λ bound.
            let r = execute e opened sql bound after_reset in
            if is_ok (r.0) && enough (affected e (r.1))
            then done (ok, some (finish (r.1)), m')
            else done (error_unknown, some (finish (r.1)), m')
  ]

  -- libdbo_backend_mysql_create, of arguments that are not NULL
  unfoldable pub insert :
      Backend Db
      → DatabaseObject
      → List ObjectField
      → ValueSet
      → Memory
      → Outcome (Status × Option (Backend Db) × Memory)
  unfolding find_revision insert_sql perform insert_binds
  insert s object fs set m =
      attempt (find_revision none (fields_of object.object_field_list)) (error_unknown, some s, m)
        λ revision.
          attempt (insert_sql object fs revision) (error_unknown, some s, m)
            λ b. perform s b.text (insert_binds set revision) (λ n. n == 1) m

  unfoldable pub create :
      Option (Backend Db)
      → Option DatabaseObject
      → Option (List ObjectField)
      → Option ValueSet
      → Memory
      → Outcome (Status × Option (Backend Db) × Memory)
  unfolding insert
  create (some s) (some object) (some fs) (some set) m =
      if s.initialized then insert s object fs set m else done (error_unknown, some s, m)
  create handle _ _ _ m = done (error_unknown, handle, m)

  -- libdbo_backend_mysql_update, of arguments that are not NULL
  unfoldable pub modify :
      Backend Db
      → DatabaseObject
      → List ObjectField
      → ValueSet
      → ClauseList
      → Memory
      → Outcome (Status × Option (Backend Db) × Memory)
  unfolding find_revision update_revision update_sql perform update_binds
  modify s object fs set l m =
      attempt (find_revision none (fields_of object.object_field_list)) (error_unknown, some s, m)
        λ revision.
          attempt (update_revision revision l) (error_unknown, some s, m)
            λ number.
              attempt (update_sql object fs revision l) (error_unknown, some s, m)
                λ b.
                  perform s b.text (update_binds set number l)
                    (λ n. if is_some revision then not (ltb n 1) else true) m

  unfoldable pub update :
      Option (Backend Db)
      → Option DatabaseObject
      → Option (List ObjectField)
      → Option ValueSet
      → ClauseList
      → Memory
      → Outcome (Status × Option (Backend Db) × Memory)
  unfolding modify
  update (some s) (some object) (some fs) (some set) l m =
      if s.initialized then modify s object fs set l m else done (error_unknown, some s, m)
  update handle _ _ _ l m = done (error_unknown, handle, m)

  -- libdbo_backend_mysql_delete, of arguments that are not NULL
  unfoldable pub remove :
      Backend Db
      → DatabaseObject
      → ClauseList
      → Memory
      → Outcome (Status × Option (Backend Db) × Memory)
  unfolding find_revision require_revision delete_sql perform
  remove s object l m =
      attempt (find_revision none (fields_of object.object_field_list)) (error_unknown, some s, m)
        λ revision.
          attempt (require_revision revision l) (error_unknown, some s, m)
            λ found.
              attempt (delete_sql object l) (error_unknown, some s, m)
                λ b.
                  perform s b.text (bind_where l)
                    (λ n. if is_some revision then not (ltb n 1) else true) m

  unfoldable pub delete :
      Option (Backend Db)
      → Option DatabaseObject
      → ClauseList
      → Memory
      → Outcome (Status × Option (Backend Db) × Memory)
  unfolding remove
  delete (some s) (some object) l m =
      if s.initialized then remove s object l m else done (error_unknown, some s, m)
  delete handle _ l m = done (error_unknown, handle, m)

  -- libdbo_backend_mysql_transaction_begin, _commit and _rollback, which differ in their text and
  -- their flag
  unfoldable pub transact :
      Transaction → Option (Backend Db) → Memory → Outcome (Status × Option (Backend Db) × Memory)
  unfolding perform
  transact t none m = done (error_unknown, none, m)
  transact t (some s) m =
      if not s.initialized
      then done (error_unknown, some s, m)
      else if is_wrong t s.transaction
      then done (error_unknown, some s, m)
      else elim (perform s (text_of t) (λ inputs. returns inputs) (λ n. true) m) [
        | undefined ↦ undefined
        | done (ok, some s', m') ↦ done (ok, some (record s' { transaction = flag_after t }), m')
        | done r ↦ done r
      ]
