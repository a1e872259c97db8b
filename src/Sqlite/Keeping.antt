-- ===== src/Sqlite/Keeping.antt =====
-- What create, update and delete of src/libdbo_backend_sqlite.c leave as it was, whatever they
-- answer.
use dbo.Prelude.{
  ◌≡◌, false, Option, none, some, List, Status, Outcome, done, arith, is_some, Bool-cases, inl, inr,
}
use dbo.Prelude.Run.{Run, returns, fails, crashes}
use dbo.Value.Sets.{ValueSet}
use dbo.Object.{ObjectField, DatabaseObject, fields_of}
use dbo.Clause.Tree.{ClauseList}
use dbo.Sqlite.Revision.{find_revision}
use dbo.Sqlite.Statements.{insert_sql, update_sql, delete_sql}
use dbo.Sqlite.Session.{Engine, Backend, or_fail}
use dbo.Sqlite.Execute.{Kept, execute-Kept}
use dbo.Sqlite.Operations.{
  insert_binds, update_binds, bind_where, no_binds, insert, create, modify, update, remove, delete,
  update_revision, require_revision,
}

or_fail-Kept :
    {Db A : Type 0} (m : Run A) (s : Backend Db) (f : A → Outcome (Status × Option (Backend Db)))
    (r : Status) (s' : Backend Db)
    → or_fail m s f ≡ done (r, some s')
    → ((a : A) → f a ≡ done (r, some s') → Kept s s')
    → Kept s s'
or_fail-Kept (returns a) s f r s' h g = g a h
or_fail-Kept fails s f r s' h g = ground (arith, h)
or_fail-Kept crashes s f r s' h g = absurd (ground (arith, h))

-- A call of one of the three operations on an object.
pub data Call : Type 0 where
  creates : List ObjectField → ValueSet → Call
  updates : List ObjectField → ValueSet → ClauseList → Call
  deletes : ClauseList → Call

module _ {Db : Type 0} (e : Engine Db) where
  abbrev pub perform : Call → Backend Db → DatabaseObject → Outcome (Status × Option (Backend Db))
  perform (creates fs set) s object = create e (some s) (some object) (some fs) (some set)
  perform (updates fs set l) s object = update e (some s) (some object) (some fs) (some set) l
  perform (deletes l) s object = delete e (some s) (some object) l

  insert-Kept :
      (s : Backend Db) (object : DatabaseObject) (fs : List ObjectField) (set : ValueSet)
      (r : Status) (s' : Backend Db)
      → insert e s object fs set ≡ done (r, some s')
      → Kept s s'
  unfolding insert
  insert-Kept s object fs set r s' h =
      or_fail-Kept (find_revision none (fields_of object.object_field_list)) s _ r s' h
        λ revision h₁.
          or_fail-Kept (insert_sql object fs revision) s _ r s' h₁
            λ b h₂. execute-Kept e s b.text (insert_binds set revision) false r s' h₂

  modify-Kept :
      (s : Backend Db) (object : DatabaseObject) (fs : List ObjectField) (set : ValueSet)
      (l : ClauseList) (r : Status) (s' : Backend Db)
      → modify e s object fs set l ≡ done (r, some s')
      → Kept s s'
  unfolding modify
  modify-Kept s object fs set l r s' h =
      or_fail-Kept (find_revision none (fields_of object.object_field_list)) s _ r s' h
        λ revision h₁. or_fail-Kept (update_revision revision l) s _ r s' h₁ λ number h₂.
          or_fail-Kept (update_sql object fs revision l) s _ r s' h₂
            λ b h₃. execute-Kept e s b.text (update_binds set number l) (is_some revision) r s' h₃

  remove-Kept :
      (s : Backend Db) (object : DatabaseObject) (l : ClauseList) (r : Status) (s' : Backend Db)
      → remove e s object l ≡ done (r, some s')
      → Kept s s'
  unfolding remove
  remove-Kept s object l r s' h =
      or_fail-Kept (find_revision none (fields_of object.object_field_list)) s _ r s' h
        λ revision h₁. or_fail-Kept (require_revision revision l) s _ r s' h₁ λ found h₂.
          or_fail-Kept (delete_sql object l) s _ r s' h₂ λ b h₃.
            execute-Kept e s b.text (λ accepts. bind_where l accepts no_binds) (is_some revision) r
              s' h₃

  -- Create, update and delete, whether they answer ok or the error, leave as many statements that
  -- are not finalized as there were, the transaction flag and the initialization.
  pub perform-Kept :
      (call : Call) (s : Backend Db) (object : DatabaseObject) (r : Status) (s' : Backend Db)
      → perform call s object ≡ done (r, some s')
      → Kept s s'
  unfolding create update delete
  perform-Kept (creates fs set) s object r s' h = elim (Bool-cases s.initialized) [
    | inl on ↦ insert-Kept s object fs set r s' (ground (arith, on, h))
    | inr off ↦ ground (arith, off, h)
  ]
  perform-Kept (updates fs set l) s object r s' h = elim (Bool-cases s.initialized) [
    | inl on ↦ modify-Kept s object fs set l r s' (ground (arith, on, h))
    | inr off ↦ ground (arith, off, h)
  ]
  perform-Kept (deletes l) s object r s' h = elim (Bool-cases s.initialized) [
    | inl on ↦ remove-Kept s object l r s' (ground (arith, on, h))
    | inr off ↦ ground (arith, off, h)
  ]
