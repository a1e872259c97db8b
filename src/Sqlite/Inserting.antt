-- ===== src/Sqlite/Inserting.antt =====
-- What libdbo_backend_sqlite_create has done where it answers ok.
use dbo.Prelude.{
  ◌≡◌, ◌++◌, true, false, Option, none, some, List, [], ◌∷◌, ok, done, arith, take, length, ap, ◌∙◌,
}
use mathlib.Core.Path.{subst}
use dbo.Prelude.Int.{pos}
use dbo.Prelude.Text.{Text, codes}
use dbo.Prelude.Run.{returns, >>=-eq-returns, used}
use dbo.Value.Sets
use dbo.Value.Sets.{ValueSet}
use dbo.Object.{ObjectField, DatabaseObject, fields_of}
use dbo.Sqlite.Sql.{Buffer, empty_buffer, print}
use dbo.Sqlite.Where.{text_or_nothing}
use dbo.Sqlite.Bind.{Bound, int, Binds, Accepts, bind_values}
use dbo.Sqlite.Revision.{find_revision}
use dbo.Sqlite.Session.{Engine, Backend, execute}
use dbo.Sqlite.Execute.{Executed, execute-Executed}
use dbo.Sqlite.Prints.{Prints, print-Prints, Prints-trans, Prints-room, used-eq, take-Prints}
use dbo.Sqlite.Texts.{fields_text, print_with_revision-Prints}
use dbo.Sqlite.Statements.{
  is_empty, to_list, name_item, mark_item, print_with_revision, insert_fields_sql, insert_sql,
}
use dbo.Sqlite.Values.{after, after-nil, bind_values-after, put-after}
use dbo.Sqlite.Deleting.{or_fail-ok, revisions, find_revision-revisions}
use dbo.Sqlite.Updating.{set_bounds}
use dbo.Sqlite.Operations.{no_binds, insert_binds, insert, create}

-- The fields of an INSERT statement, with the revision field behind them.
abbrev both_text : (ObjectField → Text) → List ObjectField → Option ObjectField → Text
both_text item fs revision =
    fields_text item true fs ++ fields_text item (is_empty fs) (to_list revision)

abbrev name_text : ObjectField → Text
name_text f = text_or_nothing f.name

abbrev mark_text : ObjectField → Text
mark_text f = codes "?"

abbrev columns_text : Text → List ObjectField → Option ObjectField → Text
columns_text t fs revision =
    (codes "INSERT INTO " ++ (t ++ codes " ("))
    ++ (both_text name_text fs revision
        ++ (codes " ) VALUES (" ++ (both_text mark_text fs revision ++ codes " )")))

abbrev pub insert_text : Text → List ObjectField → Option ObjectField → Text
insert_text t [] none = codes "INSERT INTO " ++ (t ++ codes " DEFAULT VALUES")
insert_text t [] (some f) = columns_text t [] (some f)
insert_text t (f ∷ fs) revision = columns_text t (f ∷ fs) revision

name_agree : (f : ObjectField) (s : Text) → name_item f ≡ returns s → s ≡ name_text f
name_agree f s h = ground (arith, used-eq f.name s h)

mark_agree : (f : ObjectField) (s : Text) → mark_item f ≡ returns s → s ≡ mark_text f
mark_agree f s h = ground (arith, h)

insert_fields_sql-Prints :
    (t : Text) (fs : List ObjectField) (revision : Option ObjectField) (b : Buffer)
    → insert_fields_sql t fs revision ≡ returns b
    → Prints (columns_text t fs revision) empty_buffer b
unfolding insert_fields_sql
insert_fields_sql-Prints t fs revision b h =
    let head = codes "INSERT INTO " ++ (t ++ codes " (") in
    let (b₁, h₁, m₁) = >>=-eq-returns (print head empty_buffer) _ h in
    let (b₂, h₂, m₂) = >>=-eq-returns (print_with_revision name_item fs revision b₁) _ m₁ in
    let (b₃, h₃, m₃) = >>=-eq-returns (print (codes " ) VALUES (") b₂) _ m₂ in
    let (b₄, h₄, h₅) = >>=-eq-returns (print_with_revision mark_item fs revision b₃) _ m₃ in
    let p₁ = print-Prints head empty_buffer b₁ h₁ in
    let p₂ =
      print_with_revision-Prints name_item name_text name_agree fs revision b₁ b₂
        (Prints-room _ empty_buffer b₁ p₁) h₂ in
    let p₃ = print-Prints (codes " ) VALUES (") b₂ b₃ h₃ in
    let p₄ =
      print_with_revision-Prints mark_item mark_text mark_agree fs revision b₃ b₄
        (Prints-room _ b₂ b₃ p₃) h₄ in
    let p₅ = print-Prints (codes " )") b₄ b h₅ in
    Prints-trans head _ empty_buffer b₁ b p₁
      (Prints-trans _ _ b₁ b₂ b p₂ (Prints-trans _ _ b₂ b₃ b p₃ (Prints-trans _ _ b₃ b₄ b p₄ p₅)))

insert_sql-Prints :
    (object : DatabaseObject) (fs : List ObjectField) (revision : Option ObjectField) (b : Buffer)
    → insert_sql object fs revision ≡ returns b
    → (t : Text) × (object.table ≡ some t) × Prints (insert_text t fs revision) empty_buffer b
unfolding insert_sql
insert_sql-Prints object [] none b h =
    let (t, named, more) = >>=-eq-returns (used object.table) _ h in
    (
      t,
      used-eq object.table t named,
      print-Prints (codes "INSERT INTO " ++ (t ++ codes " DEFAULT VALUES")) empty_buffer b more,
    )
insert_sql-Prints object [] (some f) b h =
    let (t, named, more) = >>=-eq-returns (used object.table) _ h in
    (t, used-eq object.table t named, insert_fields_sql-Prints t [] (some f) b more)
insert_sql-Prints object (f ∷ fs) revision b h =
    let (t, named, more) = >>=-eq-returns (used object.table) _ h in
    (t, used-eq object.table t named, insert_fields_sql-Prints t (f ∷ fs) revision b more)

-- The first revision is bound behind the values.
abbrev pub first_bounds : Option ObjectField → List Bound
first_bounds none = []
first_bounds (some f) = int (pos 1) ∷ []

insert_binds-after :
    (set : ValueSet) (revision : Option ObjectField) (accepts : Accepts) (binds : Binds)
    → insert_binds set revision accepts ≡ returns binds
    → (binds ≡ after (after no_binds (set_bounds set)) (first_bounds revision))
      × (length (set_bounds set) ≡ set.size)
unfolding Sets.size_of
insert_binds-after set none accepts binds h =
    let (s, values, more) = >>=-eq-returns (bind_values set.size accepts set 0 no_binds) _ h in
    let (e, count) = bind_values-after set.size accepts set 0 no_binds s values in
    (ground (arith, more, e, after-nil s), count)
insert_binds-after set (some f) accepts binds h =
    let (s, values, more) = >>=-eq-returns (bind_values set.size accepts set 0 no_binds) _ h in
    let (e, count) = bind_values-after set.size accepts set 0 no_binds s values in
    (put-after accepts (int (pos 1)) s binds more ∙ ap (λ s. after s (int (pos 1) ∷ [])) e, count)

-- The statement of create was executed on its text, which SQLite reads whole, with its values.
pub record Inserted {Db : Type 0} (e : Engine Db) (s : Backend Db) (object : DatabaseObject)
    (fs : List ObjectField) (set : ValueSet) (s' : Backend Db) : Type 0 where
  pub table : Text
  pub named : object.table ≡ some table
  pub revision : Option ObjectField
  pub only : revisions (fields_of object.object_field_list) ≡ to_list revision
  pub whole : take 4096 (insert_text table fs revision) ≡ insert_text table fs revision
  pub executed : Executed e s (insert_text table fs revision) (insert_binds set revision) false s'
  pub bound : executed.binds ≡ after (after no_binds (set_bounds set)) (first_bounds revision)
  pub count : length (set_bounds set) ≡ set.size

insert-Inserted :
    {Db : Type 0} (e : Engine Db) (s : Backend Db) (object : DatabaseObject) (fs : List ObjectField)
    (set : ValueSet) (s' : Backend Db)
    → insert e s object fs set ≡ done (ok, some s')
    → Inserted e s object fs set s'
unfolding insert
insert-Inserted e s object fs set s' h =
    let (revision, found, h₁) =
      or_fail-ok (find_revision none (fields_of object.object_field_list)) s _ s' h in
    let (b, built, h₂) = or_fail-ok (insert_sql object fs revision) s _ s' h₁ in
    let (t, named, prints) = insert_sql-Prints object fs revision b built in
    let (text, whole) = take-Prints (insert_text t fs revision) b prints in
    let executed =
      execute-Executed e s (insert_text t fs revision) (insert_binds set revision) false s' (
        subst (λ x. execute e s x (insert_binds set revision) false ≡ done (ok, some s')) text
          h₂) in
    let (bound, count) = insert_binds-after set revision _ executed.binds executed.bound in
    record {
      table = t;
      named = named;
      revision = revision;
      only = find_revision-revisions none (fields_of object.object_field_list) revision found;
      whole = subst (λ x. take 4096 x ≡ insert_text t fs revision) text whole;
      executed = executed;
      bound = bound;
      count = count;
    }

-- A create by a backend that answers ok: the backend was initialized, and the statement
-- `INSERT INTO table` with the fields and the revision field of the object, or with DEFAULT VALUES
-- where there is neither, was prepared and stepped once, to SQLITE_DONE; nothing else of the backend
-- has changed. It was bound the values of the set, all of them and in order, and 1 for the revision
-- field, of which the object has at most one.
pub create-Inserted :
    {Db : Type 0} (e : Engine Db) (s : Backend Db) (object : DatabaseObject) (fs : List ObjectField)
    (set : ValueSet) (s' : Backend Db)
    → create e (some s) (some object) (some fs) (some set) ≡ done (ok, some s')
    → (s.initialized ≡ true) × Inserted e s object fs set s'
unfolding create
create-Inserted e s object fs set s' h =
    let on : s.initialized ≡ true = ground (arith, h) in
    (on, insert-Inserted e s object fs set s' (ground (arith, on, h)))
