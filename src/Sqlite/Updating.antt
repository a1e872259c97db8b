-- ===== src/Sqlite/Updating.antt =====
-- What libdbo_backend_sqlite_update has done where it answers ok.
use dbo.Prelude.{
  ◌≡◌, true, Option, none, some, List, [], ◌∷◌, ok, done, is_some, arith, take, length, ap, ◌∙◌,
  inl, inr, Bool-cases,
}
use mathlib.Core.Path.{subst}
use dbo.Prelude.Int.{ℤ, pos, suc_ℤ, ◌==ℤ◌}
use dbo.Prelude.Text.{Text}
use dbo.Prelude.Run.{returns, ◌>>=◌, >>=-eq-returns}
use dbo.Value.{type_of}
use dbo.Value.Sets
use dbo.Value.Sets.{ValueSet}
use dbo.Object.{ObjectField, DatabaseObject, fields_of}
use dbo.Clause.{Clause}
use dbo.Clause.Tree.{ClauseList, list, absent, nil, cons}
use dbo.Sqlite.Bind.{Bound, int64, Binds, Accepts, bind_values}
use dbo.Sqlite.Revision.{find_revision, revision_clause, revision_number, next_revision}
use dbo.Sqlite.Session.{Engine, Backend, execute}
use dbo.Sqlite.Execute.{Executed, execute-Executed}
use dbo.Sqlite.Where.{where_text}
use dbo.Sqlite.Prints.{take-Prints}
use dbo.Sqlite.Texts.{update_text, update_sql-Prints, where_part}
use dbo.Sqlite.Statements.{update_sql, to_list}
use dbo.Sqlite.Values.{bounds, after, values_of, after-nil, bind_values-after, put-after}
use dbo.Sqlite.Marks.{
  marks, BindsMore, BindsMore-refl, IsPlainList, bind_clause-marks, returns-injective,
  BindsMore-cast,
}
use dbo.Sqlite.Deleting.{
  or_fail-ok, revisions, find_revision-revisions, revision_clause-IsAtTop, IsAtTop,
}
use dbo.Sqlite.Operations.{
  no_binds, update_binds, bind_where, bind_next_revision, update_revision, modify, update,
}

-- The values that update binds, in order: those of the value set and the next revision number.
abbrev pub next_bounds : Option ℤ → List Bound
next_bounds none = []
next_bounds (some n) = int64 (suc_ℤ n) ∷ []

abbrev pub set_bounds : ValueSet → List Bound
set_bounds set = bounds (take set.size (values_of set))

next_revision-eq : (n k : ℤ) → next_revision n ≡ returns k → k ≡ suc_ℤ n
next_revision-eq n k h = elim (Bool-cases (n ==ℤ pos 9223372036854775807)) [
  | inl most ↦ absurd (ground (arith, most, h))
  | inr less ↦ ground (arith, less, h)
]

bind_next_revision-after :
    (number : Option ℤ) (accepts : Accepts) (s s' : Binds)
    → bind_next_revision number accepts s ≡ returns s'
    → s' ≡ after s (next_bounds number)
bind_next_revision-after none accepts s s' h = ground (arith, after-nil s, h)
bind_next_revision-after (some n) accepts s s' h =
    let (k, next, more) = >>=-eq-returns (next_revision n) _ h in
    put-after accepts (int64 k) s s' more
    ∙ ap (λ m. after s (int64 m ∷ [])) (next_revision-eq n k next)

bind_where-BindsMore :
    (accepts : Accepts) (table : Option Text) (l : ClauseList) (s s' : Binds)
    → IsPlainList table l
    → bind_where l accepts s ≡ returns s'
    → BindsMore (marks (where_part table l)) s s'
unfolding where_text
bind_where-BindsMore accepts table absent s s' p h = rw (returns-injective h) (BindsMore-refl s')
bind_where-BindsMore accepts table (list nil) s s' p h =
    bind_clause-marks accepts table (list nil) s s' p h
bind_where-BindsMore accepts table (list (cons c nested more)) s s' p h =
    BindsMore-cast s s' (omega arith)
      (bind_clause-marks accepts table (list (cons c nested more)) s s' p h)

-- update has bound the values of the set, all of them, then the next revision number, and then a
-- value for each mark of the conditions.
pub record Bindings (set : ValueSet) (number : Option ℤ) (table : Text) (l : ClauseList)
    (binds : Binds) : Type 0 where
  pub front : Binds
  pub values : front ≡ after (after no_binds (set_bounds set)) (next_bounds number)
  pub count : length (set_bounds set) ≡ set.size
  pub rest : IsPlainList (some table) l → BindsMore (marks (where_part (some table) l)) front binds

update_binds-Bindings :
    (set : ValueSet) (number : Option ℤ) (table : Text) (l : ClauseList) (accepts : Accepts)
    (binds : Binds)
    → update_binds set number l accepts ≡ returns binds
    → Bindings set number table l binds
unfolding Sets.size_of
update_binds-Bindings set number table l accepts binds h =
    let (s₂, front, last) =
      >>=-eq-returns
        (bind_values (Sets.size_of (some set)) accepts set 0 no_binds
          >>= bind_next_revision number accepts)
        _ h in
    let (s₁, values, next) =
      >>=-eq-returns (bind_values (Sets.size_of (some set)) accepts set 0 no_binds) _ front in
    let (e, count) = bind_values-after set.size accepts set 0 no_binds s₁ values in
    record {
      front = s₂;
      values =
          bind_next_revision-after number accepts s₁ s₂ next
          ∙ ap (λ s. after s (next_bounds number)) e;
      count = count;
      rest = λ plain. bind_where-BindsMore accepts (some table) l s₂ binds plain last;
    }

-- What the revision field asks for: a clause on it with an integer, the number of the revision.
abbrev pub Asked : Option ObjectField → ClauseList → Option ℤ → Type 0
Asked none l number = number ≡ none
Asked (some f) l number =
    (c : Clause) × (n : ℤ) × IsAtTop c l
    × (c.field ≡ f.name)
    × (revision_number (type_of (some c.value)) c.value ≡ returns n)
    × (number ≡ some n)

update_revision-Asked :
    (revision : Option ObjectField) (l : ClauseList) (number : Option ℤ)
    → update_revision revision l ≡ returns number
    → Asked revision l number
unfolding update_revision
update_revision-Asked none l number h = ground (arith, h)
update_revision-Asked (some f) l number h =
    let (c, found, more) = >>=-eq-returns (revision_clause l f) _ h in
    let (n, read, last) =
      >>=-eq-returns (revision_number (type_of (some c.value)) c.value) _ more in
    let (top, name) = revision_clause-IsAtTop l f c found in
    (c, n, top, name, read, ground (arith, last))

-- The statement of update was executed on its text, which SQLite reads whole, with its values.
pub record Updated {Db : Type 0} (e : Engine Db) (s : Backend Db) (object : DatabaseObject)
    (fs : List ObjectField) (set : ValueSet) (l : ClauseList) (s' : Backend Db) : Type 0 where
  pub table : Text
  pub named : object.table ≡ some table
  pub revision : Option ObjectField
  pub only : revisions (fields_of object.object_field_list) ≡ to_list revision
  pub number : Option ℤ
  pub asked : Asked revision l number
  pub whole : take 4096 (update_text table fs revision l) ≡ update_text table fs revision l
  pub executed :
      Executed e s
        (update_text table fs revision l)
        (update_binds set number l)
        (is_some revision)
        s'
  pub bindings : Bindings set number table l (executed.binds)

modify-Updated :
    {Db : Type 0} (e : Engine Db) (s : Backend Db) (object : DatabaseObject) (fs : List ObjectField)
    (set : ValueSet) (l : ClauseList) (s' : Backend Db)
    → modify e s object fs set l ≡ done (ok, some s')
    → Updated e s object fs set l s'
unfolding modify
modify-Updated e s object fs set l s' h =
    let (revision, found, h₁) =
      or_fail-ok (find_revision none (fields_of object.object_field_list)) s _ s' h in
    let (number, asked, h₂) = or_fail-ok (update_revision revision l) s _ s' h₁ in
    let (b, built, h₃) = or_fail-ok (update_sql object fs revision l) s _ s' h₂ in
    let (t, named, prints) = update_sql-Prints object fs revision l b built in
    let (text, whole) = take-Prints (update_text t fs revision l) b prints in
    let executed =
      execute-Executed e s (update_text t fs revision l) (update_binds set number l)
        (is_some revision) s'
        (subst
          (λ x. execute e s x (update_binds set number l) (is_some revision) ≡ done (ok, some s'))
          text h₃) in
    record {
      table = t;
      named = named;
      revision = revision;
      only = find_revision-revisions none (fields_of object.object_field_list) revision found;
      number = number;
      asked = update_revision-Asked revision l number asked;
      whole = subst (λ x. take 4096 x ≡ update_text t fs revision l) text whole;
      executed = executed;
      bindings = update_binds-Bindings set number t l _ executed.binds executed.bound;
    }

-- An update by a backend that answers ok: the backend was initialized, and the statement
-- `UPDATE table SET` with the fields, the revision field of the object and the conditions of the
-- clause list was prepared and stepped once, to SQLITE_DONE; nothing else of the backend has
-- changed. It was bound the values of the set, all of them and in order, then the number in the
-- clause on the revision field plus one, and, if no name in the clause list holds a question mark, a
-- value for each mark of the conditions. The object has at most one revision field; with one, the
-- step changed a row.
pub update-Updated :
    {Db : Type 0} (e : Engine Db) (s : Backend Db) (object : DatabaseObject) (fs : List ObjectField)
    (set : ValueSet) (l : ClauseList) (s' : Backend Db)
    → update e (some s) (some object) (some fs) (some set) l ≡ done (ok, some s')
    → (s.initialized ≡ true) × Updated e s object fs set l s'
unfolding update
update-Updated e s object fs set l s' h =
    let on : s.initialized ≡ true = ground (arith, h) in
    (on, modify-Updated e s object fs set l s' (ground (arith, on, h)))
