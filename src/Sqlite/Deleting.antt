-- ===== src/Sqlite/Deleting.antt =====
-- What libdbo_backend_sqlite_delete has done where it answers ok.
use dbo.Prelude.{
  ◌≡◌, refl, true, Option, none, some, List, [], ◌∷◌, Status, ok, Outcome, done, is_some,
  if◌then◌else◌, arith, take, ◌++◌, Bool-cases, Option-cases, inl, inr, ◌⊎◌,
}
use mathlib.Core.Path.{subst}
use dbo.Prelude.Text.{Text, same_text, eq_of_same_text}
use dbo.Prelude.Run.{Run, returns, fails, crashes, >>=-eq-returns, used}
use dbo.ValueType.{ValueType, is}
use dbo.Object.{ObjectField, DatabaseObject, fields_of}
use dbo.Clause.{Clause}
use dbo.Clause.Tree.{Clauses, ClauseList, nil, cons, absent, list}
use dbo.Sqlite.Revision.{find_revision, find_clause, revision_clause}
use dbo.Sqlite.Session.{Engine, Backend, or_fail, execute}
use dbo.Sqlite.Execute.{Executed, execute-Executed}
use dbo.Sqlite.Prints.{take-Prints, used-eq}
use dbo.Sqlite.Texts.{delete_text, delete_sql-Prints}
use dbo.Sqlite.Statements.{delete_sql, to_list}
use dbo.Sqlite.Operations.{no_binds, bind_where, require_revision, remove, delete}

-- An operation that answers ok has passed each of its parts.
pub or_fail-ok :
    {Db A : Type 0} (m : Run A) (s : Backend Db) (f : A → Outcome (Status × Option (Backend Db)))
    (s' : Backend Db)
    → or_fail m s f ≡ done (ok, some s')
    → (a : A) × (m ≡ returns a) × (f a ≡ done (ok, some s'))
or_fail-ok (returns a) s f s' h = (a, refl, h)
or_fail-ok fails s f s' h = absurd (ground (arith, h))
or_fail-ok crashes s f s' h = absurd (ground (arith, h))

-- The fields of an object that are revision fields.
abbrev pub revisions : List ObjectField → List ObjectField
revisions [] = []
revisions (f ∷ fs) = (if is f.type ValueType.revision then f ∷ [] else []) ++ revisions fs

pub find_revision-revisions :
    (r : Option ObjectField) (fs : List ObjectField) (found : Option ObjectField)
    → find_revision r fs ≡ returns found
    → to_list r ++ revisions fs ≡ to_list found
unfolding find_revision
find_revision-revisions none [] found h = ground arith
find_revision-revisions (some r) [] found h = ground arith
find_revision-revisions none (f ∷ fs) found h = elim (Bool-cases (is f.type ValueType.revision)) [
  | inl y ↦ ground (arith, y, h, find_revision-revisions (some f) fs found)
  | inr n ↦ ground (arith, n, h, find_revision-revisions none fs found)
]
find_revision-revisions (some r) (f ∷ fs) found h =
    elim (Bool-cases (is f.type ValueType.revision)) [
      | inl y ↦ absurd (ground (arith, y, h))
      | inr n ↦ ground (arith, n, h, find_revision-revisions (some r) fs found)
    ]

-- A clause stands in a list itself, not in one nested in it.
abbrev pub IsAmong : Clause → Clauses → Type 0
IsAmong c nil = ⊥
IsAmong c (cons d nested rest) = (c ≡ d) ⊎ IsAmong c rest

abbrev pub IsAtTop : Clause → ClauseList → Type 0
IsAtTop c absent = ⊥
IsAtTop c (list cs) = IsAmong c cs

find_clause-IsAmong :
    (cs : Clauses) (name : Option Text) (c : Clause)
    → find_clause cs name ≡ returns (some c)
    → IsAmong c cs × (c.field ≡ name)
unfolding find_clause
find_clause-IsAmong nil name c h = absurd (ground (arith, h))
find_clause-IsAmong (cons d nested rest) name c h =
    let (f, field, more) = >>=-eq-returns (used d.field) _ h in
    let (n, named, last) = >>=-eq-returns (used name) _ more in
    elim (Bool-cases (same_text f n)) [
      | inl same ↦
          let e : c ≡ d = ground (arith, same, last) in
          (
            inl e,
            ground
                (arith, e, used-eq d.field f field, used-eq name n named, eq_of_same_text f n same),
          )
      | inr differ ↦
          let (among, e) = find_clause-IsAmong rest name c (ground (arith, differ, last)) in
          (inr among, e)
    ]

-- A clause that was found for a revision field stands in the list and names the field.
pub revision_clause-IsAtTop :
    (l : ClauseList) (f : ObjectField) (c : Clause)
    → revision_clause l f ≡ returns c
    → IsAtTop c l × (c.field ≡ f.name)
unfolding revision_clause
revision_clause-IsAtTop absent f c h = absurd (ground (arith, h))
revision_clause-IsAtTop (list cs) f c h =
    let (o, found, more) = >>=-eq-returns (find_clause cs f.name) _ h in
    elim (Option-cases o) [
      | inl e ↦ absurd (ground (arith, e, more))
      | inr (d, e) ↦ find_clause-IsAmong cs f.name c (ground (arith, e, found, more))
    ]

-- The statement of delete was executed on its text, which SQLite reads whole; the object has at most
-- one revision field, and with one a clause on it stands in the list.
pub record Deleted {Db : Type 0} (e : Engine Db) (s : Backend Db) (object : DatabaseObject)
    (l : ClauseList) (s' : Backend Db) : Type 0 where
  pub table : Text
  pub named : object.table ≡ some table
  pub whole : take 4096 (delete_text table l) ≡ delete_text table l
  pub revision : Option ObjectField
  pub only : revisions (fields_of object.object_field_list) ≡ to_list revision
  pub asked :
      (f : ObjectField) → revision ≡ some f → (c : Clause) × IsAtTop c l × (c.field ≡ f.name)
  pub executed :
      Executed e s
        (delete_text table l)
        (λ accepts. bind_where l accepts no_binds)
        (is_some revision)
        s'

asked_lem :
    (revision : Option ObjectField) (l : ClauseList)
    → require_revision revision l ≡ returns tt
    → (f : ObjectField) → revision ≡ some f
    → (c : Clause) × IsAtTop c l × (c.field ≡ f.name)
unfolding require_revision
asked_lem none l h f e = absurd (ground (arith, e))
asked_lem (some g) l h f e =
    let (c, found, more) = >>=-eq-returns (revision_clause l g) _ h in
    let (top, name) = revision_clause-IsAtTop l g c found in (c, top, ground (arith, name, e))

-- A delete of an object by an initialized or uninitialized backend that answers ok: the backend was
-- initialized, and the statement `DELETE FROM table` with the conditions of the clause list was
-- prepared, its values bound and accepted, and stepped once, to SQLITE_DONE; nothing else of the
-- backend has changed. The object has at most one revision field; if it has one, a clause that names
-- it stands in the list, and the step changed a row.
pub delete-Deleted :
    {Db : Type 0} (e : Engine Db) (s : Backend Db) (object : DatabaseObject) (l : ClauseList)
    (s' : Backend Db)
    → delete e (some s) (some object) l ≡ done (ok, some s')
    → (s.initialized ≡ true) × Deleted e s object l s'
unfolding delete remove
delete-Deleted e s object l s' h =
    let on : s.initialized ≡ true = ground (arith, h) in
    let h₀ : remove e s object l ≡ done (ok, some s') = ground (arith, on, h) in
    let (revision, found, h₁) =
      or_fail-ok (find_revision none (fields_of object.object_field_list)) s _ s' h₀ in
    let (u, asked, h₂) = or_fail-ok (require_revision revision l) s _ s' h₁ in
    let (b, built, h₃) = or_fail-ok (delete_sql object l) s _ s' h₂ in
    let (t, named, prints) = delete_sql-Prints object l b built in
    let (text, whole) = take-Prints (delete_text t l) b prints in
    (
      on,
      record {
        table = t;
        named = named;
        whole = subst (λ x. take 4096 x ≡ delete_text t l) text whole;
        revision = revision;
        only = find_revision-revisions none (fields_of object.object_field_list) revision found;
        asked = asked_lem revision l asked;
        executed =
            execute-Executed e s (delete_text t l) (λ accepts. bind_where l accepts no_binds)
              (is_some revision) s'
              (subst
                (λ x.
                  execute e s x (λ accepts. bind_where l accepts no_binds) (is_some revision)
                  ≡ done (ok, some s'))
                text h₃);
      },
    )
