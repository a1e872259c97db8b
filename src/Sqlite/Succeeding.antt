-- ===== src/Sqlite/Succeeding.antt =====
-- When libdbo_backend_sqlite_delete answers ok.
use dbo.Prelude.{
  ◌<◌, ◌≡◌, refl, ◌++◌, Bool, true, false, Option, none, some, [], ap, ◌∙◌, sym, ok, done, is_some,
  arith, length, length-append,
}
use mathlib.Core.Path.{subst}
use dbo.Prelude.Text.{Text, codes}
use dbo.Prelude.Run.{Run, returns, used, ◌>>=◌}
use dbo.Object.{ObjectField, DatabaseObject, fields_of}
use dbo.Clause.Tree.{ClauseList, list, absent, nil, cons}
use dbo.Sqlite.Sql.{Buffer, empty_buffer, print, build_clause}
use dbo.Sqlite.Where.{where_text, IsPrintableList, build_clause-where_text, written}
use dbo.Sqlite.Bind.{Binds, Accepts}
use dbo.Sqlite.Revision.{find_revision}
use dbo.Sqlite.Session.{Engine, Backend, execute, prepare, step, finalize}
use dbo.Sqlite.Execute.{Executed}
use dbo.Sqlite.Prints.{Prints, take-Prints}
use dbo.Sqlite.Texts.{where_part, delete_text, delete_sql-Prints}
use dbo.Sqlite.Statements.{print_where, delete_sql}
use dbo.Sqlite.Operations.{no_binds, bind_where, require_revision, remove, delete}

executed-ok :
    {Db : Type 0} (e : Engine Db) (s : Backend Db) (sql : Text) (bind : Accepts → Run Binds)
    (revised : Bool) (s' : Backend Db)
    → Executed e s sql bind revised s'
    → execute e s sql bind revised ≡ done (ok, some s')
unfolding execute prepare step finalize
executed-ok e s sql bind true s' x =
    ground (arith, x.opened, x.prepares, x.bound, x.finishes, x.after, x.changed refl)
executed-ok e s sql bind false s' x =
    ground (arith, x.opened, x.prepares, x.bound, x.finishes, x.after)

-- The conditions of a list that is not NULL can be printed.
abbrev pub IsPrintableWhere : Option Text → ClauseList → Type 0
IsPrintableWhere table absent = Unit
IsPrintableWhere table (list cs) = IsPrintableList table (list cs)

print-returns : (s : Text) (b : Buffer) → length s < b.left → print s b ≡ returns (written s b)
unfolding print
print-returns s b h = ground arith

build-returns :
    (table : Option Text) (l : ClauseList) (b : Buffer)
    → IsPrintableList table l
    → length (where_text table l) < b.left
    → build_clause table l b ≡ returns (written (where_text table l) b)
build-returns table l b p h =
    (build_clause-where_text table l b (written (where_text table l) b) (omega (arith, h))).1
      (p, h, refl)

print_where-returns :
    (table : Option Text) (l : ClauseList) (b : Buffer)
    → IsPrintableWhere table l
    → length (where_part table l) < b.left
    → (b' : Buffer) × (print_where table l b ≡ returns b')
unfolding print_where where_text
print_where-returns table absent b p h = (b, refl)
print_where-returns table (list nil) b p h = (written [] b, build-returns table (list nil) b p h)
print_where-returns table (list (cons c nested rest)) b p h =
    let all = list (cons c nested rest) in
    let b₁ = written (codes " WHERE") b in
    (
      written (where_text table all) b₁,
      ap (λ r. r >>= build_clause table all)
            (print-returns (codes " WHERE") b
              (omega (arith, h, length-append (codes " WHERE") (where_text table all))))
          ∙ build-returns table all b₁ p
              (omega (arith, h, length-append (codes " WHERE") (where_text table all))),
    )

delete_sql-returns :
    (object : DatabaseObject) (l : ClauseList) (t : Text)
    → object.table ≡ some t
    → IsPrintableWhere (some t) l
    → length (delete_text t l) < 4096
    → (b : Buffer) × (delete_sql object l ≡ returns b)
unfolding delete_sql
delete_sql-returns object l t e p h =
    let head = codes "DELETE FROM " ++ t in
    let sum = length-append head (where_part (some t) l) in
    let (b, more) =
      print_where-returns (some t) l (written head empty_buffer) p (omega (arith, h, sum)) in
    (
      b,
      ap (λ o. used o >>= λ u. print (codes "DELETE FROM " ++ u) empty_buffer >>= print_where o l) e
          ∙ ap (λ r. r >>= print_where (some t) l)
              (print-returns head empty_buffer (omega (arith, h, sum)))
          ∙ more,
    )

-- A delete by an initialized backend of an object with a table, at most one revision field and, with
-- one, a clause that is found for it, with printable conditions and a text shorter than the buffer:
-- if SQLite prepares that text, takes the values of the conditions and steps it to SQLITE_DONE, with
-- a changed row where there is a revision field, then the delete answers ok and leaves the backend
-- that the step left.
pub delete-ok :
    {Db : Type 0} (e : Engine Db) (s : Backend Db) (object : DatabaseObject) (l : ClauseList)
    (s' : Backend Db) (t : Text) (revision : Option ObjectField)
    → s.initialized ≡ true
    → object.table ≡ some t
    → find_revision none (fields_of object.object_field_list) ≡ returns revision
    → require_revision revision l ≡ returns tt
    → IsPrintableWhere (some t) l
    → length (delete_text t l) < 4096
    → Executed e s
        (delete_text t l)
        (λ accepts. bind_where l accepts no_binds)
        (is_some revision)
        s'
    → delete e (some s) (some object) l ≡ done (ok, some s')
unfolding delete remove
delete-ok e s object l s' t revision on named found asked printable fits x =
    let (b, built) = delete_sql-returns object l t named printable fits in
    let (u, named', prints) = delete_sql-Prints object l b built in
    let same : u ≡ t = ground (arith, named, named') in
    let (text, whole) =
      take-Prints (delete_text t l) b
        (subst (λ v. Prints (delete_text v l) empty_buffer b) same prints) in
    let ran =
      subst
        (λ sql.
          execute e s sql (λ accepts. bind_where l accepts no_binds) (is_some revision)
          ≡ done (ok, some s'))
        (sym text)
        (executed-ok e s (delete_text t l) (λ accepts. bind_where l accepts no_binds)
          (is_some revision) s' x) in
    ground (arith, on, found, asked, built, ran)
