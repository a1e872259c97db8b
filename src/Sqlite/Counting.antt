-- ===== src/Sqlite/Counting.antt =====
-- What libdbo_backend_sqlite_count has done where it answers ok.
use dbo.Prelude.{
  ℕ, ◌≡◌, refl, ◌++◌, true, false, Option, none, some, List, done, ok, arith, take, Option-cases,
  inl, inr,
}
use mathlib.Core.Path.{subst}
use dbo.Prelude.Int.{to_unsigned64}
use dbo.Prelude.Text.{Text, codes}
use dbo.Prelude.Run.{returns, >>=-eq-returns}
use dbo.Object.{DatabaseObject}
use dbo.Clause.Tree.{ClauseList}
use dbo.Join.{Join}
use dbo.Sqlite.Sql.{Buffer, empty_buffer, print}
use dbo.Sqlite.Bind.{Binds}
use dbo.Sqlite.Execute.{Run-cases}
use dbo.Sqlite.Session.{
  Engine, Backend, Statement, Prepared, refused, prepared, prepare, step, finalize,
}
use dbo.Sqlite.Prints.{Prints, print-Prints, Prints-trans, take-Prints}
use dbo.Sqlite.Statements.{print_from, count_sql}
use dbo.Sqlite.Selecting.{from_text, print_from-Prints, from_table_eq}
use dbo.Sqlite.Results.{bind_conditions, is_other, count_rows, count, answered_lem}

abbrev pub count_text : Text → Option (List Join) → ClauseList → Text
count_text t joins l = codes "SELECT COUNT(*)" ++ from_text t joins l

count_sql-Prints :
    (object : DatabaseObject) (joins : Option (List Join)) (l : ClauseList) (b : Buffer)
    → count_sql object joins l ≡ returns b
    → (t : Text) × (object.table ≡ some t) × Prints (count_text t joins l) empty_buffer b
unfolding count_sql
count_sql-Prints object joins l b h =
    let (b₁, h₁, h₂) =
      >>=-eq-returns (print (codes "SELECT COUNT(*)") empty_buffer) (print_from object joins l) h in
    let (t, named) = from_table_eq object joins l b₁ b h₂ in
    let p = print-Prints (codes "SELECT COUNT(*)") empty_buffer b₁ h₁ in
    (
      t,
      named,
      Prints-trans (codes "SELECT COUNT(*)") (from_text t joins l) empty_buffer b₁ b p
          (print_from-Prints object t joins l b₁ b named h₂),
    )

abbrev counting : Buffer → Statement
counting b = record { sql = take 4096 b.text; exists = true }

-- The statement was prepared from the text and stepped once, to a row or to the end; the answer is
-- the first column, and nothing but the database has changed.
pub record Counted {Db : Type 0} (e : Engine Db) (s : Backend Db) (sql : Text) (l : ClauseList)
    (n : ℕ) (s' : Backend Db) : Type 0 where
  pub db : Db
  pub opened : s.db ≡ some db
  pub prepares : e.prepares db sql ≡ prepared true
  pub binds : Binds
  pub bound : bind_conditions e s (record { sql = sql; exists = true }) l ≡ returns binds
  pub stepped : is_other ((e.steps db sql binds.bound).1) ≡ false
  pub after : s' ≡ record s { db = some ((e.steps db sql binds.bound).0) }
  pub answer : n ≡ to_unsigned64 ((e.row ((e.steps db sql binds.bound).0) sql binds.bound).int 0)

module _ {Db : Type 0} (e : Engine Db) (s : Backend Db) (object : DatabaseObject)
    (joins : Option (List Join)) (l : ClauseList) (old n : ℕ) (s' : Backend Db)
    (h : count_rows e s object joins l old ≡ done (ok, n, s')) where
  count_built : (b : Buffer) × (count_sql object joins l ≡ returns b)
  unfolding count_rows
  count_built = elim (Run-cases (count_sql object joins l)) [
    | inl r ↦ r
    | inr (inl f) ↦ absurd (ground (arith, f, h))
    | inr (inr f) ↦ absurd (ground (arith, f, h))
  ]

  closed_lem : (b : Buffer) → s.db ≡ none → count_sql object joins l ≡ returns b → ⊥
  unfolding count_rows prepare
  closed_lem b closed built = ground (arith, closed, built, h)

  counted_lem :
      (db : Db) (b : Buffer) (p : Prepared)
      → s.db ≡ some db
      → count_sql object joins l ≡ returns b
      → e.prepares db (take 4096 b.text) ≡ p
      → Counted e s (take 4096 b.text) l n s'
  unfolding count_rows prepare step finalize
  counted_lem db b refused opened built ep = absurd (ground (arith, opened, built, ep, h))
  counted_lem db b (prepared false) opened built ep =
      elim (Run-cases (bind_conditions e s (record (counting b) { exists = false }) l)) [
        | inl (binds, bound) ↦ absurd (ground (arith, opened, built, ep, bound, h))
        | inr (inl f) ↦ absurd (ground (arith, opened, built, ep, f, h))
        | inr (inr f) ↦ absurd (ground (arith, opened, built, ep, f, h))
      ]
  counted_lem db b (prepared true) opened built ep =
      elim (Run-cases (bind_conditions e s (counting b) l)) [
        | inl (binds, bound) ↦ record {
          db = db;
          opened = opened;
          prepares = ep;
          binds = binds;
          bound = bound;
          stepped = ground (arith, opened, built, ep, bound, h);
          after = ground (arith, opened, built, ep, bound, h);
          answer = ground (arith, opened, built, ep, bound, h);
        }
        | inr (inl f) ↦ absurd (ground (arith, opened, built, ep, f, h))
        | inr (inr f) ↦ absurd (ground (arith, opened, built, ep, f, h))
      ]

-- A count that answers ok, by a backend that is initialized: the statement `SELECT COUNT(*)` with the
-- object's table, the joins and the conditions of the clause list was prepared, the values of the
-- conditions were bound and accepted, and it was stepped once, to a row or to the end. What `count`
-- points to is the row's first column, converted to an unsigned number; nothing but the database has
-- changed, and the statement is finalized.
pub count-Counted :
    {Db : Type 0} (e : Engine Db) (s : Backend Db) (object : DatabaseObject)
    (joins : Option (List Join)) (l : ClauseList) (old n : ℕ) (s' : Backend Db)
    → s.initialized ≡ true
    → count e (some s) (some object) joins l (some old) ≡ done (ok, some n, some s')
    → (t : Text) × (object.table ≡ some t) × Counted e s (count_text t joins l) l n s'
unfolding count
count-Counted e s object joins l old n s' on h₀ =
    let h = answered_lem (count_rows e s object joins l old) (ground (arith, on, h₀)) in
    let (b, built) = count_built e s object joins l old n s' h in
    let (t, named, prints) = count_sql-Prints object joins l b built in
    let (text, whole) = take-Prints (count_text t joins l) b prints in
    elim (Option-cases s.db) [
      | inl closed ↦ absurd (closed_lem e s object joins l old n s' h b closed built)
      | inr (db, opened) ↦ (
        t,
        named,
        subst (λ x. Counted e s x l n s') whole
            (counted_lem e s object joins l old n s' h db b (e.prepares db (take 4096 b.text))
              opened built refl),
      )
    ]
