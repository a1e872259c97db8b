-- ===== src/Sqlite/Cursors.antt =====
-- The statements that read, next and count of src/libdbo_backend_sqlite.c leave unfinalized: those of
-- cursors.
use dbo.Prelude.{
  ℕ, suc, ◌+◌, ◌≡◌, Bool, Option, none, some, List, [], ◌∷◌, ◌++◌, Status, done, arith, inl, inr,
  if◌then◌else◌, Option-cases, Outcome-cases,
}
use dbo.Prelude.Text.{Text, Memory}
use dbo.Sqlite.Bind.{Bound}
use dbo.Sqlite.Execute.{Run-cases}
use dbo.Sqlite.Statements.{select_sql, count_sql}
use dbo.Value.Sets.{ValueSet}
use dbo.Object.{DatabaseObject}
use dbo.Clause.Tree.{ClauseList}
use dbo.Join.{Join}
use dbo.Sqlite.Session.{Engine, Backend, Statement, prepare, step, finalize}
use dbo.Sqlite.Results.{
  Cursor, bind_conditions, row_of, next, open_cursor, read, count_rows, count, make_result,
}

-- How many of the cursors have a statement.
abbrev pub statements : List Cursor → ℕ
statements [] = 0
statements (c ∷ cs) = if c.statement.exists then suc (statements cs) else statements cs

abbrev pub cursors : Option Cursor → List Cursor
cursors none = []
cursors (some c) = c ∷ []

pub statements-append :
    (cs ds : List Cursor) → statements (cs ++ ds) ≡ statements cs + statements ds
statements-append [] ds = omega arith
statements-append (c ∷ cs) ds = ground (arith, statements-append cs ds)

module _ {Db : Type 0} (e : Engine Db) where
  prepare-live :
      (s : Backend Db) (sql : Text) (size : ℕ) (st : Statement) (s' : Backend Db)
      → prepare e s sql size ≡ some (st, s')
      → s'.live ≡ (if st.exists then suc s.live else s.live)
  unfolding prepare
  prepare-live s sql size st s' h = ground (arith, h)

  step-live :
      (s : Backend Db) (st : Statement) (bound : List (ℕ × Bound))
      → (step e s st bound).1.live ≡ s.live
  unfolding step
  step-live s st bound = ground arith

  count_rows-live :
      (s s' : Backend Db) (object : DatabaseObject) (joins : Option (List Join)) (l : ClauseList)
      (old n : ℕ) (r : Status)
      → count_rows e s object joins l old ≡ done (r, n, s')
      → s'.live ≡ s.live
  unfolding count_rows finalize
  count_rows-live s s' object joins l old n r h = elim (Run-cases (count_sql object joins l)) [
    | inr (inl failed) ↦ ground (arith, failed, h)
    | inr (inr crashed) ↦ absurd (ground (arith, crashed, h))
    | inl (b, built) ↦ elim (Option-cases (prepare e s b.text 4096)) [
      | inl refused ↦ ground (arith, built, refused, h)
      | inr ((st, opened), prepared) ↦
          let more = prepare-live s b.text 4096 st opened prepared in
          elim (Run-cases (bind_conditions e opened st l)) [
            | inr (inl failed) ↦ ground (arith, built, prepared, failed, more, h)
            | inr (inr crashed) ↦ absurd (ground (arith, built, prepared, crashed, h))
            | inl (binds, bound) ↦
                let same = step-live opened st binds.bound in
                ground (arith, built, prepared, bound, more, same, h)
          ]
    ]
  ]

  open_cursor-live :
      (s s' : Backend Db) (object : DatabaseObject) (joins : Option (List Join)) (l : ClauseList)
      (m m' : Memory) (c : Option Cursor)
      → open_cursor e s object joins l m ≡ done (c, s', m')
      → s'.live ≡ s.live + statements (cursors c)
  unfolding open_cursor finalize
  open_cursor-live s s' object joins l m m' c h = elim (Run-cases (select_sql object joins l)) [
    | inr (inl failed) ↦ ground (arith, failed, h)
    | inr (inr crashed) ↦ absurd (ground (arith, crashed, h))
    | inl (b, built) ↦ elim (Option-cases (prepare e s b.text 4096)) [
      | inl refused ↦ ground (arith, built, refused, h)
      | inr ((st, opened), prepared) ↦
          let more = prepare-live s b.text 4096 st opened prepared in
          elim (Run-cases (bind_conditions e opened st l)) [
            | inr (inl failed) ↦ ground (arith, built, prepared, failed, more, h)
            | inr (inr crashed) ↦ ground (arith, built, prepared, crashed, h)
            | inl (binds, bound) ↦ ground (arith, built, prepared, bound, more, h)
          ]
    ]
  ]

  -- A call for the next row keeps the cursor with its statement, or ends both.
  pub next-live :
      (s s' : Backend Db) (c : Cursor) (c' : Option Cursor) (finish : Bool) (m m' : Memory)
      (set : Option ValueSet) (k : ℕ)
      → next e s (some c) finish m ≡ done (set, c', s', m')
      → s.live ≡ statements (c ∷ []) + k
      → s'.live ≡ statements (cursors c') + k
  unfolding next finalize
  next-live s s' c c' finish m m' set k h live = elim (Option-cases c.object) [
    | inl lost ↦ ground (arith, lost, h, live)
    | inr (object, there) ↦
        let same = step-live s c.statement c.bound in
        let stepped = step e s c.statement c.bound in
        elim (Outcome-cases (make_result e (row_of e stepped.1 c.statement c.bound) c object m)) [
          | inl crashed ↦ ground (arith, there, same, crashed, h, live)
          | inr (made, result) ↦ ground (arith, there, same, result, h, live)
        ]
  ]

  pub count-live :
      (s s' : Backend Db) (object : Option DatabaseObject) (joins : Option (List Join))
      (l : ClauseList) (out n : Option ℕ) (r : Status)
      → count e (some s) object joins l out ≡ done (r, n, some s')
      → s'.live ≡ s.live
  unfolding count
  count-live s s' none joins l out n r h = ground (arith, h)
  count-live s s' (some object) joins l none n r h = ground (arith, h)
  count-live s s' (some object) joins l (some old) n r h =
      elim (Outcome-cases (count_rows e s object joins l old)) [
        | inl crashed ↦ ground (arith, crashed, h)
        | inr ((r', n', t), counted) ↦
            let live = count_rows-live s t object joins l old n' r' counted in
            ground (arith, counted, live, h)
      ]

  pub read-live :
      (s s' : Backend Db) (object : Option DatabaseObject) (joins : Option (List Join))
      (l : ClauseList) (m m' : Memory) (c : Option Cursor)
      → read e (some s) object joins l m ≡ done (c, some s', m')
      → s'.live ≡ s.live + statements (cursors c)
  unfolding read
  read-live s s' none joins l m m' c h = ground (arith, h)
  read-live s s' (some object) joins l m m' c h =
      elim (Outcome-cases (open_cursor e s object joins l m)) [
        | inl crashed ↦ ground (arith, crashed, h)
        | inr ((c', t, m₁), opened) ↦
            let live = open_cursor-live s t object joins l m m₁ c' opened in
            ground (arith, opened, live, h)
      ]
