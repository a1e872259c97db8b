-- ===== src/Sqlite/Revision.antt =====
-- src/libdbo_backend_sqlite.c: the revision field of an object and the clause that update and delete
-- ask for it.
use dbo.Prelude.{◌&&◌, Option, none, some, List, [], ◌∷◌, is_some, if◌then◌else◌}
use dbo.Prelude.Int.{ℤ, pos, suc_ℤ, to_signed64, ◌==ℤ◌}
use dbo.Prelude.Text.{Text, same_text}
use dbo.Prelude.Run.{Run, returns, fails, crashes, ◌>>=◌, used}
use dbo.ValueType.{ValueType, is}
use dbo.Value.{Value}
use dbo.Value.Convert.{to_int32, to_uint32, to_int64, to_uint64}
use dbo.Object.{ObjectField}
use dbo.Clause.{Clause}
use dbo.Clause.Tree.{Clauses, ClauseList, nil, cons, absent, list}
use dbo.Sqlite.Bind.{filled}

-- The loop over the object's fields: the revision field, or an error where there are several.
unfoldable pub find_revision : Option ObjectField → List ObjectField → Run (Option ObjectField)
find_revision revision [] = returns revision
find_revision revision (f ∷ fs) =
    let rest = find_revision (if is f.type ValueType.revision then some f else revision) fs in
    if is f.type ValueType.revision && is_some revision then fails else rest

-- The loop over the clauses: `!strcmp(libdbo_clause_field(clause), name)`, which reads both.
unfoldable pub find_clause : Clauses → Option Text → Run (Option Clause)
find_clause nil name = returns none
find_clause (cons c nested rest) name =
    let later = find_clause rest name in
    do f ← used c.field; n ← used name; if same_text f n then returns (some c) else later

-- The clause for a revision field, or an error. A NULL list has no first clause.
unfoldable pub revision_clause : ClauseList → ObjectField → Run Clause
unfolding find_clause
revision_clause absent f = fails
revision_clause (list cs) f = do
  found ← find_clause cs f.name
  elim found [ none ↦ fails | some c ↦ returns c ]

-- `revision_number`
unfoldable pub revision_number : ValueType → Value → Run ℤ
revision_number ValueType.int32 v = filled (to_int32 (some v) (some (pos 0)))
revision_number ValueType.uint32 v = do x ← filled (to_uint32 (some v) (some 0)); returns (pos x)
revision_number ValueType.int64 v = filled (to_int64 (some v) (some (pos 0)))
revision_number ValueType.uint64 v = do
  x ← filled (to_uint64 (some v) (some 0))
  returns (to_signed64 x)
revision_number _ v = fails

-- `revision_number + 1`, undefined for the greatest 64-bit integer.
abbrev pub next_revision : ℤ → Run ℤ
next_revision n = if n ==ℤ pos 9223372036854775807 then crashes else returns (suc_ℤ n)
