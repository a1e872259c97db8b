-- ===== src/Sqlite/Sql.antt =====
-- src/libdbo_backend_sqlite.c: how the SQL texts are built in a buffer of 4096 bytes by snprintf.
use dbo.Prelude.{
  ℕ, ◌-◌, ◌++◌, Bool, true, false, Option, none, some, [], length, leb, ltb, if◌then◌else◌,
}
use dbo.Prelude.Text.{Text, codes}
use dbo.Prelude.Run.{Run, returns, fails, ◌>>=◌, used}
use dbo.Clause.{ClauseType, Operator, Clause}
use dbo.Clause.Tree.{Clauses, ClauseList, nil, cons, absent, list}

-- `char sql[4*1024]`, `sqlp` and `left`: what has been written, and the bytes that are left for the
-- rest and the terminating zero.
pub record Buffer : Type 0 where
  pub text : Text
  pub left : ℕ

abbrev pub empty_buffer : Buffer
empty_buffer = record { text = []; left = 4096 }

-- `if ((ret = snprintf(sqlp, left, …)) >= left) return LIBDBO_ERROR_UNKNOWN;`
-- `sqlp += ret; left -= ret;`
unfoldable pub print : Text → Buffer → Run Buffer
print s b =
    if leb b.left (length s)
    then fails
    else returns (record { text = b.text ++ s; left = b.left - length s })

-- `table ? table : object table`
abbrev pub or_else : Option Text → Option Text → Option Text
or_else none t = t
or_else (some s) t = some s

-- A condition ` table.field suffix`; `%s` of NULL is undefined.
unfoldable pub print_condition : Option Text → Clause → Text → Buffer → Run Buffer
unfolding print
print_condition table c suffix b = do
  t ← used (or_else c.table table)
  f ← used c.field
  print (codes " " ++ (t ++ (codes "." ++ (f ++ suffix)))) b

-- The operator before every clause but the first.
unfoldable pub print_operator : Bool → Operator → Buffer → Run Buffer
unfolding print
print_operator true o b = returns b
print_operator false Operator.and b = print (codes " AND") b
print_operator false Operator.or b = print (codes " OR") b
print_operator false Operator.unknown b = fails

-- The switch on the clause's type; `inner` builds the nested list.
unfoldable pub print_clause :
    Option Text → ClauseType → Clause → (Buffer → Run Buffer) → Buffer → Run Buffer
unfolding print print_condition
print_clause table ClauseType.equal c inner b = print_condition table c (codes " = ?") b
print_clause table ClauseType.not_equal c inner b = print_condition table c (codes " != ?") b
print_clause table ClauseType.less_then c inner b = print_condition table c (codes " < ?") b
print_clause table ClauseType.less_or_equal c inner b = print_condition table c (codes " <= ?") b
print_clause table ClauseType.greater_or_equal c inner b = print_condition table c (codes " >= ?") b
print_clause table ClauseType.greater_then c inner b = print_condition table c (codes " > ?") b
print_clause table ClauseType.is_null c inner b = print_condition table c (codes " IS NULL") b
print_clause table ClauseType.is_not_null c inner b =
    print_condition table c (codes " IS NOT NULL") b
print_clause table ClauseType.nested c inner b = do
  b ← print (codes " (") b
  b ← inner b
  print (codes " )") b
print_clause table ClauseType.unknown c inner b = fails

-- __db_backend_sqlite_build_clause: the loop over the clauses, `first` telling the first round, and
-- the function itself, which a nested clause calls again.
unfoldable mutual
  unfolding print_operator print_clause

  pub build_loop : Option Text → Bool → Clauses → Buffer → Run Buffer
  build_loop table first nil b = returns b
  build_loop table first (cons c nested rest) b = do
    b ← print_operator first c.clause_operator b
    b ← print_clause table c.type c (build_clause table nested) b
    build_loop table false rest b

  pub build_clause : Option Text → ClauseList → Buffer → Run Buffer
  build_clause table absent b = fails
  build_clause table (list cs) b =
      let loop = build_loop table true cs b in if ltb b.left 1 then fails else loop
