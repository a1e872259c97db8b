-- ===== src/Mysql/Bind.antt =====
-- src/libdbo_backend_mysql.c: how values are bound to the marks of a prepared statement. A bind has
-- the address of what is sent when the statement is executed. The values of a set and of the clauses
-- stay as they are until then; the local variable `revision` does not, so that what a bind sends is
-- a function of what that variable holds.
use dbo.Prelude.{ℕ, zero, suc, ◌+◌, some, List, [], ◌∷◌, ◌++◌, ltb}
use dbo.Prelude.Int.{ℤ, pos}
use dbo.Prelude.Text.{Text}
use dbo.Prelude.Run.{Run, returns, fails, ◌>>=◌, ◌>>◌, require, given}
use dbo.ValueType.{ValueType}
use dbo.Value.{Value, type_of, read_int32, read_uint32, read_int64, read_uint64, read_text}
use dbo.Value.Enum.{enum_value_of}
use dbo.Value.Sets
use dbo.Value.Sets.{ValueSet}
use dbo.Clause.{ClauseType, Clause}
use dbo.Clause.Tree.{Clauses, ClauseList, nil, cons, absent, list}
use dbo.Sqlite.Bind.{filled, given_value}

-- What MySQL is sent: MYSQL_TYPE_LONG or MYSQL_TYPE_LONGLONG, signed or not, or MYSQL_TYPE_STRING.
pub data Sent : Type 0 where
  long longlong : ℤ → Sent
  unsigned_long unsigned_longlong : ℕ → Sent
  string : Text → Sent

-- The binds of a statement with `params` marks; `bind` is the position of the variable `bind`, NULL
-- from `params` on, and `sends` what has been set, in order.
pub record Inputs : Type 0 where
  pub params : ℕ
  pub bind : ℕ
  pub sends : List (ℕ × (Value → Sent))

-- `*bind = (*bind)->next`
abbrev pub advance : Inputs → Inputs
advance s = record s { bind = s.bind + 1 }

-- The bind at `bind` is set.
abbrev pub put : (Value → Sent) → Inputs → Inputs
put f s = record s { sends = s.sends ++ ((s.bind, f) ∷ []) }

-- The switch on the type of a value, the same in __db_backend_mysql_bind_value and in
-- __db_backend_mysql_bind_clause: what the bind sends of the value that it has the address of.
unfoldable pub sender : ValueType → Value → Run (Value → Sent)
unfolding read_int32 read_uint32 read_int64 read_uint64 read_text
sender ValueType.primary_key v = given (read_int32 (some v)) >>= λ x. returns (λ w. long w.int32)
sender ValueType.int32 v = given (read_int32 (some v)) >>= λ x. returns (λ w. long w.int32)
sender ValueType.uint32 v =
    given (read_uint32 (some v)) >>= λ x. returns (λ w. unsigned_long w.uint32)
sender ValueType.int64 v = given (read_int64 (some v)) >>= λ x. returns (λ w. longlong w.int64)
sender ValueType.uint64 v =
    given (read_uint64 (some v)) >>= λ x. returns (λ w. unsigned_longlong w.uint64)
sender ValueType.text v = given (read_text (some v)) >>= λ t. returns (λ w. string t)
sender ValueType.enum v =
    filled (enum_value_of (some v) (some (pos 0))) >>= λ x. returns (λ w. long x)
sender _ v = fails

-- A bind of a value that stays as it is.
abbrev pub bind_kept : Value → Inputs → Run Inputs
bind_kept v s = sender (type_of (some v)) v >>= λ f. returns (put (λ r. f v) s)

-- The switch on the type of a clause, with the step to the next bind; `inner` binds the nested list.
unfoldable pub bind_one : ClauseType → Clause → (Inputs → Run Inputs) → Inputs → Run Inputs
bind_one ClauseType.is_null c inner s = returns (advance s)
bind_one ClauseType.is_not_null c inner s = returns (advance s)
bind_one ClauseType.nested c inner s = inner (advance s)
bind_one ClauseType.unknown c inner s = fails
bind_one _ c inner s = bind_kept c.value s >>= λ s'. returns (advance s')

-- __db_backend_mysql_bind_clause: its loop, and the function itself.
unfoldable mutual
  unfolding bind_one

  pub bind_loop : Clauses → Inputs → Run Inputs
  bind_loop nil s = returns s
  bind_loop (cons c nested rest) s = do
    _ ← require (ltb s.bind s.params)
    s ← bind_one c.type c (bind_clause nested) s
    bind_loop rest s

  pub bind_clause : ClauseList → Inputs → Run Inputs
  bind_clause absent s = fails
  bind_clause (list cs) s = let loop = bind_loop cs s in require (ltb s.bind s.params) >> loop

-- __db_backend_mysql_bind_value of a bind that may be NULL, for a value that stays as it is.
unfoldable pub bind_value : Value → Inputs → Run Inputs
unfolding sender
bind_value v s = require (ltb s.bind s.params) >> bind_kept v s

-- The same for the local variable `revision`.
unfoldable pub bind_revision : Value → Inputs → Run Inputs
unfolding sender
bind_revision revision s =
    require (ltb s.bind s.params)
    >> (sender (type_of (some revision)) revision >>= λ f. returns (put f s))

-- The loop of __db_backend_mysql_bind_value_set, with the rounds that are left.
unfoldable pub bind_values : ℕ → ValueSet → ℕ → Inputs → Run Inputs
unfolding bind_value
bind_values zero set i s = returns s
bind_values (suc rounds) set i s = do
  v ← given_value (Sets.at (some set) i)
  s ← bind_value v s
  bind_values rounds set (i + 1) (advance s)

-- __db_backend_mysql_bind_value_set
unfoldable pub bind_value_set : ValueSet → Inputs → Run Inputs
unfolding bind_values
bind_value_set set s =
    require (ltb s.bind s.params) >> bind_values (Sets.size_of (some set)) set 0 s
