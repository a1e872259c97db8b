-- ===== src/Sqlite/Bind.antt =====
-- src/libdbo_backend_sqlite.c: how values are bound to the marks of a prepared statement. What
-- SQLite answers to a sqlite3_bind_* call is a parameter, `accepts`, by position and value.
use dbo.Prelude.{
  ℕ, zero, suc, ◌+◌, ◌++◌, Bool, Option, none, some, List, [], ◌∷◌, Status, ok, error_unknown, done,
  undefined, Outcome, ◌==◌, if◌then◌else◌,
}
use dbo.Prelude.Int.{ℤ, pos, to_signed32, to_signed64}
use dbo.Prelude.Text.{Text}
use dbo.Prelude.Run.{Run, returns, fails, crashes, ◌>>=◌}
use dbo.ValueType.{ValueType}
use dbo.Value.{Value, read_text, type_of}
use dbo.Value.Convert.{to_int32, to_uint32, to_int64, to_uint64}
use dbo.Value.Enum.{enum_value_of}
use dbo.Value.Sets
use dbo.Value.Sets.{ValueSet}
use dbo.Clause.{ClauseType, Clause}
use dbo.Clause.Tree.{Clauses, ClauseList, nil, cons, absent, list}

-- The argument of a sqlite3_bind_* call. sqlite3_bind_text of NULL binds NULL.
pub data Bound : Type 0 where
  int int64 : ℤ → Bound
  text : Option Text → Bound

-- The variable `bind`, and the calls that have been made, in order.
pub record Binds : Type 0 where
  pub bind : ℕ
  pub bound : List (ℕ × Bound)

abbrev pub Accepts : Type 0
Accepts = ℕ → Bound → Bool

-- `ret = sqlite3_bind_*(statement, bind++, x); if (ret != SQLITE_OK) return LIBDBO_ERROR_UNKNOWN;`
unfoldable pub put : Accepts → Bound → Binds → Run Binds
put accepts x s =
    if accepts s.bind x
    then returns (record { bind = s.bind + 1; bound = s.bound ++ (s.bind, x) ∷ [] })
    else fails

-- A local variable that a converter fills; an error leaves the function.
abbrev pub filled {ℓ} : {A : Type ℓ} → Status × Option A → Run A
filled (ok, some x) = returns x
filled (ok, none) = crashes
filled (error_unknown, x) = fails

-- The switch on the type of a clause's value.
unfoldable pub bind_clause_value : Accepts → ValueType → Value → Binds → Run Binds
unfolding put
bind_clause_value accepts ValueType.primary_key v s = do
  x ← filled (to_int32 (some v) (some (pos 0)))
  put accepts (int x) s
bind_clause_value accepts ValueType.int32 v s = do
  x ← filled (to_int32 (some v) (some (pos 0)))
  put accepts (int x) s
bind_clause_value accepts ValueType.uint32 v s = do
  x ← filled (to_uint32 (some v) (some 0))
  put accepts (int (to_signed32 x)) s
bind_clause_value accepts ValueType.int64 v s = do
  x ← filled (to_int64 (some v) (some (pos 0)))
  put accepts (int64 x) s
bind_clause_value accepts ValueType.uint64 v s = do
  x ← filled (to_uint64 (some v) (some 0))
  put accepts (int64 (to_signed64 x)) s
bind_clause_value accepts ValueType.text v s = put accepts (text (read_text (some v))) s
bind_clause_value accepts ValueType.enum v s = do
  x ← filled (enum_value_of (some v) (some (pos 0)))
  put accepts (int x) s
bind_clause_value accepts _ v s = fails

-- The switch on the type of a clause; `inner` binds the nested list.
unfoldable pub bind_one : Accepts → ClauseType → Clause → (Binds → Run Binds) → Binds → Run Binds
unfolding bind_clause_value
bind_one accepts ClauseType.is_null c inner s = returns s
bind_one accepts ClauseType.is_not_null c inner s = returns s
bind_one accepts ClauseType.nested c inner s = inner s
bind_one accepts ClauseType.unknown c inner s = fails
bind_one accepts _ c inner s = bind_clause_value accepts (type_of (some c.value)) c.value s

-- __db_backend_sqlite_bind_clause: its loop, and the function itself.
unfoldable mutual
  unfolding bind_one

  pub bind_loop : Accepts → Clauses → Binds → Run Binds
  bind_loop accepts nil s = returns s
  bind_loop accepts (cons c nested rest) s = do
    s ← bind_one accepts c.type c (bind_clause accepts nested) s
    bind_loop accepts rest s

  pub bind_clause : Accepts → ClauseList → Binds → Run Binds
  bind_clause accepts absent s = fails
  bind_clause accepts (list cs) s =
      let loop = bind_loop accepts cs s in if s.bind == 0 then fails else loop

-- The switch of libdbo_backend_sqlite_create and libdbo_backend_sqlite_update on a value's type.
unfoldable pub bind_value : Accepts → ValueType → Value → Binds → Run Binds
unfolding put
bind_value accepts ValueType.int32 v s = do
  x ← filled (to_int32 (some v) (some (pos 0)))
  put accepts (int x) s
bind_value accepts ValueType.uint32 v s = do
  x ← filled (to_uint32 (some v) (some 0))
  put accepts (int (to_signed32 x)) s
bind_value accepts ValueType.int64 v s = do
  x ← filled (to_int64 (some v) (some (pos 0)))
  put accepts (int64 x) s
bind_value accepts ValueType.uint64 v s = do
  x ← filled (to_uint64 (some v) (some 0))
  put accepts (int64 (to_signed64 x)) s
bind_value accepts ValueType.text v s = put accepts (text (read_text (some v))) s
bind_value accepts ValueType.enum v s = do
  x ← filled (enum_value_of (some v) (some (pos 0)))
  put accepts (int x) s
bind_value accepts _ v s = fails

-- A pointer that libdbo_value_set_at returned.
abbrev pub given_value : Outcome (Option Value) → Run Value
given_value undefined = crashes
given_value (done none) = fails
given_value (done (some v)) = returns v

-- `for (value_pos = 0; value_pos < size; value_pos++)`, with the rounds that are left.
unfoldable pub bind_values : ℕ → Accepts → ValueSet → ℕ → Binds → Run Binds
unfolding bind_value
bind_values zero accepts set value_pos s = returns s
bind_values (suc rounds) accepts set value_pos s = do
  v ← given_value (Sets.at (some set) value_pos)
  s ← bind_value accepts (type_of (some v)) v s
  bind_values rounds accepts set (value_pos + 1) s
