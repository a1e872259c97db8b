-- ===== src/Clause.antt =====
-- src/libdbo_clause.c, first part, with libdbo/clause.h: a clause and the functions on one clause.
-- The record is what struct libdbo_clause holds besides `next`; `clause_list` is the address of the
-- nested list. A pointer to a clause is an `Option`, and a setter returns the new contents.
pub mod Tree
mod Examples
use dbo.Prelude.{
  ℕ, Bool, true, false, ◌||◌, not, Option, none, some, Status, ok, error_unknown, ◌==◌, is_some,
  if◌then◌else◌,
}
use dbo.Prelude.Text.{Text, Memory, allocate, strdup}
use dbo.Prelude.Run.{Run, returns, fails, crashes}
use dbo.ValueType.{ValueType, is}
use dbo.Value.{Value, zero_value, type_of, reset}
use dbo.Chain.{Ptr, null}

pub data ClauseType : Type 0 where
  unknown equal not_equal less_then less_or_equal greater_or_equal greater_then : ClauseType
  is_null is_not_null nested : ClauseType

pub data Operator : Type 0 where
  unknown and or : Operator

-- struct libdbo_clause, without `next`
pub record Clause : Type 0 where
  pub table : Option Text
  pub field : Option Text
  pub type : ClauseType
  pub value : Value
  pub clause_operator : Operator
  pub clause_list : Ptr

abbrev pub is_unknown : ClauseType → Bool
is_unknown ClauseType.unknown = true
is_unknown _ = false

abbrev pub is_nested : ClauseType → Bool
is_nested ClauseType.nested = true
is_nested _ = false

-- libdbo_clause_new
unfoldable pub new : Memory → Option Clause × Memory
new m =
    let (got, m') = allocate m in
    (
      (if got
          then some (record {
            table = none;
            field = none;
            type = ClauseType.unknown;
            value = zero_value;
            clause_operator = Operator.and;
            clause_list = null;
          })
          else none),
      m',
    )

-- libdbo_clause_set_table. The name must not be NULL: strdup is not guarded.
unfoldable pub set_table :
    Option Clause → Option Text → Memory → Run (Status × Option Clause × Memory)
set_table none t m = returns (error_unknown, none, m)
set_table (some c) none m =
    if not (c.clause_list == null) then returns (error_unknown, some c, m) else crashes
set_table (some c) (some t) m =
    if not (c.clause_list == null)
    then returns (error_unknown, some c, m)
    else let copied = strdup t m in
      returns (elim copied.0 [
        | none ↦ (error_unknown, some c, copied.1)
        | some t' ↦ (ok, some (record c { table = some t' }), copied.1)
      ])

-- libdbo_clause_set_field
unfoldable pub set_field :
    Option Clause → Option Text → Memory → Run (Status × Option Clause × Memory)
set_field none f m = returns (error_unknown, none, m)
set_field (some c) none m =
    if not (c.clause_list == null) then returns (error_unknown, some c, m) else crashes
set_field (some c) (some f) m =
    if not (c.clause_list == null)
    then returns (error_unknown, some c, m)
    else let copied = strdup f m in
      returns (elim copied.0 [
        | none ↦ (error_unknown, some c, copied.1)
        | some f' ↦ (ok, some (record c { field = some f' }), copied.1)
      ])

-- libdbo_clause_set_type
unfoldable pub set_type : Option Clause → ClauseType → Status × Option Clause
set_type none t = (error_unknown, none)
set_type (some c) t =
    if is_unknown t then (error_unknown, some c) else (ok, some (record c { type = t }))

-- libdbo_clause_set_operator
unfoldable pub set_operator : Option Clause → Operator → Status × Option Clause
set_operator none o = (error_unknown, none)
set_operator (some c) Operator.unknown = (error_unknown, some c)
set_operator (some c) Operator.and = (ok, some (record c { clause_operator = Operator.and }))
set_operator (some c) Operator.or = (ok, some (record c { clause_operator = Operator.or }))

-- libdbo_clause_set_list
unfoldable pub set_list : Option Clause → Ptr → Status × Option Clause
set_list none l = (error_unknown, none)
set_list (some c) l =
    if is_some c.table
      || is_some c.field
      || not (c.clause_list == null)
      || not (is (type_of (some c.value)) ValueType.empty)
    then (error_unknown, some c)
    else (ok, some (record c { clause_list = l }))

-- libdbo_clause_not_empty
unfoldable pub not_empty : Option Clause → Status
not_empty none = error_unknown
not_empty (some c) =
    if is_unknown c.type
    then error_unknown
    else if is_nested c.type
    then (if c.clause_list == null then error_unknown else ok)
    else if not (is_some c.field)
    then error_unknown
    else if is (type_of (some c.value)) ValueType.empty
    then error_unknown
    else ok

-- libdbo_clause_get_value: the value that a caller may set, or NULL.
unfoldable pub get_value : Option Clause → Option Value
get_value none = none
get_value (some c) = if not (c.clause_list == null) then none else some c.value
