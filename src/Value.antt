-- ===== src/Value.antt =====
-- src/libdbo_value.c, first part, with libdbo/value.h: the value record, its life cycle (new, free,
-- reset, copy) and its readers. A pointer to a value is an `Option Value`, NULL being `none`; a
-- function that writes through it returns the new contents. `Memory` tells which allocations
-- succeed. Setters and converters, comparison, enumerations and value sets are the children; the
-- modules named for theorems prove them correct.
pub mod Convert
pub mod Compare
pub mod Enum
pub mod Sets
pub mod Storage
pub mod Copying
pub mod Order
pub mod Members
pub mod Blocks
pub mod SetCopying
mod Examples
use dbo.Prelude.{
  ℕ, Bool, true, false, not, Option, none, some, Status, ok, error_unknown, if◌then◌else◌,
}
use dbo.Prelude.Int.{ℤ, pos}
use dbo.Prelude.Text.{Text, Memory, allocate, strdup}
use dbo.ValueType.{ValueType, is}

-- struct libdbo_value
pub record Value : Type 0 where
  pub type : ValueType
  pub primary_key : ℕ
  pub text : Option Text
  pub int32 : ℤ
  pub uint32 : ℕ
  pub int64 : ℤ
  pub uint64 : ℕ
  pub enum_value : ℤ
  pub enum_text : Option Text

-- All bytes zero, as LIBDBO_VALUE_EMPTY, bzero and libdbo_value_reset leave it.
abbrev pub zero_value : Value
zero_value = record {
  type = ValueType.empty;
  primary_key = 0;
  text = none;
  int32 = pos 0;
  uint32 = 0;
  int64 = pos 0;
  uint64 = 0;
  enum_value = pos 0;
  enum_text = none;
}

-- libdbo_value_new
unfoldable pub new : Memory → Option Value × Memory
new m = let (got, m') = allocate m in ((if got then some zero_value else none), m')

-- libdbo_value_reset
unfoldable pub reset : Option Value → Option Value
reset none = none
reset (some v) = some (record v {
  type = ValueType.empty;
  primary_key = 0;
  text = none;
  int32 = pos 0;
  uint32 = 0;
  int64 = pos 0;
  uint64 = 0;
  enum_value = pos 0;
  enum_text = none;
})

-- What follows the memcpy in libdbo_value_copy: the text gets a copy of its own.
own_text : Value → Option Text → Memory → Status × Option Value × Memory
own_text v none m = (ok, some v, m)
own_text v (some t) m =
    let (copy, m') = strdup t m in
    elim copy [
      | none ↦ (error_unknown, reset (some (record v { text = none })), m')
      | some t' ↦ (ok, some (record v { text = some t' }), m')
    ]

-- libdbo_value_copy
unfoldable pub copy : Option Value → Option Value → Memory → Status × Option Value × Memory
unfolding own_text reset
copy none from m = (error_unknown, none, m)
copy (some v) none m = (error_unknown, some v, m)
copy (some v) (some from) m =
    if not (is v.type ValueType.empty)
    then (error_unknown, some v, m)
    else if is from.type ValueType.empty
    then (error_unknown, some v, m)
    else own_text from from.text m

-- libdbo_value_new_copy
unfoldable pub new_copy : Option Value → Memory → Option Value × Memory
unfolding copy
new_copy none m = (none, m)
new_copy (some from) m =
    let (got, m') = allocate m in
    if not got
    then (none, m')
    else let (s, v, m'') = copy (some zero_value) (some from) m' in
      elim s [ ok ↦ (v, m'') | error_unknown ↦ (none, m'') ]

-- libdbo_value_type
unfoldable pub type_of : Option Value → ValueType
type_of none = ValueType.empty
type_of (some v) = v.type

-- The readers give the field, or NULL where the value has another type.
unfoldable pub read_int32 : Option Value → Option ℤ
read_int32 none = none
read_int32 (some v) = if not (is v.type ValueType.int32) then none else some v.int32

unfoldable pub read_uint32 : Option Value → Option ℕ
read_uint32 none = none
read_uint32 (some v) = if not (is v.type ValueType.uint32) then none else some v.uint32

unfoldable pub read_int64 : Option Value → Option ℤ
read_int64 none = none
read_int64 (some v) = if not (is v.type ValueType.int64) then none else some v.int64

unfoldable pub read_uint64 : Option Value → Option ℕ
read_uint64 none = none
read_uint64 (some v) = if not (is v.type ValueType.uint64) then none else some v.uint64

unfoldable pub read_text : Option Value → Option Text
read_text none = none
read_text (some v) = if not (is v.type ValueType.text) then none else v.text

unfoldable pub read_enum_text : Option Value → Option Text
read_enum_text none = none
read_enum_text (some v) = if not (is v.type ValueType.enum) then none else v.enum_text

-- libdbo_value_not_empty
unfoldable pub not_empty : Option Value → Status
not_empty none = error_unknown
not_empty (some v) = if is v.type ValueType.empty then error_unknown else ok

-- libdbo_value_primary_key; the error for NULL is the number 1.
unfoldable pub primary_key_of : Option Value → ℕ
primary_key_of none = 1
primary_key_of (some v) = v.primary_key

-- libdbo_value_set_primary_key
unfoldable pub set_primary_key : Option Value → Status × Option Value
set_primary_key none = (error_unknown, none)
set_primary_key (some v) =
    if is v.type ValueType.empty
    then (error_unknown, some v)
    else if is v.type ValueType.enum
    then (error_unknown, some v)
    else (ok, some (record v { primary_key = 1 }))
