-- ===== src/Object.antt =====
-- src/libdbo_object.c with libdbo/object.h: object fields, object field lists and objects.
pub mod Calls
pub mod Dispatch
mod Examples
use dbo.Prelude.{
  Option, none, some, List, [], Status, ok, error_unknown, is_some, not, ◌&&◌, if◌then◌else◌,
}
use dbo.Prelude.Text.{Text}
use dbo.ValueType.{ValueType, EnumSet, is}

-- struct libdbo_object_field, without `next`
pub record ObjectField : Type 0 where
  pub name : Option Text
  pub type : ValueType
  pub enum_set : Option EnumSet

abbrev pub zero_field : ObjectField
zero_field = record { name = none; type = ValueType.empty; enum_set = none }

-- libdbo_object_field_set_name
unfoldable pub set_name : Option ObjectField → Option Text → Status × Option ObjectField
set_name none n = (error_unknown, none)
set_name (some f) none = (error_unknown, some f)
set_name (some f) (some n) = (ok, some (record f { name = some n }))

-- libdbo_object_field_set_type
unfoldable pub set_type : Option ObjectField → ValueType → Status × Option ObjectField
set_type none t = (error_unknown, none)
set_type (some f) t =
    if is t ValueType.empty then (error_unknown, some f) else (ok, some (record f { type = t }))

-- libdbo_object_field_set_enum_set
unfoldable pub set_enum_set : Option ObjectField → Option EnumSet → Status × Option ObjectField
set_enum_set none es = (error_unknown, none)
set_enum_set (some f) es =
    if not (is f.type ValueType.enum)
    then (error_unknown, some f)
    else (ok, some (record f { enum_set = es }))

-- libdbo_object_field_not_empty
unfoldable pub not_empty : Option ObjectField → Status
not_empty none = error_unknown
not_empty (some f) =
    if not (is_some f.name)
    then error_unknown
    else if is f.type ValueType.empty
    then error_unknown
    else if is f.type ValueType.enum && not (is_some f.enum_set)
    then error_unknown
    else ok

-- What the operations on an object need of struct libdbo_object: its table, its primary key and its
-- fields, in the order of the list; a NULL list has no first field.
pub record DatabaseObject : Type 0 where
  pub table : Option Text
  pub primary_key_name : Option Text
  pub object_field_list : Option (List ObjectField)

-- libdbo_object_field_list_begin of a list that may be NULL, and the fields from there.
abbrev pub fields_of : Option (List ObjectField) → List ObjectField
fields_of none = []
fields_of (some fs) = fs
