-- ===== src/Value/Enum.antt =====
-- src/libdbo_value.c, the functions on enumerations. An enumeration set is the list of the entries
-- before the one with the NULL text, so `while (enum_set->text)` is recursion on it.
use dbo.Prelude.{
  not, Option, none, some, [], ◌∷◌, Status, ok, error_unknown, Outcome, done, is_some,
  if◌then◌else◌, ◌>>=◌, deref,
}
use dbo.Prelude.Int.{ℤ, ◌==ℤ◌}
use dbo.Prelude.Text.{Text, same_text}
use dbo.ValueType.{ValueType, EnumItem, EnumSet, is}
use dbo.Value.{Value}

-- The loops `while (enum_set->text)` with a test on the number or on the text.
unfoldable pub find_value : ℤ → EnumSet → Option EnumItem
find_value x [] = none
find_value x (e ∷ es) = if e.value ==ℤ x then some e else find_value x es

unfoldable pub find_text : Text → EnumSet → Option EnumItem
find_text t [] = none
find_text t (e ∷ es) = if same_text e.text t then some e else find_text t es

-- The loop with strcmp, on a text that may be NULL: strcmp is called only if the set has an entry.
unfoldable pub find_named : Option Text → EnumSet → Outcome (Option EnumItem)
unfolding find_text
find_named t [] = done none
find_named t (e ∷ es) = do s ← deref t; done (find_text s (e ∷ es))

-- The search that libdbo_value_to_enum_value and libdbo_value_to_enum_text share: by the
-- enumeration's number, by the text, or by the 32-bit number, whichever the value holds.
unfoldable pub find_item : Value → EnumSet → Outcome (Option EnumItem)
unfolding find_value find_named
find_item v es =
    if is v.type ValueType.enum
    then done (find_value v.enum_value es)
    else if is v.type ValueType.text
    then find_named v.text es
    else if is v.type ValueType.int32
    then done (find_value v.int32 es)
    else done none

found_value : Option EnumItem → ℤ → Status × Option ℤ
found_value none old = (error_unknown, some old)
found_value (some e) old = (ok, some e.value)

-- libdbo_value_to_enum_value
unfoldable pub to_enum_value :
    Option Value → Option ℤ → Option EnumSet → Outcome (Status × Option ℤ)
unfolding find_item found_value
to_enum_value none out es = done (error_unknown, out)
to_enum_value (some v) none es = done (error_unknown, none)
to_enum_value (some v) (some old) none = done (error_unknown, some old)
to_enum_value (some v) (some old) (some es) = do
  found ← find_item v es
  done (found_value found old)

-- `*to_text = value->enum_text`, on each of the three branches
found_text : Option EnumItem → Value → Option Text → Status × Option (Option Text)
found_text none v old = (error_unknown, some old)
found_text (some e) v old = (ok, some v.enum_text)

-- libdbo_value_to_enum_text
unfoldable pub to_enum_text :
    Option Value → Option (Option Text) → Option EnumSet → Outcome (Status × Option (Option Text))
unfolding find_item found_text
to_enum_text none out es = done (error_unknown, out)
to_enum_text (some v) none es = done (error_unknown, none)
to_enum_text (some v) (some old) none = done (error_unknown, some old)
to_enum_text (some v) (some old) (some es) =
    if is_some old
    then done (error_unknown, some old)
    else do found ← find_item v es; done (found_text found v old)

-- The assignments of the two setters.
unfoldable pub keep_item : Value → Option EnumItem → Status × Option Value
keep_item v none = (error_unknown, some v)
keep_item v (some e) =
    (ok, some (record v { type = ValueType.enum; enum_value = e.value; enum_text = some e.text }))

-- libdbo_value_from_enum_value
unfoldable pub from_enum_value : Option Value → ℤ → Option EnumSet → Status × Option Value
unfolding find_value keep_item
from_enum_value none x es = (error_unknown, none)
from_enum_value (some v) x none = (error_unknown, some v)
from_enum_value (some v) x (some es) =
    if not (is v.type ValueType.empty)
    then (error_unknown, some v)
    else keep_item v (find_value x es)

-- libdbo_value_from_enum_text
unfoldable pub from_enum_text : Option Value → Option Text → Option EnumSet → Status × Option Value
unfolding find_text keep_item
from_enum_text none t es = (error_unknown, none)
from_enum_text (some v) none es = (error_unknown, some v)
from_enum_text (some v) (some t) none = (error_unknown, some v)
from_enum_text (some v) (some t) (some es) =
    if not (is v.type ValueType.empty)
    then (error_unknown, some v)
    else keep_item v (find_text t es)

-- libdbo_value_enum_value
unfoldable pub enum_value_of : Option Value → Option ℤ → Status × Option ℤ
enum_value_of none out = (error_unknown, out)
enum_value_of (some v) none = (error_unknown, none)
enum_value_of (some v) (some old) =
    if not (is v.type ValueType.enum) then (error_unknown, some old) else (ok, some v.enum_value)
