-- ===== src/Value/Convert.antt =====
-- src/libdbo_value.c, the setters `libdbo_value_from_*` and the converters `libdbo_value_to_*` of
-- the scalar and text types. An out-pointer is an `Option` of the contents, NULL being `none`.
use dbo.Prelude.{
  ℕ, not, Option, none, some, Status, ok, error_unknown, Outcome, done, ◌==◌, is_some,
  if◌then◌else◌, ◌>>=◌, deref,
}
use dbo.Prelude.Int.{ℤ}
use dbo.Prelude.Text.{Text, Memory, strdup, strndup}
use dbo.ValueType.{ValueType, is}
use dbo.Value.{Value}

unfoldable pub from_int32 : Option Value → ℤ → Status × Option Value
from_int32 none x = (error_unknown, none)
from_int32 (some v) x =
    if not (is v.type ValueType.empty)
    then (error_unknown, some v)
    else (ok, some (record v { type = ValueType.int32; int32 = x }))

unfoldable pub from_uint32 : Option Value → ℕ → Status × Option Value
from_uint32 none x = (error_unknown, none)
from_uint32 (some v) x =
    if not (is v.type ValueType.empty)
    then (error_unknown, some v)
    else (ok, some (record v { type = ValueType.uint32; uint32 = x }))

unfoldable pub from_int64 : Option Value → ℤ → Status × Option Value
from_int64 none x = (error_unknown, none)
from_int64 (some v) x =
    if not (is v.type ValueType.empty)
    then (error_unknown, some v)
    else (ok, some (record v { type = ValueType.int64; int64 = x }))

unfoldable pub from_uint64 : Option Value → ℕ → Status × Option Value
from_uint64 none x = (error_unknown, none)
from_uint64 (some v) x =
    if not (is v.type ValueType.empty)
    then (error_unknown, some v)
    else (ok, some (record v { type = ValueType.uint64; uint64 = x }))

-- The end of the text setters: keep the copy, if there is one, and set the type.
keep_text : Value → Option Text × Memory → Status × Option Value × Memory
keep_text v (none, m) = (error_unknown, some (record v { text = none }), m)
keep_text v (some t, m) = (ok, some (record v { type = ValueType.text; text = some t }), m)

unfoldable pub from_text : Option Value → Option Text → Memory → Status × Option Value × Memory
unfolding keep_text
from_text none t m = (error_unknown, none, m)
from_text (some v) none m = (error_unknown, some v, m)
from_text (some v) (some t) m =
    if not (is v.type ValueType.empty) then (error_unknown, some v, m) else keep_text v (strdup t m)

unfoldable pub from_text2 : Option Value → Option Text → ℕ → Memory → Status × Option Value × Memory
unfolding keep_text
from_text2 none t size m = (error_unknown, none, m)
from_text2 (some v) none size m = (error_unknown, some v, m)
from_text2 (some v) (some t) size m =
    if size == 0
    then (error_unknown, some v, m)
    else if not (is v.type ValueType.empty)
    then (error_unknown, some v, m)
    else keep_text v (strndup t size m)

unfoldable pub to_int32 : Option Value → Option ℤ → Status × Option ℤ
to_int32 none out = (error_unknown, out)
to_int32 (some v) none = (error_unknown, none)
to_int32 (some v) (some old) =
    if not (is v.type ValueType.int32) then (error_unknown, some old) else (ok, some v.int32)

unfoldable pub to_uint32 : Option Value → Option ℕ → Status × Option ℕ
to_uint32 none out = (error_unknown, out)
to_uint32 (some v) none = (error_unknown, none)
to_uint32 (some v) (some old) =
    if not (is v.type ValueType.uint32) then (error_unknown, some old) else (ok, some v.uint32)

unfoldable pub to_int64 : Option Value → Option ℤ → Status × Option ℤ
to_int64 none out = (error_unknown, out)
to_int64 (some v) none = (error_unknown, none)
to_int64 (some v) (some old) =
    if not (is v.type ValueType.int64) then (error_unknown, some old) else (ok, some v.int64)

unfoldable pub to_uint64 : Option Value → Option ℕ → Status × Option ℕ
to_uint64 none out = (error_unknown, out)
to_uint64 (some v) none = (error_unknown, none)
to_uint64 (some v) (some old) =
    if not (is v.type ValueType.uint64) then (error_unknown, some old) else (ok, some v.uint64)

-- The `char**` must point to a NULL pointer; strdup of a NULL text is undefined.
unfoldable pub to_text :
    Option Value → Option (Option Text) → Memory → Outcome (Status × Option (Option Text) × Memory)
to_text none out m = done (error_unknown, out, m)
to_text (some v) none m = done (error_unknown, none, m)
to_text (some v) (some old) m =
    if is_some old
    then done (error_unknown, some old, m)
    else if not (is v.type ValueType.text)
    then done (error_unknown, some old, m)
    else do
      t ← deref v.text
      let copied = strdup t m
      done ((if is_some copied.0 then ok else error_unknown), some copied.0, copied.1)
