-- ===== src/Sqlite/Columns.antt =====
-- src/libdbo_backend_sqlite.c, libdbo_backend_sqlite_next: how the columns of a row are put into the
-- values of a value set.
use dbo.Prelude.{
  ℕ, ◌+◌, Bool, true, false, Option, none, some, List, [], ◌∷◌, Status, ok, error_unknown, Outcome,
  done, ◌>>=◌,
}
use dbo.Prelude.Int.{to_unsigned32, to_unsigned64}
use dbo.Prelude.Text.{Text, Memory}
use dbo.ValueType.{ValueType}
use dbo.Value.{Value, set_primary_key}
use dbo.Value.Convert.{from_int32, from_uint32, from_int64, from_uint64, from_text}
use dbo.Value.Sets
use dbo.Value.Sets.{ValueSet}
use dbo.Object.{ObjectField}
use dbo.Sqlite.Session.{Row, ColumnType, integer_column, text_column, other_column}

-- A setter called on the value, unless sqlite3_errcode tells of an error.
abbrev pub unless :
    Bool → Option Value → Memory → Status × Option Value → Status × Option Value × Memory
unless true v m r = (error_unknown, v, m)
unless false v m r = (r.0, r.1, m)

abbrev pub text_column_value :
    Bool → Option Text → Option Value → Memory → Status × Option Value × Memory
text_column_value _ none v m = (error_unknown, v, m)
text_column_value true (some t) v m = (error_unknown, v, m)
text_column_value false (some t) v m = from_text v (some t) m

-- libdbo_value_from_int32, and then libdbo_value_set_primary_key
abbrev pub mark_primary_key : Status × Option Value → Status × Option Value
mark_primary_key (ok, w) = set_primary_key w
mark_primary_key (error_unknown, w) = (error_unknown, w)

-- The switch on the type of a field whose type does not say the type of the column.
unfoldable pub read_any :
    Row → ℕ → ColumnType → Option Value → Memory → Status × Option Value × Memory
read_any row k integer_column v m = unless (row.is_error k) v m (from_int64 v (row.int64 k))
read_any row k text_column v m = text_column_value (row.is_error k) (row.text k) v m
read_any row k other_column v m = (error_unknown, v, m)

-- The switch on the type of a field.
unfoldable pub read_column :
    Row → ℕ → ValueType → Option Value → Memory → Status × Option Value × Memory
unfolding read_any
read_column row k ValueType.primary_key v m =
    unless (row.is_error k) v m (mark_primary_key (from_int32 v (row.int k)))
read_column row k ValueType.enum v m = unless (row.is_error k) v m (from_int32 v (row.int k))
read_column row k ValueType.int32 v m = unless (row.is_error k) v m (from_int32 v (row.int k))
read_column row k ValueType.uint32 v m =
    unless (row.is_error k) v m (from_uint32 v (to_unsigned32 (row.int k)))
read_column row k ValueType.int64 v m = unless (row.is_error k) v m (from_int64 v (row.int64 k))
read_column row k ValueType.uint64 v m =
    unless (row.is_error k) v m (from_uint64 v (to_unsigned64 (row.int64 k)))
read_column row k ValueType.text v m = text_column_value (row.is_error k) (row.text k) v m
read_column row k ValueType.any v m = read_any row k (row.type k) v m
read_column row k ValueType.revision v m = read_any row k (row.type k) v m
read_column row k ValueType.empty v m = (error_unknown, v, m)

-- The loop over the object's fields, from column `bind` on; an error frees the result, which is
-- `none`.
unfoldable pub read_columns :
    Row → List ObjectField → ℕ → ValueSet → Memory → Outcome (Option ValueSet × Memory)
unfolding read_column
read_columns row [] bind set m = done (some set, m)
read_columns row (f ∷ fs) bind set m = Sets.at (some set) bind >>= λ v.
    let r = read_column row bind f.type v m in
    elim r.0 [
      | error_unknown ↦ done (none, r.2)
      | ok ↦ elim (Sets.store_at (some set) bind r.1) [
        | none ↦ done (none, r.2)
        | some set' ↦ read_columns row fs (bind + 1) set' r.2
      ]
    ]
