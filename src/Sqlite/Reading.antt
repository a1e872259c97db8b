-- ===== src/Sqlite/Reading.antt =====
-- What libdbo_backend_sqlite_next reads from a row, against what is bound by create and update.
use dbo.Prelude.{
  ℕ, ◌<◌, ◌^◌, ◌≡◌, refl, true, false, Option, none, some, ◌∷◌, ok, arith, ap, [], ◌++◌, ◌∙◌, sym,
  Option-cases, inl, inr, is_some,
}
use dbo.Prelude.Int.{to_unsigned32, to_unsigned64, unsigned32-signed32, unsigned64-signed64}
use dbo.Prelude.Text.{Memory}
use dbo.ValueType.{ValueType}
use dbo.Value.{Value, type_of, zero_value, set_primary_key}
use dbo.Value.Convert.{from_int32, from_uint32, from_int64, from_uint64, from_text}
use dbo.Value.Storage.{Datum, int32, uint32, int64, uint64, enum, text, datum, text_datum}
use dbo.Sqlite.Bind.{Bound, Binds, Accepts, bind_value}
use dbo.Sqlite.Bind
use dbo.Sqlite.Session.{Row, ColumnType, integer_column, text_column, other_column}
use dbo.Sqlite.Values.{bound_at, bind_value-after}
use dbo.Prelude.Run.{returns}
use mathlib.Core.Path.{subst}
use mathlib.Core.List.{append_cancel_left}
use dbo.Sqlite.Columns.{read_any, read_column}

abbrev pub any_datum : Row → ℕ → ColumnType → Option Datum
any_datum row k integer_column = some (int64 (row.int64 k))
any_datum row k text_column = text_datum (row.text k)
any_datum row k other_column = none

-- What a column of a row means for a field of a type.
abbrev pub column_datum : Row → ℕ → ValueType → Option Datum
column_datum row k ValueType.uint32 = some (uint32 (to_unsigned32 (row.int k)))
column_datum row k ValueType.int64 = some (int64 (row.int64 k))
column_datum row k ValueType.uint64 = some (uint64 (to_unsigned64 (row.int64 k)))
column_datum row k ValueType.text = text_datum (row.text k)
column_datum row k ValueType.any = any_datum row k (row.type k)
column_datum row k ValueType.revision = any_datum row k (row.type k)
column_datum row k ValueType.empty = none
column_datum row k _ = some (int32 (row.int k))

any_lem :
    (row : Row) (k : ℕ) (c : ColumnType) (v w : Value) (m m' : Memory)
    → read_any row k c (some v) m ≡ (ok, some w, m')
    → datum w ≡ any_datum row k c
unfolding read_any from_int64 from_text
any_lem row k c v w m m' h = ground arith

pub column_lem :
    (row : Row) (k : ℕ) (t : ValueType) (v w : Value) (m m' : Memory)
    → read_column row k t (some v) m ≡ (ok, some w, m')
    → datum w ≡ column_datum row k t
unfolding read_column from_int32 from_uint32 from_int64 from_uint64 from_text set_primary_key
column_lem row k ValueType.any v w m m' h = any_lem row k (row.type k) v w m m' h
column_lem row k ValueType.revision v w m m' h = any_lem row k (row.type k) v w m m' h
column_lem row k t v w m m' h = ground arith

-- A column holds what was bound for it.
abbrev pub Holds : Row → ℕ → Bound → Type 0
Holds row k (Bind.int x) = row.int k ≡ x
Holds row k (Bind.int64 x) = row.int64 k ≡ x
Holds row k (Bind.text t) = row.text k ≡ t

-- The unsigned fields of a value are in their ranges.
abbrev pub IsSized : Value → Type 0
IsSized v = (v.uint32 < 2 ^ 32) × (v.uint64 < 2 ^ 64)

-- What comes back: an enumeration value comes back as its number, since the set is not known.
abbrev pub back : Option Datum → Option Datum
back (some (enum x t)) = some (int32 x)
back d = d

-- The value that is read for a datum.
abbrev as_read : Datum → Value
as_read (int32 x) = record zero_value { type = ValueType.int32; int32 = x }
as_read (int64 x) = record zero_value { type = ValueType.int64; int64 = x }
as_read (uint32 x) = record zero_value { type = ValueType.uint32; uint32 = x }
as_read (uint64 x) = record zero_value { type = ValueType.uint64; uint64 = x }
as_read (text t) = record zero_value { type = ValueType.text; text = some t }
as_read (enum x t) = record zero_value { type = ValueType.int32; int32 = x }

datum-as_read : (d : Datum) → datum (as_read d) ≡ back (some d)
datum-as_read (int32 x) = refl
datum-as_read (int64 x) = refl
datum-as_read (uint32 x) = refl
datum-as_read (uint64 x) = refl
datum-as_read (text t) = refl
datum-as_read (enum x t) = refl

read_column-as_read :
    (row : Row) (k : ℕ) (v : Value) (m : Memory) (d : Datum)
    → IsSized v
    → datum v ≡ some d
    → row.is_error k ≡ false
    → Holds row k (bound_at v.type v)
    → read_column row k v.type (some zero_value) (true ∷ m)
      ≡ (ok, some (as_read d), (read_column row k v.type (some zero_value) (true ∷ m)).2)
unfolding read_column from_int32 from_uint32 from_int64 from_uint64 from_text
read_column-as_read row k v m (int32 x) sized e fine holds = ground arith
read_column-as_read row k v m (int64 x) sized e fine holds = ground arith
read_column-as_read row k v m (uint32 x) sized e fine holds =
    ground (arith, unsigned32-signed32 v.uint32 sized.0)
read_column-as_read row k v m (uint64 x) sized e fine holds =
    ground (arith, unsigned64-signed64 v.uint64 sized.1)
read_column-as_read row k v m (text t) sized e fine holds = ground arith
read_column-as_read row k v m (enum x t) sized e fine holds = ground arith

-- A binding that returns has added one value, which is the one of bound_at.
bind_value-bound :
    (accepts : Accepts) (v : Value) (s s' : Binds) (x : Bound)
    → bind_value accepts (type_of (some v)) v s ≡ returns s'
    → s'.bound ≡ s.bound ++ ((s.bind, x) ∷ [])
    → bound_at v.type v ≡ x
unfolding type_of
bind_value-bound accepts v s s' x h e =
    let moved = bind_value-after accepts v.type v s s' refl h in
    let same =
      append_cancel_left s.bound ((s.bind, bound_at v.type v) ∷ []) ((s.bind, x) ∷ [])
        (ap (λ b. b.bound) (sym moved) ∙ e) in
    ground (arith, same)

-- A value that holds something was bound by the switch of create and update, as the next one of the
-- statement; it is in the ranges of its type; and a column of a row without an error holds what was
-- bound. Reading that column for a field of the value's type into an empty value, with memory for a
-- text, answers ok, and what it reads is what the value holds, unsigned numbers included; of an
-- enumeration value it reads the number.
pub read_column-bind_value :
    (accepts : Accepts) (row : Row) (k : ℕ) (v : Value) (s s' : Binds) (x : Bound) (m : Memory)
    → IsSized v
    → is_some (datum v) ≡ true
    → bind_value accepts (type_of (some v)) v s ≡ returns s'
    → s'.bound ≡ s.bound ++ ((s.bind, x) ∷ [])
    → row.is_error k ≡ false
    → Holds row k x
    → (w : Value) × ((read_column row k v.type (some zero_value) (true ∷ m)).0 ≡ ok)
      × ((read_column row k v.type (some zero_value) (true ∷ m)).1 ≡ some w)
      × (datum w ≡ back (datum v))
read_column-bind_value accepts row k v s s' x m sized there binds added fine holds =
    elim (Option-cases (datum v)) [
      | inl nothing ↦ absurd (ground (arith, nothing, there))
      | inr (d, e) ↦
          let same = bind_value-bound accepts v s s' x binds added in
          let r =
            read_column-as_read row k v m d sized e fine (subst (Holds row k) (sym same) holds) in
          (as_read d, ap (λ y. y.0) r, ap (λ y. y.1) r, rw e (datum-as_read d))
    ]
