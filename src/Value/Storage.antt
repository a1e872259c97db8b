-- ===== src/Value/Storage.antt =====
-- What the setters and converters of src/libdbo_value.c do to the contents of a value, seen
-- abstractly: a value holds nothing or one datum.
use dbo.Prelude.{
  ℕ, ◌≡◌, ◌≢◌, ◌⊎◌, Option, none, some, Status, ok, error_unknown, done, arith, is_some, true, [],
  ◌∷◌, false,
}
use dbo.Prelude.Int.{ℤ, ==ℤ_iff}
use dbo.Prelude.Text.{Text, Memory, strdup}
use dbo.ValueType.{ValueType}
use dbo.Value.{Value}
use dbo.Value.Enum.{from_enum_value}
use mathlib.Core.Path.{subst}
use dbo.Value.Convert.{
  from_int32, from_uint32, from_int64, from_uint64, from_text, to_int32, to_uint32, to_int64,
  to_uint64, to_text,
}

-- What a value holds, as the application sees it.
pub data Datum : Type 0 where
  int32 int64 : ℤ → Datum
  uint32 uint64 : ℕ → Datum
  text : Text → Datum
  enum : ℤ → Text → Datum

abbrev pub text_datum : Option Text → Option Datum
text_datum none = none
text_datum (some t) = some (text t)

abbrev enum_datum : ℤ → Option Text → Option Datum
enum_datum x none = none
enum_datum x (some t) = some (enum x t)

abbrev datum_at : ValueType → Value → Option Datum
datum_at ValueType.int32 v = some (int32 v.int32)
datum_at ValueType.uint32 v = some (uint32 v.uint32)
datum_at ValueType.int64 v = some (int64 v.int64)
datum_at ValueType.uint64 v = some (uint64 v.uint64)
datum_at ValueType.text v = text_datum v.text
datum_at ValueType.enum v = enum_datum v.enum_value v.enum_text
datum_at _ v = none

abbrev pub datum : Value → Option Datum
datum v = datum_at v.type v

-- The values that the functions of the module make: a type that a datum has, a text exactly where
-- the type is the text type, and the text of its entry in an enumeration value.
abbrev IsHeld : ValueType → Option Text → Option Text → Type 0
IsHeld ValueType.primary_key t e = ⊥
IsHeld ValueType.any t e = ⊥
IsHeld ValueType.revision t e = ⊥
IsHeld ValueType.text t e = is_some t ≡ true
IsHeld ValueType.enum t e = (t ≡ none) × (is_some e ≡ true)
IsHeld _ t e = t ≡ none

abbrev pub IsValue : Value → Type 0
IsValue v = IsHeld v.type v.text v.enum_text

-- The setter for a datum; an enumeration value is set from a set of one entry.
abbrev pub store : Datum → Value → Memory → Status × Option Value × Memory
store (int32 x) v m = let r = from_int32 (some v) x in (r.0, r.1, m)
store (int64 x) v m = let r = from_int64 (some v) x in (r.0, r.1, m)
store (uint32 x) v m = let r = from_uint32 (some v) x in (r.0, r.1, m)
store (uint64 x) v m = let r = from_uint64 (some v) x in (r.0, r.1, m)
store (text t) v m = from_text (some v) (some t) m
store (enum x t) v m =
    let r = from_enum_value (some v) x (some (record { text = t; value = x } ∷ [])) in (r.0, r.1, m)

-- Both outcomes of a setter: it puts the datum into an empty value, or refuses because the value is
-- taken or the text cannot be copied, and leaves what the value holds.
abbrev pub Stored : Datum → Value → Memory → Status × Option Value × Memory → Type 0
Stored d v m (s, none, m') = ⊥
Stored d v m (ok, some w, m') =
    (datum v ≡ none) × (datum w ≡ some d) × IsValue w × (w.primary_key ≡ v.primary_key)
Stored d v m (error_unknown, some w, m') =
    IsValue w
    × (datum w ≡ datum v)
    × (w.type ≡ v.type)
    × ((datum v ≢ none) ⊎ ((t : Text) × (d ≡ text t) × ((strdup t m).0 ≡ none)))

-- A setter of an int32, uint32, int64, uint64, text or enumeration datum, called on a value that
-- the module made: if it answers ok, the value was empty, and now it holds the datum and is such a
-- value again, its primary key mark unchanged; if it answers with the error, what the value holds
-- is unchanged, and the value already held a datum or the copy of the text could not be allocated.
pub store_lem : (d : Datum) (v : Value) (m : Memory) → IsValue v → Stored d v m (store d v m)
unfolding from_int32 from_uint32 from_int64 from_uint64 from_text from_enum_value
store_lem (int32 x) v m h = ground arith
store_lem (int64 x) v m h = ground arith
store_lem (uint32 x) v m h = ground arith
store_lem (uint64 x) v m h = ground arith
store_lem (text t) v [] h = ground arith
store_lem (text t) v (true ∷ m) h = ground arith
store_lem (text t) v (false ∷ m) h = ground arith
store_lem (enum x t) v m h = ground (arith, ==ℤ_iff x x)

-- What the five converters answer for a value that holds a datum: the one for its type gives the
-- datum, the others the error, with the caller's variable unchanged.
abbrev pub Reads : Option Datum → Value → Type 0
Reads d v =
    ((old : ℤ)
      → to_int32 (some v) (some old)
        ≡ elim d [ some (int32 x) ↦ (ok, some x) | _ ↦ (error_unknown, some old) ])
    × ((old : ℕ)
        → to_uint32 (some v) (some old)
          ≡ elim d [ some (uint32 x) ↦ (ok, some x) | _ ↦ (error_unknown, some old) ])
    × ((old : ℤ)
        → to_int64 (some v) (some old)
          ≡ elim d [ some (int64 x) ↦ (ok, some x) | _ ↦ (error_unknown, some old) ])
    × ((old : ℕ)
        → to_uint64 (some v) (some old)
          ≡ elim d [ some (uint64 x) ↦ (ok, some x) | _ ↦ (error_unknown, some old) ])
    × ((m : Memory)
        → to_text (some v) (some none) (true ∷ m) ≡ elim d [
          | some (text t) ↦ done (ok, some (some t), m)
          | _ ↦ done (error_unknown, some none, true ∷ m)
        ])

converters-datum : (v : Value) → IsValue v → Reads (datum v) v
unfolding to_int32 to_uint32 to_int64 to_uint64 to_text
converters-datum v h = (
  λ old. ground arith,
  λ old. ground arith,
  λ old. ground arith,
  λ old. ground arith,
  λ m. ground arith,
)

-- If a setter answers ok, then of the converters to int32, uint32, int64, uint64 and text the one
-- for the datum's type gives back the datum, and each of the others answers with the error and
-- leaves the caller's variable; the conversion to text has memory for its copy.
pub converters-store :
    (d : Datum) (v w : Value) (m m' : Memory)
    → IsValue v
    → store d v m ≡ (ok, some w, m')
    → Reads (some d) w
converters-store d v w m m' h e =
    let s : Stored d v m (ok, some w, m') = subst (Stored d v m) e (store_lem d v m h) in
    subst (λ x. Reads x w) s.1 (converters-datum w s.2)
