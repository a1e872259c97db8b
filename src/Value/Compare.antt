-- ===== src/Value/Compare.antt =====
-- src/libdbo_value.c, libdbo_value_cmp. `*result` is -1, 0 or 1, or what strcmp gives.
use dbo.Prelude.{
  ℕ, Bool, Option, none, some, Status, ok, error_unknown, Outcome, done, ltb, not, ◌&&◌,
  if◌then◌else◌, ◌>>=◌, deref,
}
use dbo.Prelude.Int.{ℤ, pos, negsuc, ◌<ℤ◌}
use dbo.Prelude.Text.{strcmp}
use dbo.ValueType.{ValueType, is}
use dbo.Value.{Value}

-- The ladder `if (a < b) -1; else if (a > b) 1; else 0`.
abbrev pub order : Bool → Bool → ℤ
order less greater = if less then negsuc 0 else if greater then pos 1 else pos 0

abbrev pub compare_ℤ : ℤ → ℤ → ℤ
compare_ℤ a b = order (a <ℤ b) (b <ℤ a)

abbrev pub compare_ℕ : ℕ → ℕ → ℤ
compare_ℕ a b = order (ltb a b) (ltb b a)

-- The switch for two values of different types: only a widening of one integer is done.
unfoldable pub compare_mixed : ValueType → Value → Value → ℤ → Status × ℤ
compare_mixed ValueType.int32 a b r =
    if is b.type ValueType.int64 then (ok, compare_ℤ a.int32 b.int64) else (error_unknown, r)
compare_mixed ValueType.int64 a b r =
    if is b.type ValueType.int32 then (ok, compare_ℤ a.int64 b.int32) else (error_unknown, r)
compare_mixed ValueType.uint32 a b r =
    if is b.type ValueType.uint64 then (ok, compare_ℕ a.uint32 b.uint64) else (error_unknown, r)
compare_mixed ValueType.uint64 a b r =
    if is b.type ValueType.uint32 then (ok, compare_ℕ a.uint64 b.uint32) else (error_unknown, r)
compare_mixed _ a b r = (error_unknown, r)

-- The switch for two values of one type.
unfoldable pub compare_same : ValueType → Value → Value → ℤ → Outcome (Status × ℤ)
compare_same ValueType.int32 a b r = done (ok, compare_ℤ a.int32 b.int32)
compare_same ValueType.uint32 a b r = done (ok, compare_ℕ a.uint32 b.uint32)
compare_same ValueType.int64 a b r = done (ok, compare_ℤ a.int64 b.int64)
compare_same ValueType.uint64 a b r = done (ok, compare_ℕ a.uint64 b.uint64)
compare_same ValueType.text a b r = do s ← deref a.text; t ← deref b.text; done (ok, strcmp s t)
compare_same ValueType.enum a b r = done (ok, compare_ℤ a.enum_value b.enum_value)
compare_same _ a b r = done (error_unknown, r)

-- The body, once no pointer is NULL.
unfoldable pub compare_values : Value → Value → ℤ → Outcome (Status × ℤ)
unfolding compare_mixed compare_same
compare_values a b r =
    if is a.type ValueType.empty && not (is b.type ValueType.empty)
    then done (ok, negsuc 0)
    else if is a.type ValueType.empty && is b.type ValueType.empty
    then done (ok, pos 0)
    else if not (is a.type ValueType.empty) && is b.type ValueType.empty
    then done (ok, pos 1)
    else if not (is a.type b.type)
    then done (compare_mixed a.type a b r)
    else compare_same a.type a b r

-- libdbo_value_cmp
unfoldable pub cmp : Option Value → Option Value → Option ℤ → Outcome (Status × Option ℤ)
unfolding compare_values
cmp none b out = done (error_unknown, out)
cmp (some a) none out = done (error_unknown, out)
cmp (some a) (some b) none = done (error_unknown, none)
cmp (some a) (some b) (some r) = do (s, r') ← compare_values a b r; done (s, some r')
