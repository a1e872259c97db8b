-- ===== src/Value/Copying.antt =====
-- libdbo_value_copy and libdbo_value_new_copy of src/libdbo_value.c: what a copy holds.
use dbo.Prelude.{
  refl, ◌≡◌, ◌≢◌, ◌⊎◌, Option, none, some, Status, ok, error_unknown, arith, true, false, [], ◌∷◌,
}
use dbo.Prelude.Text.{Memory}
use dbo.ValueType.{ValueType}
use dbo.Value.{Value, zero_value, copy, new_copy}

-- Why a copy of `from` into `v` is refused before memory is asked for: the target is not empty, or
-- the source is.
abbrev pub IsRefused : Value → Value → Type 0
IsRefused v from = (v.type ≢ ValueType.empty) ⊎ (from.type ≡ ValueType.empty)

-- The next allocation fails.
abbrev pub IsShort : Memory → Memory → Type 0
IsShort [] m' = m' ≡ []
IsShort (true ∷ m) m' = ⊥
IsShort (false ∷ m) m' = m' ≡ m

-- What a copy of two values gives: it is refused and leaves everything as it is; it copies a source
-- without a text; it copies one with a text, with the next allocation; or that allocation fails.
abbrev pub CopiedInto : Value → Value → Memory → Status × Option Value × Memory → Type 0
CopiedInto v from m (s, none, m') = ⊥
CopiedInto v from m (ok, some w, m') =
    (w ≡ from)
    × (v.type ≡ ValueType.empty)
    × (from.type ≢ ValueType.empty)
    × (((from.text ≡ none) × (m' ≡ m)) ⊎ ((from.text ≢ none) × (m ≡ true ∷ m')))
CopiedInto v from m (error_unknown, some w, m') =
    ((w ≡ v) × (m' ≡ m) × IsRefused v from)
    ⊎ ((w ≡ zero_value) × (v.type ≡ ValueType.empty) × (from.text ≢ none) × IsShort m m')

-- The same for pointers that may be NULL.
abbrev pub Copied : Option Value → Option Value → Memory → Status × Option Value × Memory → Type 0
Copied none from m (s, v, m') = (s ≡ error_unknown) × (v ≡ none) × (m' ≡ m)
Copied (some v) none m (s, w, m') = (s ≡ error_unknown) × (w ≡ some v) × (m' ≡ m)
Copied (some v) (some from) m r = CopiedInto v from m r

pub copied_lem : (v from : Value) (m : Memory) → CopiedInto v from m (copy (some v) (some from) m)
unfolding copy
copied_lem v from [] = ground arith
copied_lem v from (true ∷ m) = ground arith
copied_lem v from (false ∷ m) = ground arith

-- Copying one value into another, on every branch. NULL for either is refused. With the answer ok,
-- the target was empty, the source was not, the target now equals the source in every field, and a
-- source with a text, and no other, has taken one allocation, which succeeded. With the error,
-- either the target was taken or the source was empty, and nothing has changed; or the source has a
-- text, its allocation failed, and the target, which was empty, is all zero.
pub copy_lem : (v from : Option Value) (m : Memory) → Copied v from m (copy v from m)
unfolding copy
copy_lem none from m = (refl, refl, refl)
copy_lem (some v) none m = (refl, refl, refl)
copy_lem (some v) (some from) m = copied_lem v from m

-- A new copy is NULL or equals the value that it was made from. It is NULL for an empty value, and
-- never where the value is not empty and the two allocations, of the value and of its text, succeed.
pub new_copy_lem :
    (from : Value) (m : Memory)
    → (((w : Value) → (new_copy (some from) m).0 ≡ some w → w ≡ from)
        × (from.type ≡ ValueType.empty → (new_copy (some from) m).0 ≡ none)
        × (from.type ≢ ValueType.empty → (new_copy (some from) (true ∷ true ∷ m)).0 ≡ some from))
unfolding new_copy
new_copy_lem from [] = (λ w h. ground arith, λ h. ground arith, λ h. ground arith)
new_copy_lem from (b ∷ []) = (λ w h. ground arith, λ h. ground arith, λ h. ground arith)
new_copy_lem from (b ∷ c ∷ m) = (λ w h. ground arith, λ h. ground arith, λ h. ground arith)
