-- ===== src/Backend/MetaCopying.antt =====
-- The copies of meta data in src/libdbo_backend.c.
use mathlib.Core.Path.{subst}
use mathlib.Core.List.{append_assoc, append-nil}
use dbo.Prelude.{
  ◌≡◌, ◌≢◌, refl, sym, ap, ◌∙◌, Option, none, some, List, [], ◌∷◌, ◌++◌, Status, ok, error_unknown,
  arith, true, false, Bool-cases, is_ok, inl, inr,
}
use dbo.Prelude.Text.{Text, Memory, allocate}
use dbo.Value
use dbo.Value.{Value, zero_value}
use dbo.Value.Copying.{CopiedInto, copied_lem}
use dbo.Backend.MetaData.{
  MetaData, zero_meta_data, copy_name, copy_value, fresh_value, copy, added, copy_loop, list_copy,
  not_empty,
}

made-same :
    (v from : Value) (m : Memory) (r : Status × Option Value × Memory)
    → CopiedInto v from m r
    → r.0 ≡ ok
    → r.1 ≡ some from
made-same v from m (ok, none, m') c h = absurd c
made-same v from m (ok, some w, m') c h = ap some c.0
made-same v from m (error_unknown, w, m') c h = cc

-- The parts of a copy into new meta data that succeeds are equal to those of its source.
copy_value-same :
    (from : Option Value) (m : Memory)
    → (copy_value none from m).0 ≡ ok
    → (copy_value none from m).1 ≡ from
unfolding Value.new copy_value fresh_value
copy_value-same none m h = refl
copy_value-same (some v) [] h = absurd (ground (arith, h))
copy_value-same (some v) (false ∷ m) h = absurd (ground (arith, h))
copy_value-same (some v) (true ∷ m) h = made-same zero_value v m _ (copied_lem zero_value v m) h

copy_name-same :
    (from : Option Text) (m : Memory) → (copy_name from m).0 ≡ ok → (copy_name from m).1 ≡ from
copy_name-same none m h = refl
copy_name-same (some n) [] h = absurd (ground (arith, h))
copy_name-same (some n) (b ∷ m) h = ground (arith, h)

copy-same :
    (d : MetaData) (m : Memory)
    → (copy (some zero_meta_data) (some d) m).0 ≡ ok
    → (copy (some zero_meta_data) (some d) m).1 ≡ some d
unfolding copy
copy-same d m h =
    ground (arith, h, copy_name-same d.name m, copy_value-same d.value ((copy_name d.name m).2))

-- The list that the loop leaves: all that is to be copied behind what was there, or an initial
-- segment of it.
abbrev Extends : List MetaData → List MetaData → Status × List MetaData × Memory → Type 0
Extends to ds (ok, l, m) = l ≡ to ++ ds
Extends to ds (error_unknown, l, m) =
    (made : List MetaData) × (rest : List MetaData) × (l ≡ to ++ made)
    × (ds ≡ made ++ rest)
    × (rest ≢ [])

Extends-cons :
    (to ds : List MetaData) (d : MetaData) (r : Status × List MetaData × Memory)
    → Extends (to ++ (d ∷ [])) ds r
    → Extends to (d ∷ ds) r
Extends-cons to ds d (ok, l, m) h = h ∙ append_assoc to (d ∷ []) ds
Extends-cons to ds d (error_unknown, l, m) (made, rest, e, k, more) =
    (d ∷ made, rest, e ∙ append_assoc to (d ∷ []) made, ap (λ x. d ∷ x) k, more)

added-Extends :
    (to ds : List MetaData) (d : MetaData) (r : Status × Option MetaData × Memory)
    (rest : List MetaData → Memory → Status × List MetaData × Memory)
    → (r.0 ≡ ok → r.1 ≡ some d)
    → ((m : Memory) → Extends (to ++ (d ∷ [])) ds (rest (to ++ (d ∷ [])) m))
    → Extends to (d ∷ ds) (added to r rest)
unfolding added
added-Extends to ds d (error_unknown, c, m) rest same h =
    ([], d ∷ ds, sym (append-nil to), refl, λ e. cc)
added-Extends to ds d (ok, none, m) rest same h = absurd (ground (arith, same refl))
added-Extends to ds d (ok, some c, m) rest same h = elim (Bool-cases (is_ok (not_empty (some c)))) [
  | inl whole ↦
      let e : c ≡ d = ground (arith, same refl) in
      let step : added to (ok, some c, m) rest ≡ rest (to ++ (d ∷ [])) m =
        ground (arith, whole, e) in
      subst (Extends to (d ∷ ds)) (sym step) (Extends-cons to ds d _ (h m))
  | inr empty ↦ rw empty ([], d ∷ ds, sym (append-nil to), refl, λ e. cc)
]

copy_loop-Extends : (to ds : List MetaData) (m : Memory) → Extends to ds (copy_loop to ds m)
unfolding copy_loop
copy_loop-Extends to [] m = sym (append-nil to)
copy_loop-Extends to (d ∷ ds) m = elim (Bool-cases ((allocate m).0)) [
  | inl got ↦ rw got (
      added-Extends to ds d _ _ (copy-same d ((allocate m).1))
        λ m'. copy_loop-Extends (to ++ (d ∷ [])) ds m')
  | inr out ↦ rw out ([], d ∷ ds, sym (append-nil to), refl, λ e. cc)
]

-- What copying one list into another leaves.
abbrev pub IsCopy : List MetaData → Status × Option (List MetaData) × Memory → Type 0
IsCopy ds (r, none, m) = ⊥
IsCopy ds (ok, some l, m) = l ≡ ds
IsCopy ds (error_unknown, some l, m) = (rest : List MetaData) × (ds ≡ l ++ rest) × (rest ≢ [])

-- Copying a list of meta data into a list, whatever that held: with the answer ok, the list now
-- equals the source, each name and value with it; with the error, it is a proper initial segment of
-- the source, and nothing of what it held is left.
pub list_copy-IsCopy :
    (to ds : List MetaData) (m : Memory) → IsCopy ds (list_copy (some to) (some ds) m)
unfolding list_copy
list_copy-IsCopy to ds m = go (copy_loop [] ds m) (copy_loop-Extends [] ds m)
  where
    go : (r : Status × List MetaData × Memory) → Extends [] ds r → IsCopy ds (r.0, some (r.1), r.2)
    go (ok, l, m') h = h
    go (error_unknown, l, m') (made, rest, e, k, more) = (rest, ground (arith, e, k), more)
