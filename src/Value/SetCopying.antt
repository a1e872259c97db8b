-- ===== src/Value/SetCopying.antt =====
-- libdbo_value_set_new_copy of src/libdbo_value.c: a copy holds what the source holds.
use dbo.Prelude.{
  ℕ, zero, suc, ◌≤◌, ◌≡◌, refl, ◌≢◌, ◌⊎◌, inl, inr, Option, none, some, List, [], ◌∷◌, Status, ok,
  error_unknown, Outcome, done, undefined, arith, length, All, ap, sym, ◌∙◌, replicate, Bool-cases,
}
use dbo.Prelude.Text.{Memory}
use dbo.ValueType.{ValueType, is}
use dbo.Value.{Value, zero_value, copy, type_of}
use dbo.Value.Copying.{CopiedInto, copied_lem}
use mathlib.Core.Path.{subst}
use dbo.Value.Sets.{ValueSet, new, prepend, copied, copy_values, keep_values, fill, new_copy}
use dbo.Value.Blocks.{IsBlock, new-IsBlock}

-- Two values as a copy leaves them: equal, or both empty.
abbrev Alike : Value → Value → Type 0
Alike f t =
    ((f.type ≡ ValueType.empty) × (t.type ≡ ValueType.empty))
    ⊎ ((f.type ≢ ValueType.empty) × (t ≡ f))

abbrev AlikeUpTo : ℕ → List Value → List Value → Type 0
AlikeUpTo zero fs ts = Unit
AlikeUpTo (suc n) [] ts = ⊥
AlikeUpTo (suc n) (f ∷ fs) [] = ⊥
AlikeUpTo (suc n) (f ∷ fs) (t ∷ ts) = Alike f t × AlikeUpTo n fs ts

-- What the copying loop may give: no undefined behaviour, and either an error or a block of the
-- same length that is alike in the first `n` values.
abbrev CopiedUpTo : ℕ → List Value → List Value → Outcome (Option (List Value) × Memory) → Type 0
CopiedUpTo n fs ts undefined = ⊥
CopiedUpTo n fs ts (done (none, m)) = Unit
CopiedUpTo n fs ts (done (some us, m)) = AlikeUpTo n fs us × (length us ≡ length ts)

prepend-CopiedUpTo :
    (n : ℕ) (f t u : Value) (fs ts : List Value) (r : Outcome (Option (List Value) × Memory))
    → Alike f u
    → CopiedUpTo n fs ts r
    → CopiedUpTo (suc n) (f ∷ fs) (t ∷ ts) (prepend u r)
prepend-CopiedUpTo n f t u fs ts undefined alike h = h
prepend-CopiedUpTo n f t u fs ts (done (none, m)) alike h = tt
prepend-CopiedUpTo n f t u fs ts (done (some us, m)) alike h = ((alike, h.0), ap suc h.1)

-- A round that copies: the copy equals the source, or there is an error.
copied-CopiedUpTo :
    (n : ℕ) (f t : Value) (fs ts : List Value) (r : Status × Option Value × Memory)
    (rest : Memory → Outcome (Option (List Value) × Memory))
    → ((w : Value) (m : Memory) → r ≡ (ok, some w, m) → w ≡ f)
    → ((m : Memory) → r ≢ (ok, none, m))
    → f.type ≢ ValueType.empty
    → ((m : Memory) → CopiedUpTo n fs ts (rest m))
    → CopiedUpTo (suc n) (f ∷ fs) (t ∷ ts) (copied r rest)
unfolding copied
copied-CopiedUpTo n f t fs ts (ok, some w, m) rest same made full h =
    prepend-CopiedUpTo n f t w fs ts (rest m) (inr (full, same w m refl)) (h m)
copied-CopiedUpTo n f t fs ts (ok, none, m) rest same made full h = absurd (made m refl)
copied-CopiedUpTo n f t fs ts (error_unknown, v, m) rest same made full h = tt

copy_same : (t f w : Value) (m m' : Memory) → copy (some t) (some f) m ≡ (ok, some w, m') → w ≡ f
copy_same t f w m m' e =
    let c : CopiedInto t f m (ok, some w, m') = subst (CopiedInto t f m) e (copied_lem t f m) in c.0

copy_made : (t f : Value) (m m' : Memory) → copy (some t) (some f) m ≢ (ok, none, m')
copy_made t f m m' e = subst (CopiedInto t f m) e (copied_lem t f m)

copy_values-CopiedUpTo :
    (n : ℕ) (fs ts : List Value) (m : Memory)
    → n ≤ length fs
    → n ≤ length ts
    → All (λ t. t.type ≡ ValueType.empty) ts
    → CopiedUpTo n fs ts (copy_values n fs ts m)
unfolding copy_values type_of copied
copy_values-CopiedUpTo zero fs ts m hf ht e = (tt, refl)
copy_values-CopiedUpTo (suc n) [] ts m hf ht e = absurd (omega arith)
copy_values-CopiedUpTo (suc n) (f ∷ fs) [] m hf ht e = absurd (omega arith)
copy_values-CopiedUpTo (suc n) (f ∷ fs) (t ∷ ts) m hf ht e =
    let rest = λ (m' : Memory). copy_values-CopiedUpTo n fs ts m' (omega arith) (omega arith) e.1 in
    elim (Bool-cases (is f.type ValueType.empty)) [
      | inl hit ↦ rw hit (
          prepend-CopiedUpTo n f t t fs ts (copy_values n fs ts m) (inl (ground arith, e.0))
            (rest m))
      | inr miss ↦ rw miss (
          copied-CopiedUpTo n f t fs ts (copy (some t) (some f) m) (copy_values n fs ts)
            (λ w m'. copy_same t f w m m') (λ m'. copy_made t f m m') (ground arith) rest)
    ]

abbrev pub CopyOf : ValueSet → List Value → Outcome (Option ValueSet × Memory) → Type 0
CopyOf from vs undefined = ⊥
CopyOf from vs (done (none, m)) = Unit
CopyOf from vs (done (some s, m)) =
    (us : List Value) × IsBlock s us × (s.size ≡ from.size) × AlikeUpTo from.size vs us

All-replicate : (k : ℕ) → All (λ t. t.type ≡ ValueType.empty) (replicate k zero_value)
All-replicate zero = tt
All-replicate (suc k) = (refl, All-replicate k)

keep_values-CopyOf :
    (from s : ValueSet) (vs ts : List Value) (r : Outcome (Option (List Value) × Memory))
    → IsBlock s ts
    → s.size ≡ from.size
    → CopiedUpTo from.size vs ts r
    → CopyOf from vs (keep_values s r)
keep_values-CopyOf from s vs ts undefined b e h = h
keep_values-CopyOf from s vs ts (done (none, m)) b e h = tt
keep_values-CopyOf from s vs ts (done (some us, m)) b e h = (
  us,
  record {
    block = refl;
    pool = b.pool ∙ ap some (sym h.1);
    room = omega (arith, b.room, h.1);
    used = b.used;
  },
  e,
  h.0,
)

fill-CopyOf :
    (from : ValueSet) (vs : List Value) (made : Option ValueSet × Memory)
    → IsBlock from vs
    → ((s : ValueSet)
        → made.0 ≡ some s
        → (s.size ≡ from.size) × (from.size ≤ 128) × (k : ℕ) × IsBlock s (replicate k zero_value))
    → CopyOf from vs (fill from.size vs made)
unfolding fill
fill-CopyOf from vs (none, m) b made = tt
fill-CopyOf from vs (some s, m) b made =
    let (same, small, k, zeros) = made s refl in
    let ts = replicate k zero_value in
    simp zeros.block (
      keep_values-CopyOf from s vs ts (copy_values from.size vs ts m) zeros same (
        copy_values-CopiedUpTo from.size vs ts m b.room (omega (arith, zeros.room))
          (All-replicate k)))

-- Copying a set is never undefined: it gives NULL, or a set of the same size in a block with room
-- for it, in which each of the values in use is equal to the source's, or empty where the source's
-- is.
pub new_copy-IsBlock :
    (from : ValueSet) (vs : List Value) (m : Memory)
    → IsBlock from vs
    → CopyOf from vs (new_copy (some from) m)
unfolding new_copy
new_copy-IsBlock from vs m b =
    simp b.block (fill-CopyOf from vs (new from.size m) b (new-IsBlock from.size m).0)
