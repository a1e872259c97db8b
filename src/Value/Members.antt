-- ===== src/Value/Members.antt =====
-- The enumeration functions of src/libdbo_value.c against membership in the set.
use dbo.Prelude.{
  ◌≡◌, ◌≢◌, refl, ◌⊎◌, Option, none, some, [], ◌∷◌, ◌++◌, Status, ok, error_unknown, Outcome, done,
  arith, true, All, inl, inr, ap, Bool-cases, not, is_some, if◌then◌else◌, ◌>>=◌,
}
use dbo.Prelude.Int.{ℤ, ◌==ℤ◌, ==ℤ_iff}
use dbo.Prelude.Text.{Text, same_text, same_text_refl, eq_of_same_text}
use mathlib.Core.Path.{subst}
use dbo.ValueType.{ValueType, EnumItem, EnumSet, is}
use dbo.Value.{Value}
use dbo.Value.Storage.{Datum, datum, IsValue}
use dbo.Value.Enum.{
  find_value, find_text, find_item, find_named, keep_item, from_enum_value, from_enum_text,
  to_enum_value, to_enum_text,
}

-- A search of a set for the first entry that satisfies a condition.
abbrev pub IsFirst : (EnumItem → Type 0) → EnumSet → Option EnumItem → Type 0
IsFirst P es none = All (λ e. ¬ P e) es
IsFirst P es (some found) =
    (before : EnumSet) × (after : EnumSet) × (es ≡ before ++ found ∷ after)
    × All (λ e. ¬ P e) before
    × P found

IsFirst-cons :
    (P : EnumItem → Type 0) (e : EnumItem) (es : EnumSet) (r : Option EnumItem)
    → ¬ P e
    → IsFirst P es r
    → IsFirst P (e ∷ es) r
IsFirst-cons P e es none out h = (out, h)
IsFirst-cons P e es (some found) out h = (e ∷ h.0, h.1, ap (◌∷◌ e) h.2, (out, h.3), h.4)

find_value-IsFirst : (x : ℤ) (es : EnumSet) → IsFirst (λ e. e.value ≡ x) es (find_value x es)
unfolding find_value
find_value-IsFirst x [] = tt
find_value-IsFirst x (e ∷ es) = elim (Bool-cases (e.value ==ℤ x)) [
  | inl hit ↦ rw hit ([], es, refl, tt, (==ℤ_iff e.value x).0 hit)
  | inr miss ↦ rw miss (
      IsFirst-cons (λ e'. e'.value ≡ x) e es _ (ground (arith, ==ℤ_iff e.value x))
        (find_value-IsFirst x es))
]

find_text-IsFirst : (t : Text) (es : EnumSet) → IsFirst (λ e. e.text ≡ t) es (find_text t es)
unfolding find_text
find_text-IsFirst t [] = tt
find_text-IsFirst t (e ∷ es) = elim (Bool-cases (same_text e.text t)) [
  | inl hit ↦ rw hit ([], es, refl, tt, eq_of_same_text e.text t hit)
  | inr miss ↦ rw miss (
      IsFirst-cons (λ e'. e'.text ≡ t) e es _
        (λ h. cc (miss, ap (λ s. same_text s t) h, same_text_refl t)) (find_text-IsFirst t es))
]

-- What a setter of an enumeration value does.
abbrev pub Chosen : (EnumItem → Type 0) → EnumSet → Value → Status × Option Value → Type 0
Chosen P es v (s, none) = ⊥
Chosen P es v (ok, some w) =
    (e : EnumItem) × IsFirst P es (some e)
    × (v.type ≡ ValueType.empty)
    × (datum w ≡ some (Datum.enum e.value e.text))
    × IsValue w
Chosen P es v (error_unknown, some w) = ((v.type ≢ ValueType.empty) ⊎ IsFirst P es none) × (w ≡ v)

keep_first :
    (P : EnumItem → Type 0) (es : EnumSet) (v : Value) (r : Option EnumItem)
    → v.type ≡ ValueType.empty
    → IsValue v
    → IsFirst P es r
    → Chosen P es v (keep_item v r)
unfolding keep_item
keep_first P es v none t h first = (inr first, refl)
keep_first P es v (some e) t h first = (e, first, t, refl, ground arith)

keep_or_refuse :
    (P : EnumItem → Type 0) (es : EnumSet) (v : Value) (r : Option EnumItem)
    → IsValue v
    → IsFirst P es r
    → Chosen P es v
        (if not (is v.type ValueType.empty) then (error_unknown, some v) else keep_item v r)
keep_or_refuse P es v r h first = elim (Bool-cases (is v.type ValueType.empty)) [
  | inl empty ↦ rw empty (keep_first P es v r (ground (arith, empty)) h first)
  | inr taken ↦ rw taken (inl (λ k. ground (arith, taken, k)), refl)
]

-- Setting a value that the module made from a number or from a text and an enumeration set: the
-- answer is ok exactly when the value was empty and the set has an entry with that number, or with
-- that text; then the value holds the number and text of the first such entry. Otherwise the value
-- is unchanged.
pub from_enum_lem :
    (v : Value) (x : ℤ) (t : Text) (es : EnumSet)
    → IsValue v
    → (Chosen (λ e. e.value ≡ x) es v (from_enum_value (some v) x (some es))
        × Chosen (λ e. e.text ≡ t) es v (from_enum_text (some v) (some t) (some es)))
unfolding from_enum_value from_enum_text
from_enum_lem v x t es h = (
  keep_or_refuse _ es v (find_value x es) h (find_value-IsFirst x es),
  keep_or_refuse _ es v (find_text t es) h (find_text-IsFirst t es),
)

done_cases :
    (o : Option EnumItem)
    → (◌≡◌ {A = Outcome (Option EnumItem)} (done o) (done none))
      ⊎ ((e : EnumItem) × (◌≡◌ {A = Outcome (Option EnumItem)} (done o) (done (some e))))
done_cases none = inl refl
done_cases (some e) = inr (e, refl)

find_value-some : (x : ℤ) (es : EnumSet) (e : EnumItem) → find_value x es ≡ some e → e.value ≡ x
find_value-some x es e h =
    let first : IsFirst (λ e'. e'.value ≡ x) es (some e) =
      subst (IsFirst (λ e'. e'.value ≡ x) es) h (find_value-IsFirst x es) in
    first.4

find_text-some : (t : Text) (es : EnumSet) (e : EnumItem) → find_text t es ≡ some e → e.text ≡ t
find_text-some t es e h =
    let first : IsFirst (λ e'. e'.text ≡ t) es (some e) =
      subst (IsFirst (λ e'. e'.text ≡ t) es) h (find_text-IsFirst t es) in
    first.4

-- A set where the search by text hits also has an entry with that entry's number.
find_value_of_text :
    (t : Text) (es : EnumSet) (e : EnumItem)
    → find_text t es ≡ some e
    → (e' : EnumItem) × (find_value e.value es ≡ some e')
unfolding find_text find_value
find_value_of_text t [] e h = absurd (cc)
find_value_of_text t (d ∷ es) e h = elim (Bool-cases (d.value ==ℤ e.value)) [
  | inl hit ↦ (d, rw hit)
  | inr miss ↦ rw miss (find_value_of_text t es e (ground (arith, ==ℤ_iff d.value e.value)))
]

-- Inversion of a setter's answer ok.
keep_item-ok :
    (v w : Value) (r : Option EnumItem)
    → keep_item v r ≡ (ok, some w)
    → (e : EnumItem) × (r ≡ some e)
      × (w.type ≡ ValueType.enum)
      × (w.enum_value ≡ e.value)
      × (w.enum_text ≡ some e.text)
unfolding keep_item
keep_item-ok v w none h = absurd (cc)
keep_item-ok v w (some e) h = (e, refl, ground arith, ground arith, ground arith)

from_enum-ok :
    (v w : Value) (r : Option EnumItem)
    → (if not (is v.type ValueType.empty) then (error_unknown, some v) else keep_item v r)
      ≡ (ok, some w)
    → keep_item v r ≡ (ok, some w)
from_enum-ok v w r h = ground arith

find_item-enum :
    (w : Value) (es : EnumSet)
    → w.type ≡ ValueType.enum
    → find_item w es ≡ done (find_value w.enum_value es)
unfolding find_item
find_item-enum w es h = simp h

-- A value set from a number and a set converts back to that number and to the text of the first
-- entry with it; a value set from a text and a set converts back to that text, in the same set.
pub to_enum-from_enum :
    (v w : Value) (x old : ℤ) (t : Text) (es : EnumSet)
    → ((from_enum_value (some v) x (some es) ≡ (ok, some w)
          → (to_enum_value (some w) (some old) (some es) ≡ done (ok, some x))
            × ((e : EnumItem) × (find_value x es ≡ some e)
                × (to_enum_text (some w) (some none) (some es) ≡ done (ok, some (some e.text)))))
        × (from_enum_text (some v) (some t) (some es) ≡ (ok, some w)
            → to_enum_text (some w) (some none) (some es) ≡ done (ok, some (some t))))
unfolding from_enum_value from_enum_text to_enum_value to_enum_text
to_enum-from_enum v w x old t es = (
  λ h.
      let (e, found, type, number, name) =
        keep_item-ok v w (find_value x es) (from_enum-ok v w _ h) in
      let item = find_item-enum w es type in
      let same = find_value-some x es e found in
      (ground (arith, item), (e, found, ground (arith, item))),
  λ h.
      let (e, found, type, number, name) =
        keep_item-ok v w (find_text t es) (from_enum-ok v w _ h) in
      let item = find_item-enum w es type in
      let same = find_text-some t es e found in
      let hit = find_value_of_text t es e found in ground (arith, item),
)

find_named_cases :
    (t : Option Text) (es : EnumSet)
    → is_some t ≡ true
    → (find_named t es ≡ done none) ⊎ ((e : EnumItem) × (find_named t es ≡ done (some e)))
unfolding find_named
find_named_cases t [] h = inl refl
find_named_cases none (e ∷ es) h = absurd (cc)
find_named_cases (some t) (e ∷ es) h = done_cases (find_text t (e ∷ es))

-- The search of a value with a number or a text is defined.
find_item_cases :
    (v : Value) (es : EnumSet)
    → (v.type ≡ ValueType.int32) ⊎ (v.type ≡ ValueType.text)
    → IsValue v
    → (find_item v es ≡ done none) ⊎ ((e : EnumItem) × (find_item v es ≡ done (some e)))
unfolding find_item
find_item_cases v es (inl t) h = simp t (done_cases (find_value v.int32 es))
find_item_cases v es (inr t) h = simp t (find_named_cases v.text es (ground arith))

-- Converting a 32-bit integer or a text to the text of an enumeration, where the value was made
-- with no enumeration text of its own, as those setters leave it: the answer is the same status as
-- for the conversion to the number, ok included, and the text that is handed out is NULL.
pub to_enum_text_null :
    (v : Value) (old : ℤ) (es : EnumSet)
    → (v.type ≡ ValueType.int32) ⊎ (v.type ≡ ValueType.text)
    → IsValue v
    → v.enum_text ≡ none
    → (s : Status) × (x : ℤ) × (to_enum_value (some v) (some old) (some es) ≡ done (s, some x))
      × (to_enum_text (some v) (some none) (some es) ≡ done (s, some none))
unfolding to_enum_value to_enum_text
to_enum_text_null v old es kind h bare = elim (find_item_cases v es kind h) [
  | inl e ↦ (error_unknown, old, rw (e, ◌>>=◌), rw (e, ◌>>=◌))
  | inr (i, e) ↦ (ok, i.value, rw (e, ◌>>=◌), rw (e, ◌>>=◌) (ground arith))
]
