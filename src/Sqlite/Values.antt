-- ===== src/Sqlite/Values.antt =====
-- What create and update of src/libdbo_backend_sqlite.c bind for the values of a value set.
use dbo.Prelude.{
  ℕ, zero, suc, ◌+◌, ◌≡◌, refl, ◌++◌, none, some, List, [], ◌∷◌, length, get_elem?, take, drop,
  arith, Option-cases, inl, inr, ap, ◌∙◌,
}
use mathlib.Core.List.{append_assoc, append-nil}
use dbo.Prelude.Int.{to_signed32, to_signed64}
use dbo.Prelude.Run.{returns, >>=-eq-returns}
use dbo.ValueType.{ValueType}
use dbo.Value.{Value, type_of, read_text}
use dbo.Value.Convert.{to_int32, to_uint32, to_int64, to_uint64}
use dbo.Value.Enum.{enum_value_of}
use dbo.Value.Sets
use dbo.Value.Sets.{ValueSet}
use dbo.Sqlite.Bind.{
  Bound, int, int64, text, Binds, Accepts, put, bind_value, given_value, bind_values,
}

-- What is bound for a value: an unsigned integer as the signed one with its bits, an enumeration
-- value as its number.
abbrev pub bound_at : ValueType → Value → Bound
bound_at ValueType.int32 v = int v.int32
bound_at ValueType.uint32 v = int (to_signed32 v.uint32)
bound_at ValueType.int64 v = int64 v.int64
bound_at ValueType.uint64 v = int64 (to_signed64 v.uint64)
bound_at ValueType.enum v = int v.enum_value
bound_at _ v = text v.text

abbrev pub bounds : List Value → List Bound
bounds [] = []
bounds (v ∷ vs) = bound_at v.type v ∷ bounds vs

-- Bound values at consecutive positions.
abbrev pub numbered : ℕ → List Bound → List (ℕ × Bound)
numbered k [] = []
numbered k (x ∷ xs) = (k, x) ∷ numbered (k + 1) xs

abbrev pub after : Binds → List Bound → Binds
after s xs = record { bind = s.bind + length xs; bound = s.bound ++ numbered s.bind xs }

pub put-after :
    (accepts : Accepts) (x : Bound) (s s' : Binds)
    → put accepts x s ≡ returns s'
    → s' ≡ after s (x ∷ [])
unfolding put
put-after accepts x s s' h = ground arith

pub bind_value-after :
    (accepts : Accepts) (t : ValueType) (v : Value) (s s' : Binds)
    → t ≡ v.type
    → bind_value accepts t v s ≡ returns s'
    → s' ≡ after s (bound_at t v ∷ [])
unfolding bind_value to_int32 to_uint32 to_int64 to_uint64 enum_value_of read_text
bind_value-after accepts ValueType.int32 v s s' e h =
    put-after accepts _ s s' (ground (arith, e, h))
bind_value-after accepts ValueType.uint32 v s s' e h =
    put-after accepts _ s s' (ground (arith, e, h))
bind_value-after accepts ValueType.int64 v s s' e h =
    put-after accepts _ s s' (ground (arith, e, h))
bind_value-after accepts ValueType.uint64 v s s' e h =
    put-after accepts _ s s' (ground (arith, e, h))
bind_value-after accepts ValueType.text v s s' e h = put-after accepts _ s s' (ground (arith, e, h))
bind_value-after accepts ValueType.enum v s s' e h = put-after accepts _ s s' (ground (arith, e, h))
bind_value-after accepts _ v s s' e h = absurd (ground (arith, h))

abbrev pub values_of : ValueSet → List Value
values_of set = elim set.values [ none ↦ [] | some vs ↦ vs ]

pub after-nil : (s : Binds) → s ≡ after s []
after-nil s = ground (arith, append-nil s.bound)

after-cons :
    (s : Binds) (x : Bound) (xs : List Bound) → after (after s (x ∷ [])) xs ≡ after s (x ∷ xs)
after-cons s x xs =
    ground (arith, append_assoc s.bound ((s.bind, x) ∷ []) (numbered (s.bind + 1) xs))

drop-get_elem? :
    (vs : List Value) (i : ℕ) (v : Value)
    → get_elem? vs i ≡ some v
    → drop i vs ≡ v ∷ drop (i + 1) vs
drop-get_elem? [] i v h = absurd (ground (arith, h))
drop-get_elem? (w ∷ vs) zero v h = ground (arith, h)
drop-get_elem? (w ∷ vs) (suc i) v h =
    drop-get_elem? vs i v h ∙ ap (λ k. v ∷ drop k (w ∷ vs)) (index i)
  where
    index : (k : ℕ) → suc (k + 1) ≡ suc k + 1
    index k = omega arith

given_value-drop :
    (set : ValueSet) (i : ℕ) (v : Value)
    → given_value (Sets.at (some set) i) ≡ returns v
    → drop i (values_of set) ≡ v ∷ drop (i + 1) (values_of set)
unfolding Sets.at
given_value-drop set i v h = elim (Option-cases set.values) [
  | inl null ↦ absurd (ground (arith, null, h))
  | inr (vs, there) ↦ elim (Option-cases (get_elem? vs i)) [
    | inl out ↦ absurd (ground (arith, there, out, h))
    | inr (w, inside) ↦ ground (arith, there, inside, h, drop-get_elem? vs i w inside)
  ]
]

-- Binding so many values of a set from an index on, where it returns.
pub bind_values-after :
    (rounds : ℕ) (accepts : Accepts) (set : ValueSet) (i : ℕ) (s s' : Binds)
    → bind_values rounds accepts set i s ≡ returns s'
    → (s' ≡ after s (bounds (take rounds (drop i (values_of set)))))
      × (length (bounds (take rounds (drop i (values_of set)))) ≡ rounds)
unfolding bind_values type_of
bind_values-after zero accepts set i s s' h = (ground (arith, after-nil s, h), refl)
bind_values-after (suc rounds) accepts set i s s' h =
    let (v, got, more) = >>=-eq-returns (given_value (Sets.at (some set) i)) _ h in
    let (t, one, rest) = >>=-eq-returns (bind_value accepts v.type v s) _ more in
    let e = bind_value-after accepts v.type v s t refl one in
    let d = given_value-drop set i v got in
    let (last, count) = bind_values-after rounds accepts set (i + 1) t s' rest in
    rw d (
      last
          ∙ ap (λ b. after b (bounds (take rounds (drop (i + 1) (values_of set))))) e
          ∙ after-cons s (bound_at v.type v) _,
      ap suc count,
    )
