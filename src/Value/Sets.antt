-- ===== src/Value/Sets.antt =====
-- src/libdbo_value.c, second part: value sets. The block of a set comes from the pool for its size
-- and holds as many values as that pool's objects do; `size` of them are in use.
use dbo.Prelude.{
  ℕ, zero, suc, ◌||◌, not, Option, none, some, List, [], ◌∷◌, Status, ok, error_unknown, Outcome,
  done, undefined, ltb, leb, ◌==◌, if◌then◌else◌, ◌>>=◌, get_elem?, set, replicate,
}
use dbo.Prelude.Text.{Memory, allocate}
use dbo.ValueType.{ValueType, is}
use dbo.Value.{Value, zero_value, type_of, copy}

-- struct libdbo_value_set
pub record ValueSet : Type 0 where
  pub values : Option (List Value)
  pub size : ℕ

-- The ladder of pools in libdbo_value_set_new: the pool's objects hold that many values.
unfoldable pub pool_to_allocate : ℕ → Option ℕ
pool_to_allocate size =
    if leb size 4
    then some 4
    else if leb size 8
    then some 8
    else if leb size 12
    then some 12
    else if leb size 16
    then some 16
    else if leb size 24
    then some 24
    else if leb size 32
    then some 32
    else if leb size 64
    then some 64
    else if leb size 128
    then some 128
    else none

-- The ladder of pools in libdbo_value_set_free.
unfoldable pub pool_to_delete : ℕ → Option ℕ
pool_to_delete size =
    if leb size 4
    then some 4
    else if leb size 8
    then some 8
    else if leb size 12
    then some 12
    else if leb size 16
    then some 16
    else if leb size 24
    then some 24
    else if leb size 32
    then some 32
    else if leb size 64
    then some 64
    else if leb size 128
    then some 128
    else none

-- `for (i=0; i<size; i++) values[i].type = LIBDBO_TYPE_EMPTY`
unfoldable pub mark_empty : ℕ → List Value → List Value
mark_empty zero vs = vs
mark_empty (suc n) [] = []
mark_empty (suc n) (v ∷ vs) = record v { type = ValueType.empty } ∷ mark_empty n vs

-- The block from a pool, zeroed, or NULL.
unfoldable pub new_values : Option ℕ → Memory → Option (List Value) × Memory
new_values none m = (none, m)
new_values (some objects) m =
    let (got, m') = allocate m in ((if got then some (replicate objects zero_value) else none), m')

-- libdbo_value_set_new
unfoldable pub new : ℕ → Memory → Option ValueSet × Memory
unfolding pool_to_allocate mark_empty new_values
new size m =
    if size == 0 || ltb 128 size
    then (none, m)
    else let (got, m') = allocate m in
      let (block, m'') = new_values (pool_to_allocate size) m' in
      if not got then (none, m') else elim block [
        | none ↦ (none, m'')
        | some vs ↦ (some (record { values = some (mark_empty size vs); size = size }), m'')
      ]

-- One round of the copying loop, `rest` being the rounds that follow.
abbrev pub prepend :
    Value → Outcome (Option (List Value) × Memory) → Outcome (Option (List Value) × Memory)
prepend v undefined = undefined
prepend v (done (none, m)) = done (none, m)
prepend v (done (some vs, m)) = done (some (v ∷ vs), m)

unfoldable pub copied :
    Status × Option Value × Memory
    → (Memory → Outcome (Option (List Value) × Memory))
    → Outcome (Option (List Value) × Memory)
copied (ok, some v, m) rest = prepend v (rest m)
copied (ok, none, m) rest = undefined
copied (error_unknown, v, m) rest = done (none, m)

-- The loop of libdbo_value_set_new_copy over the values of the source and of the new set; a read or
-- a write past a block is undefined. `none` is an error.
unfoldable pub copy_values :
    ℕ → List Value → List Value → Memory → Outcome (Option (List Value) × Memory)
unfolding copied
copy_values zero fs ts m = done (some ts, m)
copy_values (suc n) [] ts m = undefined
copy_values (suc n) (f ∷ fs) [] m = undefined
copy_values (suc n) (f ∷ fs) (t ∷ ts) m =
    let rest = copy_values n fs ts in
    if is (type_of (some f)) ValueType.empty
    then copied (ok, some t, m) rest
    else copied (copy (some t) (some f) m) rest

-- The set with the block that the loop left, or NULL.
abbrev pub keep_values :
    ValueSet → Outcome (Option (List Value) × Memory) → Outcome (Option ValueSet × Memory)
keep_values s undefined = undefined
keep_values s (done (none, m)) = done (none, m)
keep_values s (done (some vs, m)) = done (some (record s { values = some vs }), m)

-- What libdbo_value_set_new_copy does with the new set.
unfoldable pub fill : ℕ → List Value → Option ValueSet × Memory → Outcome (Option ValueSet × Memory)
fill size fs (none, m) = done (none, m)
fill size fs (some s, m) = elim s.values [
  | none ↦ undefined
  | some ts ↦ keep_values s (copy_values size fs ts m)
]

-- libdbo_value_set_new_copy
unfoldable pub new_copy : Option ValueSet → Memory → Outcome (Option ValueSet × Memory)
unfolding fill
new_copy none m = done (none, m)
new_copy (some from) m = elim from.values [
  | none ↦ done (none, m)
  | some fs ↦ fill from.size fs (new from.size m)
]

-- libdbo_value_set_size
unfoldable pub size_of : Option ValueSet → ℕ
size_of none = 0
size_of (some s) = s.size

-- libdbo_value_set_at, libdbo_value_set_get: the value at an index, or NULL; a read past the block
-- would be undefined.
unfoldable pub at : Option ValueSet → ℕ → Outcome (Option Value)
at none i = done none
at (some s) i = elim s.values [
  | none ↦ done none
  | some vs ↦
      if not (ltb i s.size)
      then done none
      else elim (get_elem? vs i) [ none ↦ undefined | some v ↦ done (some v) ]
]

-- The set after a write through the pointer to its value at an index.
unfoldable pub store_at : Option ValueSet → ℕ → Option Value → Option ValueSet
store_at none i w = none
store_at (some t) i none = some t
store_at (some t) i (some w) =
    some (record t { values = elim t.values [ none ↦ none | some vs ↦ some (set vs i w) ] })

-- A call of a function on the pointer that libdbo_value_set_get returns, and its effect on the set.
unfoldable pub modify_at :
    Option ValueSet
    → ℕ
    → (Option Value → Status × Option Value)
    → Outcome (Status × Option ValueSet)
unfolding at store_at
modify_at s i f = do v ← at s i; let w = f v; done (w.0, store_at s i w.1)
