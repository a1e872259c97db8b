-- ===== src/Sqlite/Rows.antt =====
-- What libdbo_backend_sqlite_next reads from a row for all fields of an object.
use dbo.Prelude.{
  ℕ, suc, zero, ◌+◌, ◌<◌, ◌≡◌, refl, Option, none, some, List, [], ◌∷◌, Status, ok, error_unknown,
  Outcome, done, undefined, arith, ◌∙◌, get_elem?, set, Option-cases, inl, inr,
}
use mathlib.Core.Path.{subst}
use dbo.Prelude.Text.{Memory}
use dbo.ValueType.{ValueType}
use dbo.Value.{Value, set_primary_key}
use dbo.Value.Convert.{from_int32, from_uint32, from_int64, from_uint64, from_text}
use dbo.Value.Storage.{datum}
use dbo.Value.Sets
use dbo.Value.Sets.{ValueSet}
use dbo.Object.{ObjectField}
use dbo.Sqlite.Session.{Row}
use dbo.Sqlite.Values.{values_of}
use dbo.Sqlite.Columns.{read_any, read_column, read_columns}
use dbo.Sqlite.Reading.{column_datum, column_lem}

get_elem?-set :
    (xs : List Value) (i : ℕ) (x w : Value)
    → get_elem? xs i ≡ some x
    → get_elem? (set xs i w) i ≡ some w
get_elem?-set [] i x w h = absurd (ground (arith, h))
get_elem?-set (y ∷ xs) zero x w h = refl
get_elem?-set (y ∷ xs) (suc i) x w h = get_elem?-set xs i x w h

get_elem?-set-other :
    (xs : List Value) (i j : ℕ) (w : Value) → j < i → get_elem? (set xs i w) j ≡ get_elem? xs j
get_elem?-set-other [] i j w h = refl
get_elem?-set-other (y ∷ xs) zero j w h = absurd (omega arith)
get_elem?-set-other (y ∷ xs) (suc i) zero w h = refl
get_elem?-set-other (y ∷ xs) (suc i) (suc j) w h = get_elem?-set-other xs i j w (omega arith)

-- A round of the loop that goes on.
record Round (row : Row) (f : ObjectField) (fs : List ObjectField) (bind : ℕ) (set set' : ValueSet)
    (m m' : Memory) : Type 0 where
  value : Value
  next : ValueSet
  memory : Memory
  means : datum value ≡ column_datum row bind f.type
  here : get_elem? (values_of next) bind ≡ some value
  before : (j : ℕ) → j < bind → get_elem? (values_of next) j ≡ get_elem? (values_of set) j
  rest : read_columns row fs (bind + 1) next memory ≡ done (some set', m')

column_of_none :
    (row : Row) (k : ℕ) (t : ValueType) (m : Memory)
    → (read_column row k t none m).0 ≡ error_unknown
unfolding read_column read_any from_int32 from_uint32 from_int64 from_uint64 from_text
column_of_none row k ValueType.any m = ground arith
column_of_none row k ValueType.revision m = ground arith
column_of_none row k t m = ground arith

column_not_none :
    (row : Row) (k : ℕ) (t : ValueType) (v : Value) (m m' : Memory)
    → read_column row k t (some v) m ≡ (ok, none, m')
    → ⊥
unfolding read_column read_any from_int32 from_uint32 from_int64 from_uint64 from_text
    set_primary_key
column_not_none row k t v m m' h = ground arith

at-get_elem? :
    (s : ValueSet) (i : ℕ) (v : Value)
    → Sets.at (some s) i ≡ done (some v)
    → (vs : List Value) × (s.values ≡ some vs) × (get_elem? vs i ≡ some v)
unfolding Sets.at
at-get_elem? s i v h = elim (Option-cases s.values) [
  | inl null ↦ absurd (ground (arith, null, h))
  | inr (vs, there) ↦ (vs, there, ground (arith, there, h))
]

-- The round of the loop for what stands at the index and what is read into it.
column-Round :
    (row : Row) (f : ObjectField) (fs : List ObjectField) (bind : ℕ) (s s' : ValueSet)
    (m m' : Memory) (v : Value) (r : Status × Option Value × Memory)
    → Sets.at (some s) bind ≡ done (some v)
    → read_column row bind f.type (some v) m ≡ r
    → read_columns row (f ∷ fs) bind s m ≡ done (some s', m')
    → Round row f fs bind s s' m m'
unfolding read_columns Sets.store_at
column-Round row f fs bind s s' m m' v (error_unknown, o, m₂) at e h =
    absurd (ground (arith, at, e, h))
column-Round row f fs bind s s' m m' v (ok, none, m₂) at e h =
    absurd (column_not_none row bind f.type v m m₂ e)
column-Round row f fs bind s s' m m' v (ok, some w, m₂) at e h =
    let (vs, there, inside) = at-get_elem? s bind v at in
    record {
      value = w;
      next = record s { values = some (set vs bind w) };
      memory = m₂;
      means = column_lem row bind f.type v w m m₂ e;
      here = get_elem?-set vs bind v w inside;
      before = λ j less. ground (arith, there, get_elem?-set-other vs bind j w less);
      rest = ground (arith, at, e, h, there);
    }

read_columns-Round :
    (row : Row) (f : ObjectField) (fs : List ObjectField) (bind : ℕ) (s s' : ValueSet)
    (m m' : Memory) (a : Outcome (Option Value))
    → Sets.at (some s) bind ≡ a
    → read_columns row (f ∷ fs) bind s m ≡ done (some s', m')
    → Round row f fs bind s s' m m'
unfolding read_columns
read_columns-Round row f fs bind s s' m m' undefined at h = absurd (ground (arith, at, h))
read_columns-Round row f fs bind s s' m m' (done none) at h =
    absurd (ground (arith, at, h, column_of_none row bind f.type m))
read_columns-Round row f fs bind s s' m m' (done (some v)) at h =
    column-Round row f fs bind s s' m m' v (read_column row bind f.type (some v) m) at refl h

read_columns-before :
    (row : Row) (fs : List ObjectField) (bind : ℕ) (s s' : ValueSet) (m m' : Memory) (j : ℕ)
    → read_columns row fs bind s m ≡ done (some s', m')
    → j < bind
    → get_elem? (values_of s') j ≡ get_elem? (values_of s) j
unfolding read_columns
read_columns-before row [] bind s s' m m' j h less = ground (arith, h)
read_columns-before row (f ∷ fs) bind s s' m m' j h less =
    let round = read_columns-Round row f fs bind s s' m m' (Sets.at (some s) bind) refl h in
    read_columns-before row fs (bind + 1) round.next s' round.memory m' j round.rest
      (omega (arith, less))
    ∙ round.before j less

-- The value at an index holds what the column of that number means for a field.
abbrev pub IsReadAt : Row → ValueSet → ObjectField → ℕ → Type 0
IsReadAt row s f k =
    (w : Value) × (get_elem? (values_of s) k ≡ some w) × (datum w ≡ column_datum row k f.type)

-- Reading a row into a value set from a column on, where it makes a result: the value for each
-- field of the object, counted from that column, holds what its column means for the field's type.
pub read_columns-column_datum :
    (row : Row) (fs : List ObjectField) (bind : ℕ) (s s' : ValueSet) (m m' : Memory) (i : ℕ)
    (f : ObjectField)
    → read_columns row fs bind s m ≡ done (some s', m')
    → get_elem? fs i ≡ some f
    → IsReadAt row s' f (bind + i)
unfolding read_columns
read_columns-column_datum row [] bind s s' m m' i f h e = absurd (ground (arith, e))
read_columns-column_datum row (g ∷ fs) bind s s' m m' zero f h e =
    let round = read_columns-Round row g fs bind s s' m m' (Sets.at (some s) bind) refl h in
    subst (IsReadAt row s' f) (omega arith) (
      round.value,
      read_columns-before row fs (bind + 1) round.next s' round.memory m' bind round.rest
            (omega arith)
          ∙ round.here,
      subst (λ x. datum round.value ≡ column_datum row bind x.type) (same e) round.means,
    )
  where
    same : some g ≡ some f → g ≡ f
    same p = cc
read_columns-column_datum row (g ∷ fs) bind s s' m m' (suc i) f h e =
    let round = read_columns-Round row g fs bind s s' m m' (Sets.at (some s) bind) refl h in
    subst (IsReadAt row s' f) (next_index bind i)
      (read_columns-column_datum row fs (bind + 1) round.next s' round.memory m' i f round.rest e)
  where
    next_index : (a b : ℕ) → a + 1 + b ≡ a + suc b
    next_index a b = omega arith
