-- ===== src/Value/Blocks.antt =====
-- Value sets of src/libdbo_value.c: every index below the size lies inside the block, and a copy
-- holds what the source holds.
use dbo.Prelude.{
  ℕ, zero, suc, ◌≤◌, ◌<◌, ◌≡◌, refl, ◌≢◌, inl, inr, Option, none, some, List, [], ◌∷◌, done, arith,
  true, false, length, Bool, ◌||◌, ◌&&◌, if◌then◌else◌, get_elem?, ap, sym, ◌∙◌, replicate,
  length-replicate, Bool-cases, ◌==◌, ltb,
}
use dbo.Prelude.Text.{Memory}
use dbo.Value.{Value, zero_value}
use dbo.Value.Sets.{ValueSet, pool_to_allocate, pool_to_delete, mark_empty, new_values, new, at}

-- A set with a block of its pool that has room for its size.
pub record IsBlock (s : ValueSet) (vs : List Value) : Type 0 where
  pub block : s.values ≡ some vs
  pub pool : pool_to_delete s.size ≡ some (length vs)
  pub room : s.size ≤ length vs
  pub used : 0 < s.size

mark_empty-replicate : (n k : ℕ) → mark_empty n (replicate k zero_value) ≡ replicate k zero_value
unfolding mark_empty
mark_empty-replicate zero k = refl
mark_empty-replicate (suc n) zero = refl
mark_empty-replicate (suc n) (suc k) = ap (◌∷◌ zero_value) (mark_empty-replicate n k)

get_elem?-lt : (vs : List Value) (i : ℕ) → i < length vs → (v : Value) × (get_elem? vs i ≡ some v)
get_elem?-lt [] i h = elim h [ ]
get_elem?-lt (v ∷ vs) zero h = (v, refl)
get_elem?-lt (v ∷ vs) (suc i) h = get_elem?-lt vs i (omega arith)

-- How many values a block of a pool holds.
abbrev objects : Option ℕ → ℕ
objects none = 0
objects (some k) = k

pool_lem :
    (n : ℕ)
    → 0 < n
    → n ≤ 128
    → (k : ℕ) × (pool_to_allocate n ≡ some k) × (pool_to_delete n ≡ some k) × (n ≤ k)
unfolding pool_to_allocate pool_to_delete
pool_lem n h k = (objects (pool_to_allocate n), ground arith, ground arith, ground arith)

abbrev fresh : ℕ → ValueSet
fresh n = record {
  values = some (mark_empty n (replicate (objects (pool_to_allocate n)) zero_value));
  size = n;
}

new_out_of_range : (n : ℕ) (m : Memory) → (n == 0 || ltb 128 n) ≡ true → (new n m).0 ≡ none
unfolding new
new_out_of_range n m h = rw (h, new)

new_in_range :
    (n : ℕ) (b c : Bool) (m : Memory)
    → (n == 0 || ltb 128 n) ≡ false
    → (new n (b ∷ c ∷ m)).0 ≡ (if b && c then some (fresh n) else none)
unfolding new new_values
new_in_range n true true m h =
    let p = pool_lem n (ground arith) (ground arith) in rw (h, new) (ground (arith, p))
new_in_range n true false m h =
    let p = pool_lem n (ground arith) (ground arith) in rw (h, new) (ground (arith, p))
new_in_range n false c m h = rw (h, new)

new_short :
    (n : ℕ) (b : Bool)
    → (n == 0 || ltb 128 n) ≡ false
    → ((new n []).0 ≡ none) × ((new n (b ∷ [])).0 ≡ none)
unfolding new new_values
new_short n true h =
    let p = pool_lem n (ground arith) (ground arith) in rw (h, new) (refl, ground (arith, p))
new_short n false h = rw (h, new) (refl, refl)

new_made :
    (n : ℕ) (m : Memory) (s : ValueSet)
    → (n == 0 || ltb 128 n) ≡ false
    → (new n m).0 ≡ some s
    → s ≡ fresh n
new_made n [] s r h = absurd (cc ((new_short n true r).0))
new_made n (b ∷ []) s r h = absurd (cc ((new_short n b r).1))
new_made n (b ∷ c ∷ m) s r h = ground (arith, new_in_range n b c m r)

fresh-IsBlock : (n : ℕ) → 0 < n → n ≤ 128 → (k : ℕ) × IsBlock (fresh n) (replicate k zero_value)
fresh-IsBlock n h k =
    let (c, taken, given, room) = pool_lem n h k in
    (
      c,
      record {
        block = ap some (ground (arith, mark_empty-replicate n c));
        pool = given ∙ ap some (sym (length-replicate c zero_value));
        room = omega (arith, length-replicate c zero_value);
        used = h;
      },
    )

-- A new set is NULL or has the size that was asked for, between 1 and 128, in a zeroed block with
-- room for it that comes from the pool which freeing gives it back to; and it is not NULL where the
-- size is in that range and the two allocations succeed.
pub new-IsBlock :
    (n : ℕ) (m : Memory)
    → (((s : ValueSet)
          → (new n m).0 ≡ some s
          → (s.size ≡ n) × (n ≤ 128) × (k : ℕ) × IsBlock s (replicate k zero_value))
        × (0 < n → n ≤ 128 → (new n (true ∷ true ∷ m)).0 ≢ none))
unfolding new new_values
new-IsBlock n m = (
  λ s h. elim (Bool-cases (n == 0 || ltb 128 n)) [
    | inl out ↦ absurd (cc (new_out_of_range n m out))
    | inr r ↦
        let (k, b) = fresh-IsBlock n (ground arith) (ground arith) in
        rw (new_made n m s r h) (refl, ground arith, k, b)
  ],
  λ h k e. cc (new_in_range n true true m (ground arith)),
)

-- On a set with such a block libdbo_value_set_at and libdbo_value_set_get never read past the
-- block: below the size they give the value there, and from the size on NULL.
pub at-IsBlock :
    (s : ValueSet) (vs : List Value) (i : ℕ)
    → IsBlock s vs
    → ((i < s.size → (v : Value) × (get_elem? vs i ≡ some v) × (at (some s) i ≡ done (some v)))
        × (s.size ≤ i → at (some s) i ≡ done none))
unfolding at
at-IsBlock s vs i b = (
  λ h. let (v, e) = get_elem?-lt vs i (omega (arith, b.room)) in (v, e, ground arith),
  λ h. ground arith,
)
