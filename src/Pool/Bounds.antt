-- ===== src/Pool/Bounds.antt =====
-- The sizes of the blocks of src/libdbo_mm.c.
use dbo.Prelude.{ℕ, ◌≡◌, ◌≤◌, ◌<◌, ◌+◌, ◌-◌, ◌*◌, ◌/◌, ◌%◌, ◌^◌, arith, Bool-cases, inl, inr, ltb}
use native.Mathlib.Nat.{
  lt-div-mul-add, div-mul-le_self, le-div_iff_mul-le, mul_comm, mod-eq_of_lt, add-mul,
}
use dbo.Pool.{Pool, word, block_size_of, settle, objects_of}

-- A number of whole pages that is larger than `t`, by at most a page.
pages_lem :
    (t page : ℕ) → 0 < page → (t < (t / page + 1) * page) × ((t / page + 1) * page ≤ t + page)
pages_lem t page h =
    let over = lt-div-mul-add {a = t} {b = page} h in
    let under = div-mul-le_self t page in
    let split = add-mul (t / page) 1 page in
    (omega (arith, over, split), omega (arith, under, split))

-- A block has room for the objects that are asked for, and for a pointer.
block_size_of-room :
    (page size num : ℕ)
    → word ≤ page
    → 0 < size
    → size * num + word + page < 2 ^ 64
    → (num ≤ (block_size_of page size num - word) / size) × (word ≤ block_size_of page size num)
unfolding block_size_of
block_size_of-room page size num p s small = elim (Bool-cases (ltb ((page - word) / size) num)) [
  | inr few ↦ ground (arith, few, p)
  | inl many ↦
      let (over, under) = pages_lem (size * num + word) page (omega (arith, p)) in
      let whole : ((((size * num) % 2 ^ 64 + word) % 2 ^ 64 / page + 1) * page) % 2 ^ 64
          ≡ ((size * num + word) / page + 1) * page =
        rw
          (
            mod-eq_of_lt {n = size * num} {m = 2 ^ 64} (omega (arith, small)),
            mod-eq_of_lt {n = size * num + word} {m = 2 ^ 64} (omega (arith, small)),
          )
          (mod-eq_of_lt (omega (arith, under, small))) in
      rw (many, whole)
        ((le-div_iff_mul-le s).1 (omega (arith, over, mul_comm size num)), omega (arith, over))
]

-- What a pool whose objects have a size has, where its block is settled for them.
abbrev Room : ℕ → ℕ → ℕ → Type 0
Room num size block =
    (num ≤ (block - word) / size) × (word ≤ size) × ((block - word) / size * size + word ≤ block)

room :
    (page size num : ℕ)
    → word ≤ page
    → word ≤ size
    → size * num + word + page < 2 ^ 64
    → Room num size (block_size_of page size num)
room page size num p s small =
    let (objects, pointer) = block_size_of-room page size num p (omega (arith, s)) small in
    (objects, s, omega (arith, pointer, div-mul-le_self (block_size_of page size num - word) size))

-- A pool that takes its first block: the block has room, behind the pointer to the next block, for
-- at least as many objects as the pool was made for, each with room for a pointer, and no object
-- reaches over the end of the block. The page is not smaller than a pointer, and the sizes are so
-- small that their sum fits into a size_t.
pub settle-room :
    (page : ℕ) (a : Pool)
    → word ≤ page
    → a.block_size ≡ 0
    → (a.size + word) * a.num_objects + word + page < 2 ^ 64
    → (a.num_objects ≤ objects_of (settle page a))
      × (word ≤ (settle page a).size)
      × (objects_of (settle page a) * (settle page a).size + word ≤ (settle page a).block_size)
unfolding settle
settle-room page a p fresh small =
    let split = add-mul a.size word a.num_objects in
    elim (Bool-cases (ltb a.size word)) [
      | inl short ↦ ground (
        arith,
        short,
        fresh,
        room page word a.num_objects p (omega arith) (omega (arith, small, split)),
      )
      | inr long ↦ ground (
        arith,
        long,
        fresh,
        room page a.size a.num_objects p (ground (arith, long)) (omega (arith, small, split)),
      )
    ]
