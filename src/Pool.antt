-- ===== src/Pool.antt =====
-- src/libdbo_mm.c: the pools from which the library allocates its structures, without
-- USE_LIBDBO_MM_CHECKS. The chain of free objects from `next`, and that of the blocks from `block`,
-- are lists of their addresses; what malloc, sysconf and the lock answer is an argument, `System`.
pub mod Bounds
pub mod Objects
pub mod Ownership
mod Examples
use dbo.Prelude.{
  ℕ, zero, suc, ◌+◌, ◌-◌, ◌*◌, ◌/◌, ◌%◌, ◌^◌, Bool, true, false, not, ◌&&◌, Option, none, some,
  List, [], ◌∷◌, Status, ok, error_unknown, if◌then◌else◌, ltb, ◌==◌,
}
use dbo.Prelude.Int.{ℤ, pos, ◌<ℤ◌, pos_part}
use dbo.Chain.{Ptr}

-- struct libdbo_mm, without the lock
pub record Pool : Type 0 where
  pub block : List Ptr
  pub next : List Ptr
  pub size : ℕ
  pub num_objects : ℕ
  pub block_size : ℕ
  pub total_allocs : ℕ
  pub current_allocs : ℕ

-- LIBDBO_MM_DEFAULT_NUM_OBJECTS
abbrev pub default_num_objects : ℕ
default_num_objects = 256

-- LIBDBO_MM_T_STATIC_NEW
abbrev pub static_new : ℕ → Pool
static_new size = record {
  block = [];
  next = [];
  size = size;
  num_objects = default_num_objects;
  block_size = 0;
  total_allocs = 0;
  current_allocs = 0;
}

-- Whether `__malloc` and `__free` are set; with both, the pools are passed by.
pub record Hooks : Type 0 where
  pub malloc : Bool
  pub free : Bool

-- libdbo_mm_set_malloc, of a function or NULL
unfoldable pub set_malloc : Bool → Hooks → Status × Hooks
set_malloc given h =
    if not given
    then (error_unknown, h)
    else if h.malloc
    then (error_unknown, h)
    else (ok, record h { malloc = true })

-- libdbo_mm_set_free
unfoldable pub set_free : Bool → Hooks → Status × Hooks
set_free given h =
    if not given
    then (error_unknown, h)
    else if h.free
    then (error_unknown, h)
    else (ok, record h { free = true })

-- What the system answers: sysconf(_SC_PAGESIZE), whether pthread_mutex_lock succeeds, malloc by
-- size, and `__malloc` by size.
pub record System : Type 0 where
  pub sysconf : ℤ
  pub locks : Bool
  pub malloc : ℕ → Option Ptr
  pub hook : ℕ → Option Ptr

-- libdbo_mm_pagesize, with LIBDBO_MM_DEFAULT_PAGESIZE
unfoldable pub pagesize : ℤ → ℕ
pagesize n = if pos 0 <ℤ n then pos_part n else 4096

-- sizeof(void*)
abbrev pub word : ℕ
word = 8

-- The computation of `alloc->block_size` in libdbo_mm_new, on size_t of 64 bits.
unfoldable pub block_size_of : ℕ → ℕ → ℕ → ℕ
block_size_of page size num =
    if ltb ((page - word) / size) num
    then ((((size * num) % 2 ^ 64 + word) % 2 ^ 64 / page + 1) * page) % 2 ^ 64
    else page

-- The loop that puts the objects of a new block on the free list, from an address on.
unfoldable pub push : ℕ → Ptr → ℕ → List Ptr → List Ptr
push zero p size next = next
push (suc n) p size next = push n (p + size) size (p ∷ next)

-- The pool with its sizes settled, as libdbo_mm_new has it when it allocates a block.
unfoldable pub settle : ℕ → Pool → Pool
unfolding block_size_of
settle page a =
    let size = if ltb a.size word then word else a.size in
    record a {
      size = size;
      block_size =
          if a.block_size == 0 then block_size_of page size a.num_objects else a.block_size;
    }

-- How many objects libdbo_mm_new makes of a block.
abbrev pub objects_of : Pool → ℕ
objects_of a = (a.block_size - word) / a.size

-- A new block at an address, with its objects on the free list.
unfoldable pub add_block : Pool → Ptr → Pool
unfolding push
add_block a b = record a {
  block = b ∷ a.block;
  next = push (objects_of a) (b + word) a.size a.next;
  total_allocs = (a.total_allocs + objects_of a) % 2 ^ 64;
}

-- `if ((ptr = alloc->next)) …`: the first free object.
unfoldable pub pop : Pool → Option Ptr × Pool
pop a = elim a.next [
  | [] ↦ (none, a)
  | p ∷ rest ↦ (some p, record a { next = rest; current_allocs = (a.current_allocs + 1) % 2 ^ 64 })
]

-- libdbo_mm_new
unfoldable pub new : System → Hooks → Option Pool → Option Ptr × Option Pool
unfolding pagesize settle add_block pop
new sys h none = (none, none)
new sys h (some a) =
    if h.malloc && h.free
    then (sys.hook a.size, some a)
    else if not sys.locks
    then (none, some a)
    else elim a.next [
      | p ∷ rest ↦ let r = pop a in (r.0, some (r.1))
      | [] ↦
          let settled = settle (pagesize sys.sysconf) a in
          elim (sys.malloc settled.block_size) [
            | none ↦ (none, some settled)
            | some b ↦ let r = pop (add_block settled b) in (r.0, some (r.1))
          ]
    ]

-- All blocks are freed.
abbrev pub released : Pool → Pool
released a = record a { block = []; next = []; total_allocs = 0; current_allocs = 0 }

-- Whether there is more than one block.
abbrev pub has_blocks : List Ptr → Bool
has_blocks (b ∷ c ∷ bs) = true
has_blocks _ = false

-- A decrement of a size_t.
abbrev pub less_one : ℕ → ℕ
less_one n = if n == 0 then 2 ^ 64 - 1 else n - 1

-- libdbo_mm_delete
unfoldable pub delete : System → Hooks → Option Pool → Option Ptr → Option Pool
delete sys h none p = none
delete sys h (some a) none = some a
delete sys h (some a) (some p) =
    let back = record a { next = p ∷ a.next; current_allocs = less_one a.current_allocs } in
    if h.malloc && h.free
    then some a
    else if not sys.locks
    then some a
    else if back.current_allocs == 0 && has_blocks back.block
    then some (released back)
    else some back

-- libdbo_mm_release
unfoldable pub release : System → Hooks → Option Pool → Option Pool
release sys h none = none
release sys h (some a) =
    if h.malloc && h.free then some a else if not sys.locks then some a else some (released a)
