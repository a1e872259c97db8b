-- ===== src/Pool/Examples.antt =====
-- The theorems on the pools at a concrete pool.
use dbo.Prelude.{◌≤◌, ◌+◌, ◌*◌, refl, true, none, some, [], ◌∷◌, arith}
use dbo.Prelude.Int.{pos}
use dbo.Pool.{
  Pool, System, static_new, settle, objects_of, word, new, delete, block_size_of, push, pagesize,
  pop, add_block,
}
use dbo.Pool.Bounds.{settle-room}
use dbo.Pool.Ownership.{Step, start, allocates, frees, Owned, Step-Owned}

-- Objects of 40 bytes, 256 of them, need three pages.
settle-room_example :
    (256 ≤ objects_of (settle 4096 (static_new 40)))
    × (word ≤ (settle 4096 (static_new 40)).size)
    × (objects_of (settle 4096 (static_new 40)) * (settle 4096 (static_new 40)).size + word
        ≤ (settle 4096 (static_new 40)).block_size)
settle-room_example = settle-room 4096 (static_new 40) (omega arith) refl (omega arith)

-- A system whose malloc gives the address 4096.
abbrev system : System
system = record { sysconf = pos 4096; locks = true; malloc = λ n. some 4096; hook = λ n. none }

-- The pool once one object of 2000 bytes was handed out, and once it was given back.
abbrev one_out : Pool
one_out = (pop (add_block (settle 4096 (static_new 2000)) 4096)).1

abbrev none_out : Pool
none_out = record one_out { next = 518104 ∷ one_out.next; current_allocs = 0 }

allocated : Step 2000 one_out (518104 ∷ [])
unfolding new settle add_block pop push block_size_of pagesize
allocated = allocates system 518104 start (λ b got. (tt, omega arith)) refl

Step-Owned_example : Owned none_out []
unfolding delete pop add_block push settle block_size_of
Step-Owned_example = Step-Owned {size = 2000} (frees [] [] system 518104 allocated refl refl)
