-- ===== src/Chain/Examples.antt =====
-- The theorem on freeing a list at a list of joins, libdbo_join_list_add and libdbo_join_list_free.
use dbo.Prelude.{◌≡◌, refl, none, some, [], ◌∷◌, Status, ◌==◌, if◌then◌else◌, arith}
use dbo.Prelude.Text.{codes}
use dbo.Prelude.Run.{returns, crashes}
use dbo.Join
use dbo.Join.{Join}
use dbo.Chain.{Ptr, null, Node, Ends, Heap, add, free_nodes}
use dbo.Chain.Adding.{IsList}
use dbo.Chain.Freeing.{IsFreed, add-free_nodes}

abbrev join : Join
join = record {
  from_table = some (codes "t");
  from_field = some (codes "u");
  to_table = some (codes "u");
  to_field = some (codes "id");
}

abbrev is_filled : Join → Status
is_filled j = Join.not_empty (some j)

abbrev node : Ptr → Node Join
node p = record { payload = join; next = p }

-- Joins at 1 and 2, both in the list.
abbrev heap : Heap Join
heap p = if p == 1 then some (node 2) else if p == 2 then some (node null) else none

abbrev ends : Ends
ends = record { begin = 1; end = 2 }

ends-IsList : IsList heap ends (1 ∷ 2 ∷ [])
ends-IsList = (
  (refl, (λ e. ground arith), (node 2, refl, (refl, (λ e. ground arith), (node null, refl, refl)))),
  refl,
  (((λ e. ground arith), tt), (tt, tt)),
)

add-free_nodes_example :
    ((freed : Heap Join) × (free_nodes 3 heap 1 ≡ returns freed) × IsFreed heap (1 ∷ 2 ∷ []) freed)
    × ((h : Heap Join) × (l : Ends) × (add is_filled heap ends 2 ≡ returns (h, l))
        × (free_nodes 3 h l.begin ≡ crashes))
unfolding Join.not_empty
add-free_nodes_example =
    add-free_nodes is_filled heap ends 1 (2 ∷ []) (node null) 3 ends-IsList refl refl (omega arith)
