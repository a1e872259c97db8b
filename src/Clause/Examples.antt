-- ===== src/Clause/Examples.antt =====
-- The theorem on list_add at a clause list, libdbo_clause_list_add.
use dbo.Prelude.{◌≡◌, refl, none, some, [], ◌∷◌, Status, ◌==◌, if◌then◌else◌, arith}
use dbo.Prelude.Int.{pos}
use dbo.Prelude.Text.{codes}
use dbo.Prelude.Run.{returns}
use dbo.ValueType.{ValueType}
use dbo.Value.{zero_value, type_of}
use dbo.Clause
use dbo.Clause.{Clause, ClauseType, Operator}
use dbo.Chain.{Ptr, null, Node, Ends, Heap, add}
use dbo.Chain.Adding.{IsList, add-IsList}

abbrev condition : Clause
condition = record {
  table = none;
  field = some (codes "id");
  type = ClauseType.equal;
  value = record zero_value { type = ValueType.int32; int32 = pos 7 };
  clause_operator = Operator.and;
  clause_list = null;
}

abbrev is_filled : Clause → Status
is_filled c = Clause.not_empty (some c)

abbrev node : Ptr → Node Clause
node p = record { payload = condition; next = p }

-- Clauses at 1, 2 and 3; 1 and 2 are in the list.
abbrev heap : Heap Clause
heap p =
    if p == 1
    then some (node 2)
    else if p == 2
    then some (node null)
    else if p == 3
    then some (node null)
    else none

abbrev ends : Ends
ends = record { begin = 1; end = 2 }

ends-IsList : IsList heap ends (1 ∷ 2 ∷ [])
ends-IsList = (
  (refl, (λ e. ground arith), (node 2, refl, (refl, (λ e. ground arith), (node null, refl, refl)))),
  refl,
  (((λ e. ground arith), tt), (tt, tt)),
)

add-IsList_example :
    (h : Heap Clause) × (l : Ends) × (add is_filled heap ends 3 ≡ returns (h, l))
    × IsList h l (1 ∷ 2 ∷ 3 ∷ [])
unfolding Clause.not_empty type_of
add-IsList_example =
    add-IsList is_filled heap ends (1 ∷ 2 ∷ []) 3 (node null) ends-IsList
      ((λ e. ground arith), ((λ e. ground arith), tt)) (λ e. ground arith) refl refl refl
