-- ===== src/Clause/Tree.antt =====
-- A clause list as the code that walks it sees it: the clauses in order, each with its nested list,
-- if it has one. `libdbo_clause_list_begin` gives the first, `libdbo_clause_next` the rest, and
-- `libdbo_clause_list` the nested list.
use dbo.Clause.{Clause}

mutual
  pub data Clauses : Type 0 where
    nil : Clauses
    cons : Clause → ClauseList → Clauses → Clauses

  -- A `libdbo_clause_list_t*`.
  pub data ClauseList : Type 0 where
    absent : ClauseList
    list : Clauses → ClauseList
