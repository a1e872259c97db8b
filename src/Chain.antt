-- ===== src/Chain.antt =====
-- The intrusive singly linked lists that src/libdbo_clause.c, libdbo_object.c, libdbo_join.c,
-- libdbo_configuration.c, libdbo_result.c and libdbo_backend.c all keep: nodes with a `next`
-- pointer, and a record of the list's `begin` and `end`. A node is what the C structure holds
-- besides `next`, with the pointer; a heap maps addresses to nodes, address 0 being NULL.
pub mod Adding
pub mod Freeing
mod Examples
use dbo.Prelude.{ℕ, zero, suc, Option, none, some, Status, is_ok, ◌==◌, if◌then◌else◌}
use dbo.Prelude.Run.{Run, returns, fails, crashes, ◌>>=◌, ◌>>◌, require, used}

abbrev pub Ptr : Type 0
Ptr = ℕ

abbrev pub null : Ptr
null = 0

pub record Node (P : Type 0) : Type 0 where
  pub payload : P
  pub next : Ptr

pub record Ends : Type 0 where
  pub begin : Ptr
  pub end : Ptr

abbrev pub Heap : Type 0 → Type 0
Heap P = Ptr → Option (Node P)

module _ {P : Type 0} where
  abbrev pub write : Heap P → Ptr → Node P → Heap P
  write h p n a = if a == p then some n else h a

  -- The node at an address; undefined for NULL and for an address that holds none.
  abbrev pub load : Heap P → Ptr → Run (Node P)
  load h p = if p == null then crashes else used (h p)

  -- The end of the functions `libdbo_*_list_add`:
  --   if (list->begin) { if (!list->end) return LIBDBO_ERROR_UNKNOWN;
  --       list->end->next = node; list->end = node; }
  --   else { list->begin = node; list->end = node; }
  unfoldable pub link : Heap P → Ends → Ptr → Run (Heap P × Ends)
  link h l p =
      if l.begin == null
      then returns (h, record { begin = p; end = p })
      else if l.end == null
      then fails
      else do
        last ← load h l.end
        returns (write h l.end (record last { next = p }), record l { end = p })

  -- A function `libdbo_*_list_add`, with the module's `libdbo_*_not_empty`, once the list is known
  -- not to be NULL.
  unfoldable pub add : (P → Status) → Heap P → Ends → Ptr → Run (Heap P × Ends)
  unfolding link
  add not_empty h l p = if p == null then fails else do
    node ← load h p
    require (is_ok (not_empty node.payload))
    require (node.next == null)
    link h l p

  -- The node is freed: what is at its address is no longer a node.
  abbrev pub erase : Heap P → Ptr → Heap P
  erase h p a = if a == p then none else h a

  -- The loop of the functions `libdbo_*_list_free`, for nodes whose own parts are not nodes:
  --   while (this) { next = this->next; libdbo_*_free(this); this = next; }
  -- It gives the heap that is left; `fails` is too little fuel.
  unfoldable pub free_nodes : ℕ → Heap P → Ptr → Run (Heap P)
  free_nodes zero h p = fails
  free_nodes (suc fuel) h p =
      let rest = do node ← load h p; free_nodes fuel (erase h p) node.next
      in if p == null then returns h else rest
