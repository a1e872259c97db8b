-- ===== src/Chain/Freeing.antt =====
-- What the functions `libdbo_*_list_free` do to a list on the heap, libdbo_join_list_free of
-- src/libdbo_join.c for one.
use mathlib.Core.Path.{subst}
use dbo.Prelude.{
  ℕ, zero, suc, ◌+◌, ◌<◌, ◌≡◌, ◌≢◌, refl, ap, ◌∙◌, none, some, List, [], ◌∷◌, Status, ok, All,
  arith, sym, length,
}
use dbo.Prelude.Run.{returns, crashes}
use dbo.Chain.{Ptr, null, Node, Ends, Heap, write, erase, add, free_nodes}
use dbo.Chain.Adding.{IsDistinct, IsList, Linked, last, last-All, add-last}

module _ {P : Type 0} where
  -- What is left when the nodes of a list are freed, and no others.
  abbrev pub IsFreed : Heap P → List Ptr → Heap P → Type 0
  IsFreed h ps h' = All (λ a. h' a ≡ none) ps × ((q : Ptr) → All (λ a. q ≢ a) ps → h' q ≡ h q)

  Linked-erase :
      (h : Heap P) (x y : Ptr) (ps : List Ptr)
      → Linked h x ps
      → All (λ b. y ≢ b) ps
      → Linked (erase h y) x ps
  Linked-erase h x y [] linked away = linked
  Linked-erase h x y (a ∷ ps) linked away =
      let (n, found, rest) = linked.2 in
      (
        linked.0,
        linked.1,
        (n, ground (arith, found, linked.0, away.0), Linked-erase h n.next y ps rest away.1),
      )

  free_nodes-step :
      (fuel : ℕ) (h : Heap P) (x : Ptr) (n : Node P)
      → x ≢ null
      → h x ≡ some n
      → free_nodes (suc fuel) h x ≡ free_nodes fuel (erase h x) n.next
  unfolding free_nodes
  free_nodes-step fuel h x n there found = ground (arith, there, found)

  free_nodes-Linked :
      (fuel : ℕ) (h : Heap P) (x : Ptr) (ps : List Ptr)
      → length ps < fuel
      → Linked h x ps
      → IsDistinct ps
      → (h' : Heap P) × (free_nodes fuel h x ≡ returns h') × IsFreed h ps h'
  unfolding free_nodes
  free_nodes-Linked zero h x ps enough linked distinct = absurd (omega (arith, enough))
  free_nodes-Linked (suc fuel) h x [] enough linked distinct =
      (h, ground (arith, linked), (tt, λ q away. refl))
  free_nodes-Linked (suc fuel) h x (a ∷ ps) enough linked distinct =
      let (n, found, rest) = linked.2 in
      let off : All (λ b. x ≢ b) ps = subst (λ y. All (λ b. y ≢ b) ps) (sym linked.0) distinct.0 in
      let (h', freed, (gone, others)) =
        free_nodes-Linked fuel (erase h x) n.next ps (omega (arith, enough))
          (Linked-erase h n.next x ps rest off) distinct.1 in
      (
        h',
        free_nodes-step fuel h x n linked.1 found ∙ freed,
        (
          (ground (arith, others a distinct.0, linked.0), gone),
          λ q away. ground (arith, others q away.1, linked.0, away.0),
        ),
      )

  -- Nodes that are linked in this order, the last one with itself.
  abbrev Cyclic : Heap P → Ptr → Ptr → List Ptr → Type 0
  Cyclic h x a [] = (x ≡ a) × (x ≢ null) × ((n : Node P) × (h x ≡ some n) × (n.next ≡ x))
  Cyclic h x a (b ∷ ps) =
      (x ≡ a) × (x ≢ null) × ((n : Node P) × (h x ≡ some n) × Cyclic h n.next b ps)

  Cyclic-erase :
      (h : Heap P) (x y a : Ptr) (ps : List Ptr)
      → Cyclic h x a ps
      → All (λ b. y ≢ b) (a ∷ ps)
      → Cyclic (erase h y) x a ps
  Cyclic-erase h x y a [] cyclic away =
      let (n, found, again) = cyclic.2 in
      (cyclic.0, cyclic.1, (n, ground (arith, found, cyclic.0, away.0), again))
  Cyclic-erase h x y a (b ∷ ps) cyclic away =
      let (n, found, rest) = cyclic.2 in
      (
        cyclic.0,
        cyclic.1,
        (n, ground (arith, found, cyclic.0, away.0), Cyclic-erase h n.next y b ps rest away.1),
      )

  -- Writing the last node so that it is its own next.
  Linked-Cyclic :
      (h : Heap P) (x a : Ptr) (ps : List Ptr) (e : Node P)
      → Linked h x (a ∷ ps)
      → IsDistinct (a ∷ ps)
      → Cyclic (write h (last a ps) (record e { next = last a ps })) x a ps
  Linked-Cyclic h x a [] e linked distinct =
      (linked.0, linked.1, (record e { next = a }, ground (arith, linked.0), sym linked.0))
  Linked-Cyclic h x a (b ∷ ps) e linked distinct =
      let (n, found, rest) = linked.2 in
      (
        linked.0,
        linked.1,
        (
          n,
          ground (arith, found, linked.0, last-All a b ps distinct.0),
          Linked-Cyclic h n.next b ps e rest distinct.1,
        ),
      )

  -- The loop comes back to a node that it has freed.
  freed-crashes :
      (fuel : ℕ) (h : Heap P) (x : Ptr) → x ≢ null → free_nodes (suc fuel) (erase h x) x ≡ crashes
  unfolding free_nodes
  freed-crashes fuel h x there = ground (arith, there)

  free_nodes-Cyclic :
      (fuel : ℕ) (h : Heap P) (x a : Ptr) (ps : List Ptr)
      → length ps + 1 < fuel
      → Cyclic h x a ps
      → IsDistinct (a ∷ ps)
      → free_nodes fuel h x ≡ crashes
  free_nodes-Cyclic zero h x a ps enough cyclic distinct = absurd (omega (arith, enough))
  free_nodes-Cyclic (suc zero) h x a ps enough cyclic distinct = absurd (omega (arith, enough))
  free_nodes-Cyclic (suc (suc fuel)) h x a [] enough cyclic distinct =
      let (n, found, again) = cyclic.2 in
      free_nodes-step (suc fuel) h x n cyclic.1 found
      ∙ ap (free_nodes (suc fuel) (erase h x)) again
      ∙ freed-crashes fuel h x cyclic.1
  free_nodes-Cyclic (suc fuel) h x a (b ∷ ps) enough cyclic distinct =
      let (n, found, rest) = cyclic.2 in
      let off : All (λ c. x ≢ c) (b ∷ ps) =
        subst (λ y. All (λ c. y ≢ c) (b ∷ ps)) (sym cyclic.0) distinct.0 in
      free_nodes-step fuel h x n cyclic.1 found
      ∙ free_nodes-Cyclic fuel (erase h x) n.next b ps (omega (arith, enough))
          (Cyclic-erase h n.next x b ps rest off) distinct.1

  -- On a list on the heap that is not empty, with fuel for one round more than it has nodes: freeing
  -- the nodes returns, every node of the list is then freed, and nothing
  -- else has changed. The function `libdbo_*_list_add`, called with the node that is already the last
  -- of the list and is not empty, answers ok too; then freeing the nodes of the list uses a node that
  -- it has freed.
  pub add-free_nodes :
      (not_empty : P → Status) (h : Heap P) (l : Ends) (a : Ptr) (ps : List Ptr) (n : Node P)
      (fuel : ℕ)
      → IsList h l (a ∷ ps)
      → h (last a ps) ≡ some n
      → not_empty n.payload ≡ ok
      → length ps + 1 < fuel
      → ((freed : Heap P) × (free_nodes fuel h l.begin ≡ returns freed) × IsFreed h (a ∷ ps) freed)
        × ((h' : Heap P) × (l' : Ends) × (add not_empty h l (last a ps) ≡ returns (h', l'))
            × (free_nodes fuel h' l'.begin ≡ crashes))
  add-free_nodes not_empty h l a ps n fuel held node fine enough = (
    free_nodes-Linked fuel h l.begin (a ∷ ps) (omega (arith, enough)) held.0 held.2,
    (
      write h (last a ps) (record n { next = last a ps }),
      record l { end = last a ps },
      add-last not_empty h l a ps n held node fine,
      free_nodes-Cyclic fuel _ l.begin a ps enough (Linked-Cyclic h l.begin a ps n held.0 held.2)
          held.2,
    ),
  )
