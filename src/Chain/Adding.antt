-- ===== src/Chain/Adding.antt =====
-- What the functions `libdbo_*_list_add` do to a list on the heap.
use dbo.Prelude.{◌≡◌, ◌≢◌, refl, ◌++◌, some, List, [], ◌∷◌, Status, All, arith, sym, ok, ap, ◌∙◌}
use mathlib.Core.Path.{subst}
use dbo.Prelude.Run.{returns}
use dbo.Chain.{Ptr, null, Node, Ends, Heap, write, link, add}

-- The last of a list of addresses that starts with one.
abbrev pub last : Ptr → List Ptr → Ptr
last a [] = a
last a (b ∷ bs) = last b bs

abbrev pub IsDistinct : List Ptr → Type 0
IsDistinct [] = Unit
IsDistinct (a ∷ ps) = All (λ b. a ≢ b) ps × IsDistinct ps

pub last-All : (a b : Ptr) (ps : List Ptr) → All (λ c. a ≢ c) (b ∷ ps) → a ≢ last b ps
last-All a b [] h = h.0
last-All a b (c ∷ ps) h = last-All a c ps h.1

last-append : (a p : Ptr) (ps : List Ptr) → last a (ps ++ p ∷ []) ≡ p
last-append a p [] = refl
last-append a p (b ∷ ps) = last-append b p ps

All-append :
    (a p : Ptr) (ps : List Ptr) → All (λ b. a ≢ b) ps → a ≢ p → All (λ b. a ≢ b) (ps ++ p ∷ [])
All-append a p [] h n = (n, tt)
All-append a p (b ∷ ps) h n = (h.0, All-append a p ps h.1 n)

IsDistinct-append :
    (p : Ptr) (ps : List Ptr) → IsDistinct ps → All (λ b. p ≢ b) ps → IsDistinct (ps ++ p ∷ [])
IsDistinct-append p [] d fresh = (tt, tt)
IsDistinct-append p (a ∷ ps) d fresh =
    (All-append a p ps d.0 (λ e. fresh.0 (sym e)), IsDistinct-append p ps d.1 fresh.1)

module _ {P : Type 0} where
  -- The nodes at these addresses are linked in this order from a pointer on, up to NULL.
  abbrev pub Linked : Heap P → Ptr → List Ptr → Type 0
  Linked h p [] = p ≡ null
  Linked h p (a ∷ ps) = (p ≡ a) × (p ≢ null) × ((n : Node P) × (h p ≡ some n) × Linked h n.next ps)

  -- A list with its ends.
  abbrev pub IsList : Heap P → Ends → List Ptr → Type 0
  IsList h l [] = l.begin ≡ null
  IsList h l (a ∷ ps) = Linked h l.begin (a ∷ ps) × (l.end ≡ last a ps) × IsDistinct (a ∷ ps)

  -- Linking a node behind the last.
  Linked-append :
      (h : Heap P) (x a p : Ptr) (ps : List Ptr) (n e : Node P)
      → Linked h x (a ∷ ps)
      → IsDistinct (a ∷ ps)
      → All (λ b. p ≢ b) (a ∷ ps)
      → p ≢ null
      → h p ≡ some n
      → n.next ≡ null
      → h (last a ps) ≡ some e
      → Linked (write h (last a ps) (record e { next = p })) x ((a ∷ ps) ++ p ∷ [])
  Linked-append h x a p [] n e linked distinct fresh there node end last_node = (
    linked.0,
    linked.1,
    (
      record e { next = p },
      ground (arith, linked.0),
      (refl, there, (n, ground (arith, fresh.0, linked.0, node), end)),
    ),
  )
  Linked-append h x a p (b ∷ ps) n e linked distinct fresh there node end last_node =
      let (m, found, rest) = linked.2 in
      (
        linked.0,
        linked.1,
        (
          m,
          ground (arith, found, linked.0, last-All a b ps distinct.0),
          Linked-append h m.next b p ps n e rest distinct.1 fresh.1 there node end last_node,
        ),
      )

  last-node :
      (h : Heap P) (x a : Ptr) (ps : List Ptr)
      → Linked h x (a ∷ ps)
      → (n : Node P) × (h (last a ps) ≡ some n) × (last a ps ≢ null)
  last-node h x a [] linked =
      let (n, found, end) = linked.2 in
      (n, ground (arith, linked.0, found), ground (arith, linked.0, linked.1))
  last-node h x a (b ∷ ps) linked = let (n, found, rest) = linked.2 in last-node h n.next b ps rest

  last-next :
      (h : Heap P) (x a : Ptr) (ps : List Ptr) (n : Node P)
      → Linked h x (a ∷ ps)
      → h (last a ps) ≡ some n
      → n.next ≡ null
  last-next h x a [] n linked node =
      let (m, found, end) = linked.2 in ground (arith, found, linked.0, node, end)
  last-next h x a (b ∷ ps) n linked node =
      let (m, found, rest) = linked.2 in last-next h m.next b ps n rest node

  add_lem :
      (not_empty : P → Status) (h : Heap P) (l : Ends) (p : Ptr) (n e : Node P)
      → p ≢ null
      → h p ≡ some n
      → n.next ≡ null
      → not_empty n.payload ≡ ok
      → l.begin ≢ null
      → l.end ≢ null
      → h l.end ≡ some e
      → add not_empty h l p ≡ returns (write h l.end (record e { next = p }), record l { end = p })
  unfolding add link
  add_lem not_empty h l p n e there node end fine begins ends found = ground arith

  -- The function `libdbo_*_list_add`, called with a list on the heap and a node that is not in it,
  -- is not empty and has no next node: it returns, and the list has that node behind its others.
  pub add-IsList :
      (not_empty : P → Status) (h : Heap P) (l : Ends) (ps : List Ptr) (p : Ptr) (n : Node P)
      → IsList h l ps
      → All (λ b. p ≢ b) ps
      → p ≢ null
      → h p ≡ some n
      → n.next ≡ null
      → not_empty n.payload ≡ ok
      → (h' : Heap P) × (l' : Ends) × (add not_empty h l p ≡ returns (h', l'))
        × IsList h' l' (ps ++ p ∷ [])
  unfolding add link
  add-IsList not_empty h l [] p n held fresh there node end fine = (
    h,
    record { begin = p; end = p },
    ground (arith, held, there, node, end, fine),
    ((refl, there, (n, node, end)), refl, (tt, tt)),
  )
  add-IsList not_empty h l (a ∷ ps) p n held fresh there node end fine =
      let (e, found, nonnull) = last-node h l.begin a ps held.0 in
      (
        write h (last a ps) (record e { next = p }),
        record l { end = p },
        subst
            (λ q.
              add not_empty h l p
              ≡ returns (write h q (record e { next = p }), record l { end = p }))
            held.1
            (add_lem not_empty h l p n e there node end fine (λ z. held.0.1 z)
              (λ z. nonnull (sym held.1 ∙ z)) (ap h held.1 ∙ found)),
        (
          Linked-append h l.begin a p ps n e held.0 held.2 fresh there node end found,
          sym (last-append a p ps),
          IsDistinct-append p (a ∷ ps) held.2 fresh,
        ),
      )

  -- The function `libdbo_*_list_add`, called with the node that is already the last of its list.
  pub add-last :
      (not_empty : P → Status) (h : Heap P) (l : Ends) (a : Ptr) (ps : List Ptr) (n : Node P)
      → IsList h l (a ∷ ps)
      → h (last a ps) ≡ some n
      → not_empty n.payload ≡ ok
      → add not_empty h l (last a ps)
        ≡ returns
            (write h (last a ps) (record n { next = last a ps }), record l { end = last a ps })
  add-last not_empty h l a ps n held node fine =
      let (m, found, nonnull) = last-node h l.begin a ps held.0 in
      subst
        (λ q.
          add not_empty h l (last a ps)
          ≡ returns (write h q (record n { next = last a ps }), record l { end = last a ps }))
        held.1
        (add_lem not_empty h l (last a ps) n n nonnull node (last-next h l.begin a ps n held.0 node)
          fine (λ z. held.0.1 z) (λ z. nonnull (sym held.1 ∙ z)) (ap h held.1 ∙ node))
