-- ===== src/Pool/Ownership.antt =====
-- The pools of src/libdbo_mm.c through any history of calls.
use mathlib.Core.Path.{subst}
use mathlib.Core.List.{Nodup, Nodup-nil, perm_middle, append_assoc}
use mathlib.Core.List.Perm
use mathlib.Core.List.Nodup
use dbo.Prelude.{
  ℕ, suc, ◌≡◌, refl, sym, ap, ◌∙◌, ◌<◌, ◌+◌, ◌*◌, ◌^◌, ◌%◌, inl, inr, some, List, [], ◌∷◌, ◌++◌,
  All, arith, length, length-append, true, false, Bool-cases, Option-cases, ◌==◌, ◌&&◌,
}
use dbo.Chain.{Ptr}
use dbo.Pool.{
  Pool, System, Hooks, static_new, new, delete, released, pop, add_block, settle, pagesize,
  objects_of, word, has_blocks, less_one,
}
use dbo.Pool.Objects.{Outside, push-Nodup, length-push}

-- The library's own allocation: no hooks are set.
abbrev pub no_hooks : Hooks
no_hooks = record { malloc = false; free = false }

-- What malloc gives does not overlap what it gave before, and the objects of the block can be
-- counted: of the addresses of objects in use none lies in the block.
abbrev pub IsGiven : System → Pool → List Ptr → Type 0
IsGiven sys a lent =
    (b : Ptr)
    → sys.malloc ((settle (pagesize sys.sysconf) a).block_size) ≡ some b
    → All
        (Outside (b + word)
          (objects_of (settle (pagesize sys.sysconf) a) * (settle (pagesize sys.sysconf) a).size))
        lent
      × (a.total_allocs + objects_of (settle (pagesize sys.sysconf) a) < 2 ^ 64)

-- A pool with the objects that were handed out and not given back, and the calls on them.
pub data Step (size : ℕ) : Pool → List Ptr → Type 0 where
  start : Step size (static_new size) []
  allocates :
      {a a' : Pool} {lent : List Ptr} (sys : System) (p : Ptr)
      → Step size a lent
      → IsGiven sys a lent
      → new sys no_hooks (some a) ≡ (some p, some a')
      → Step size a' (p ∷ lent)
  frees :
      {a a' : Pool} (before after : List Ptr) (sys : System) (p : Ptr)
      → Step size a (before ++ (p ∷ after))
      → sys.locks ≡ true
      → delete sys no_hooks (some a) (some p) ≡ some a'
      → Step size a' (before ++ after)

-- No object is free and in use, or in use twice, and the counters are right.
pub record Owned (a : Pool) (lent : List Ptr) : Type 0 where
  pub distinct : Nodup (a.next ++ lent)
  pub current : a.current_allocs ≡ length lent
  pub total : a.total_allocs ≡ length a.next + length lent
  pub small : a.total_allocs < 2 ^ 64

-- An object that is given back is free, and the others are where they were.
given_back :
    (next before after : List Ptr) (p : Ptr)
    → Nodup (next ++ (before ++ (p ∷ after)))
    → Nodup (p ∷ (next ++ (before ++ after)))
given_back next before after p d =
    subst (λ l. Nodup (p ∷ l)) (append_assoc next before after)
      (Perm.nodup (perm_middle (next ++ before) after)
        (subst Nodup (sym (append_assoc next before (p ∷ after))) d))

-- One object less.
length_less :
    (before after : List Ptr) (p : Ptr)
    → length (before ++ (p ∷ after)) ≡ suc (length (before ++ after))
length_less before after p =
    omega (arith, length-append before (p ∷ after), length-append before after)

delete-Owned :
    (a a' : Pool) (before after : List Ptr) (sys : System) (p : Ptr)
    → Owned a (before ++ (p ∷ after))
    → sys.locks ≡ true
    → delete sys no_hooks (some a) (some p) ≡ some a'
    → Owned a' (before ++ after)
unfolding delete
delete-Owned a a' before after sys p o locks h =
    let back = given_back a.next before after p o.distinct in
    let fewer = length_less before after p in
    elim (Bool-cases (less_one a.current_allocs == 0 && has_blocks a.block)) [
      | inl last ↦
          let gone : a' ≡ released a = ground (arith, locks, last, h) in
          let none_left : length (before ++ after) ≡ 0 = ground (arith, last, o.current, fewer) in
          subst (λ x. Owned x (before ++ after)) (sym gone)
            (record {
              distinct = Nodup.of_append_right (p ∷ a.next) back;
              current = omega (arith, none_left);
              total = omega (arith, none_left);
              small = omega arith;
            })
      | inr some_left ↦
          let kept : a'
              ≡ record a { next = p ∷ a.next; current_allocs = less_one a.current_allocs } =
            ground (arith, locks, some_left, h) in
          subst (λ x. Owned x (before ++ after)) (sym kept)
            (record {
              distinct = back;
              current = ground (arith, o.current, fewer);
              total = omega (arith, o.total, fewer);
              small = o.small;
            })
    ]

pop-Owned :
    (a a' : Pool) (lent : List Ptr) (p : Ptr) (l : List Ptr)
    → a.next ≡ l
    → Owned a lent
    → pop a ≡ (some p, a')
    → Owned a' (p ∷ lent)
unfolding pop
pop-Owned a a' lent p [] e o h = absurd (ground (arith, e, h))
pop-Owned a a' lent p (q ∷ rest) e o h =
    let taken : a' ≡ record a { next = rest; current_allocs = (a.current_allocs + 1) % 2 ^ 64 } =
      ground (arith, e, h) in
    let first : q ≡ p = ground (arith, e, h) in
    let parts : Nodup (q ∷ (rest ++ lent)) = subst (λ x. Nodup (x ++ lent)) e o.distinct in
    let count : length a.next ≡ suc (length rest) = ap length e in
    subst (λ x. Owned x (p ∷ lent)) (sym taken)
      (record {
        distinct =
            Perm.nodup (Perm.symm (perm_middle rest lent))
              (subst (λ x. Nodup (x ∷ (rest ++ lent))) first parts);
        current = ground (arith, o.current, o.total, o.small, count);
        total = omega (arith, o.total, count);
        small = o.small;
      })

add_block-Owned :
    (a : Pool) (lent : List Ptr) (b : Ptr)
    → Owned a lent
    → a.next ≡ []
    → 0 < a.size
    → All (Outside (b + word) (objects_of a * a.size)) lent
    → a.total_allocs + objects_of a < 2 ^ 64
    → Owned (add_block a b) lent
unfolding add_block
add_block-Owned a lent b o empty s away small = record {
  distinct = ground (
    arith,
    empty,
    push-Nodup (objects_of a) (b + word) a.size [] lent s away (ground (arith, empty, o.distinct)),
  );
  current = o.current;
  total = ground (arith, empty, o.total, length-push (objects_of a) (b + word) a.size [], small);
  small = ground (arith, small);
}

-- A new block, where none is free, and the first of its objects.
settle-Owned :
    (page : ℕ) (a : Pool) (lent : List Ptr)
    → Owned a lent
    → Owned (settle page a) lent
      × (0 < (settle page a).size)
      × ((settle page a).next ≡ a.next)
      × ((settle page a).total_allocs ≡ a.total_allocs)
unfolding settle
settle-Owned page a lent o = (
  record { distinct = o.distinct; current = o.current; total = o.total; small = o.small },
  ground arith,
  refl,
  refl,
)

new-Owned :
    (a a' : Pool) (lent : List Ptr) (sys : System) (p : Ptr) (l : List Ptr)
    → a.next ≡ l
    → Owned a lent
    → IsGiven sys a lent
    → new sys no_hooks (some a) ≡ (some p, some a')
    → Owned a' (p ∷ lent)
unfolding new pop
new-Owned a a' lent sys p (q ∷ rest) e o given h =
    pop-Owned a a' lent p (q ∷ rest) e o (ground (arith, e, h))
new-Owned a a' lent sys p [] e o given h = elim (Bool-cases sys.locks) [
  | inr busy ↦ absurd (ground (arith, busy, h))
  | inl locked ↦
      let settled = settle (pagesize sys.sysconf) a in
      let (o', s, same, total) = settle-Owned (pagesize sys.sysconf) a lent o in
      elim (Option-cases (sys.malloc settled.block_size)) [
        | inl out ↦ absurd (ground (arith, locked, e, out, h))
        | inr (b, got) ↦
            let (away, small) = given b got in
            pop-Owned (add_block settled b) a' lent p _ refl
              (add_block-Owned settled lent b o' (same ∙ e) s away (omega (arith, small, total)))
              (ground (arith, locked, e, got, h))
      ]
]

-- In every history of allocations, of which malloc answers those that need a block with one that
-- does not overlap what is in use, and of deletions of objects in use, an object that is handed
-- out is not one that is in use, none is free while it is in use, and the counters of the pool are
-- the numbers of the objects in use and of all objects. This holds where all blocks are released, too.
pub Step-Owned : {size : ℕ} {a : Pool} {lent : List Ptr} → Step size a lent → Owned a lent
Step-Owned {size} start = record {
  distinct = Nodup-nil;
  current = refl;
  total = refl;
  small = omega arith;
}
Step-Owned (allocates {a} {a'} {lent} sys p s given h) =
    new-Owned a a' lent sys p a.next refl (Step-Owned s) given h
Step-Owned (frees {a} {a'} before after sys p s locks h) =
    delete-Owned a a' before after sys p (Step-Owned s) locks h
