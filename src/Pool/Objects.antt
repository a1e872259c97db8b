-- ===== src/Pool/Objects.antt =====
-- The objects of a block of src/libdbo_mm.c, as the loop of libdbo_mm_new makes them.
use mathlib.Core.Logic.Or
use mathlib.Core.HLevel.{⊥_prop}
use native.Mathlib.Nat.{add-mul}
use mathlib.Core.List.{Mem, Nodup, Nodup-cons, mem-cons, not-mem-nil}
use dbo.Prelude.{
  ℕ, zero, suc, ◌≡◌, ◌≢◌, sym, ◌≤◌, ◌<◌, ◌+◌, ◌*◌, ◌⊎◌, inl, List, [], ◌∷◌, ◌++◌, All, arith,
  length,
}
use dbo.Chain.{Ptr}
use dbo.Pool.{push}

-- The addresses that are not within `n` bytes from an address on.
abbrev pub Outside : Ptr → ℕ → Ptr → Type 0
Outside p n q = (q < p) ⊎ (p + n ≤ q)

All-map : {P Q : ℕ → Type 0} (xs : List ℕ) → ((x : ℕ) → P x → Q x) → All P xs → All Q xs
All-map [] f h = tt
All-map (x ∷ xs) f h = (f x h.0, All-map xs f h.1)

All-not-mem : (p : ℕ) (xs : List ℕ) → All (λ q. q ≢ p) xs → ¬ Mem p xs
All-not-mem p [] h m = not-mem-nil m
All-not-mem p (x ∷ xs) h m = Or.elim ⊥_prop (mem-cons.0 m) (λ e. h.0 (sym e)) (All-not-mem p xs h.1)

suc_mul : (n size : ℕ) → suc n * size ≡ size + n * size
suc_mul n size = omega (arith, add-mul n 1 size)

-- The objects of a block are all different, and different from those that were there.
pub push-Nodup :
    (n : ℕ) (p : Ptr) (size : ℕ) (next lent : List Ptr)
    → 0 < size
    → All (Outside p (n * size)) (next ++ lent)
    → Nodup (next ++ lent)
    → Nodup (push n p size next ++ lent)
unfolding push
push-Nodup zero p size next lent s away d = d
push-Nodup (suc n) p size next lent s away d =
    push-Nodup n (p + size) size (p ∷ next) lent s
      (
        inl (omega (arith, s)),
        All-map (next ++ lent) (λ q a. omega (arith, a, suc_mul n size)) away,
      )
      (Nodup-cons.1 (
        All-not-mem p (next ++ lent)
            (All-map (next ++ lent) (λ q a. λ e. omega (arith, a, e, s, suc_mul n size)) away),
        d,
      ))

pub length-push :
    (n : ℕ) (p : Ptr) (size : ℕ) (next : List Ptr) → length (push n p size next) ≡ n + length next
unfolding push
length-push zero p size next = omega arith
length-push (suc n) p size next = omega (arith, length-push n (p + size) size (p ∷ next))
