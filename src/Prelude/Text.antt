-- ===== src/Prelude/Text.antt =====
-- C strings as the list of their bytes, and what the code takes from the C library for them.
use Prim.Native.Nat.{ℕ, ◌+◌, ◌-◌, ◌*◌, ◌^◌}
use Prim.Native.Char.{code}
use Prim.Native.String.{String}
use mathlib.Core.Path.{◌≡◌, refl}
use mathlib.Core.Bool.{Bool, true, false, ◌&&◌, ◌||◌}
use mathlib.Core.Logic.{◌↔◌}
use mathlib.Core.Option.{Option, none, some}
use mathlib.Core.List.{List, [], ◌∷◌}
use native.Mathlib.Omega.{arith}
use dbo.Prelude.Tests.{Outcome, done, undefined, leb, ltb, ◌==◌, if◌then◌else◌}
use dbo.Prelude.Lists.{take}
use dbo.Prelude.Int.{ℤ, pos, negsuc}

abbrev pub Text : Type 0
Text = List ℕ

-- The bytes of a literal.
abbrev pub codes : String → Text
codes String.[] = []
codes (String.◌∷◌ c s) = code c ∷ codes s

-- strcmp, of which only the sign is specified.
unfoldable pub strcmp : Text → Text → ℤ
strcmp [] [] = pos 0
strcmp [] (b ∷ t) = negsuc 0
strcmp (a ∷ s) [] = pos 1
strcmp (a ∷ s) (b ∷ t) = if a == b then strcmp s t else if ltb a b then negsuc 0 else pos 1

-- !strcmp(s, t)
unfoldable pub same_text : Text → Text → Bool
same_text [] [] = true
same_text [] (b ∷ t) = false
same_text (a ∷ s) [] = false
same_text (a ∷ s) (b ∷ t) = (a == b) && same_text s t

pub same_text_refl : (s : Text) → same_text s s ≡ true
unfolding same_text
same_text_refl [] = refl
same_text_refl (a ∷ s) = ground (arith, same_text_refl s)

pub eq_of_same_text : (s t : Text) → same_text s t ≡ true → s ≡ t
unfolding same_text
eq_of_same_text [] [] h = refl
eq_of_same_text [] (b ∷ t) h = cc
eq_of_same_text (a ∷ s) [] h = cc
eq_of_same_text (a ∷ s) (b ∷ t) h = ground (arith, eq_of_same_text s t)

pub strcmp_zero_iff : (s t : Text) → (strcmp s t ≡ pos 0) ↔ (s ≡ t)
unfolding strcmp
strcmp_zero_iff [] [] = ground arith
strcmp_zero_iff [] (b ∷ t) = ground arith
strcmp_zero_iff (a ∷ s) [] = ground arith
strcmp_zero_iff (a ∷ s) (b ∷ t) = ground (arith, strcmp_zero_iff s t)

pub strcmp_antisym : (s t : Text) → strcmp s t ≡ negsuc 0 → strcmp t s ≡ pos 1
unfolding strcmp
strcmp_antisym [] [] h = cc
strcmp_antisym [] (b ∷ t) h = refl
strcmp_antisym (a ∷ s) [] h = cc
strcmp_antisym (a ∷ s) (b ∷ t) h = ground (arith, strcmp_antisym s t)

pub strcmp_less_trans :
    (s t u : Text) → strcmp s t ≡ negsuc 0 → strcmp t u ≡ negsuc 0 → strcmp s u ≡ negsuc 0
unfolding strcmp
strcmp_less_trans [] [] u h k = cc
strcmp_less_trans [] (b ∷ t) [] h k = cc
strcmp_less_trans [] (b ∷ t) (c ∷ u) h k = refl
strcmp_less_trans (a ∷ s) [] u h k = cc
strcmp_less_trans (a ∷ s) (b ∷ t) [] h k = cc
strcmp_less_trans (a ∷ s) (b ∷ t) (c ∷ u) h k = ground (arith, strcmp_less_trans s t u)

-- atoi: white space, a sign and digits; a number that does not fit is undefined.
abbrev is_digit : ℕ → Bool
is_digit c = leb 48 c && leb c 57

abbrev is_space : ℕ → Bool
is_space c = c == 32 || leb 9 c && leb c 13

unfoldable pub digits : ℕ → Text → ℕ
digits n [] = n
digits n (c ∷ s) = let rest = digits (n * 10 + (c - 48)) s in if is_digit c then rest else n

abbrev in_int : ℕ → ℤ → Outcome ℤ
in_int limit n = if leb limit (2 ^ 31) then done n else undefined

unfoldable pub signed_number : Text → Outcome ℤ
unfolding digits
signed_number [] = done (pos 0)
signed_number (c ∷ s) =
    if c == 45
    then in_int (digits 0 s) (if digits 0 s == 0 then pos 0 else negsuc (digits 0 s - 1))
    else if c == 43
    then in_int (digits 0 s + 1) (pos (digits 0 s))
    else in_int (digits 0 (c ∷ s) + 1) (pos (digits 0 (c ∷ s)))

unfoldable pub atoi : Text → Outcome ℤ
unfolding signed_number
atoi [] = done (pos 0)
atoi (c ∷ s) = let rest = atoi s in if is_space c then rest else signed_number (c ∷ s)

-- The outcomes of the allocations to come, one for each call; a call past the end fails.
abbrev pub Memory : Type 0
Memory = List Bool

abbrev pub allocate : Memory → Bool × Memory
allocate [] = (false, [])
allocate (b ∷ m) = (b, m)

-- strdup and strndup: a copy, or NULL where memory is exhausted.
abbrev pub strdup : Text → Memory → Option Text × Memory
strdup s [] = (none, [])
strdup s (b ∷ m) = (if b then some s else none, m)

abbrev pub strndup : Text → ℕ → Memory → Option Text × Memory
strndup s n m = strdup (take n s) m
