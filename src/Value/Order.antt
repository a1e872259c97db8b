-- ===== src/Value/Order.antt =====
-- libdbo_value_cmp of src/libdbo_value.c against an order on what the values stand for.
use dbo.Prelude.{◌≡◌, Option, none, some, Status, ok, error_unknown, done, arith}
use dbo.Prelude.Int.{ℤ, pos, negsuc}
use dbo.Prelude.Text.{Text, strcmp, strcmp_zero_iff, strcmp_antisym, strcmp_less_trans}
use dbo.Value.{Value}
use dbo.Value.Storage.{Datum, datum, IsValue}
use dbo.Value.Compare.{cmp, compare_ℤ}

-- The classes within which two data are compared, each datum with its place in the order.
pub data Place : Type 0 where
  nothing : Place
  signed unsigned enum : ℤ → Place
  text : Text → Place

abbrev pub place : Option Datum → Place
place none = nothing
place (some (Datum.int32 x)) = signed x
place (some (Datum.int64 x)) = signed x
place (some (Datum.uint32 x)) = unsigned (pos x)
place (some (Datum.uint64 x)) = unsigned (pos x)
place (some (Datum.text t)) = text t
place (some (Datum.enum x t)) = enum x

-- Nothing comes first; within a class the numbers decide; across classes there is no answer.
abbrev pub compare_places : Place → Place → Option ℤ
compare_places nothing nothing = some (pos 0)
compare_places nothing b = some (negsuc 0)
compare_places a nothing = some (pos 1)
compare_places (signed x) (signed y) = some (compare_ℤ x y)
compare_places (unsigned x) (unsigned y) = some (compare_ℤ x y)
compare_places (enum x) (enum y) = some (compare_ℤ x y)
compare_places (text s) (text t) = some (strcmp s t)
compare_places a b = none

abbrev pub answer : Option ℤ → ℤ → Status × Option ℤ
answer none old = (error_unknown, some old)
answer (some x) old = (ok, some x)

-- Comparing two values that the module made gives the order of what they hold: an empty value
-- before any other, two signed integers of 32 or 64 bits by value, two unsigned ones likewise, two
-- texts by strcmp and two enumeration values by number; for any other pair the answer is the error
-- and the result variable is unchanged. No such comparison is undefined.
pub cmp-compare_places :
    (a b : Value) (old : ℤ)
    → IsValue a
    → IsValue b
    → cmp (some a) (some b) (some old)
      ≡ done (answer (compare_places (place (datum a)) (place (datum b))) old)
unfolding cmp
cmp-compare_places a b old ha hb = ground arith

-- Whether libdbo_value_cmp says that one value comes before, with, or behind another.
abbrev pub Says : ℤ → Value → Value → Type 0
Says x a b = cmp (some a) (some b) (some (pos 0)) ≡ done (ok, some x)

compare_places-Says :
    (x : ℤ) (a b : Value)
    → IsValue a
    → IsValue b
    → Says x a b
    → compare_places (place (datum a)) (place (datum b)) ≡ some x
compare_places-Says x a b ha hb h = let e = cmp-compare_places a b (pos 0) ha hb in ground arith

Says-compare_places :
    (x : ℤ) (a b : Value)
    → IsValue a
    → IsValue b
    → compare_places (place (datum a)) (place (datum b)) ≡ some x
    → Says x a b
Says-compare_places x a b ha hb h = cc (cmp-compare_places a b (pos 0) ha hb)

compare_places_swap :
    (p q : Place) → compare_places p q ≡ some (negsuc 0) → compare_places q p ≡ some (pos 1)
compare_places_swap nothing q h = ground arith
compare_places_swap (signed x) q h = ground arith
compare_places_swap (unsigned x) q h = ground arith
compare_places_swap (enum x) q h = ground arith
compare_places_swap (text s) (text t) h = ground (arith, strcmp_antisym s t)
compare_places_swap (text s) q h = ground arith

compare_places_trans :
    (p q r : Place)
    → compare_places p q ≡ some (negsuc 0)
    → compare_places q r ≡ some (negsuc 0)
    → compare_places p r ≡ some (negsuc 0)
compare_places_trans nothing q r h k = ground arith
compare_places_trans (signed x) (signed y) r h k = ground arith
compare_places_trans (unsigned x) (unsigned y) r h k = ground arith
compare_places_trans (enum x) (enum y) r h k = ground arith
compare_places_trans (text s) (text t) (text u) h k = ground (arith, strcmp_less_trans s t u)
compare_places_trans p q r h k = ground arith

compare_places_zero : (p q : Place) → compare_places p q ≡ some (pos 0) → p ≡ q
compare_places_zero nothing q h = ground arith
compare_places_zero (signed x) q h = ground arith
compare_places_zero (unsigned x) q h = ground arith
compare_places_zero (enum x) q h = ground arith
compare_places_zero (text s) (text t) h = ground (arith, strcmp_zero_iff s t)
compare_places_zero (text s) q h = ground arith

-- On values that the module made, libdbo_value_cmp is a strict order where it answers: if it says
-- that a comes before b, it says that b comes behind a; if moreover it says that b comes before c,
-- it says that a comes before c; and if it says that a and b are equal, they hold the same text, the
-- same number in the same class, or nothing.
pub cmp_strict_order :
    (a b c : Value)
    → IsValue a
    → IsValue b
    → IsValue c
    → ((Says (negsuc 0) a b → Says (pos 1) b a)
        × (Says (negsuc 0) a b → Says (negsuc 0) b c → Says (negsuc 0) a c)
        × (Says (pos 0) a b → place (datum a) ≡ place (datum b)))
cmp_strict_order a b c ha hb hc = (
  λ h.
      Says-compare_places _ b a hb ha (compare_places_swap _ _ (compare_places-Says _ a b ha hb h)),
  λ h k. Says-compare_places _ a c ha hc (
      compare_places_trans _ (place (datum b)) _ (compare_places-Says _ a b ha hb h)
        (compare_places-Says _ b c hb hc k)),
  λ h. compare_places_zero _ _ (compare_places-Says _ a b ha hb h),
)
