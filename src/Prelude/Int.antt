-- ===== src/Prelude/Int.antt =====
-- The C signed integers as mathematical integers, with the conversions that the code relies on.
use Prim.Native.Nat.{ℕ, suc, ◌+◌, ◌-◌, ◌≤◌, ◌<◌, ◌^◌, ◌%◌}
use mathlib.Core.Path.{◌≡◌}
use mathlib.Core.Bool.{Bool, true}
use mathlib.Core.Logic.{◌↔◌}
use native.Mathlib.Omega.{arith}
use dbo.Prelude.Tests.{ltb, ◌==◌, if◌then◌else◌}

-- `negsuc n` is -(n + 1).
pub data ℤ : Type 0 where
  pos : ℕ → ℤ
  negsuc : ℕ → ℤ

abbrev pub pos_part : ℤ → ℕ
pos_part (pos n) = n
pos_part (negsuc n) = 0

abbrev pub neg_part : ℤ → ℕ
neg_part (pos n) = 0
neg_part (negsuc n) = suc n

infix 50 ◌<ℤ◌ ◌==ℤ◌
abbrev pub ◌<ℤ◌ : ℤ → ℤ → Bool
a <ℤ b = ltb (pos_part a + neg_part b) (pos_part b + neg_part a)

abbrev pub ◌==ℤ◌ : ℤ → ℤ → Bool
a ==ℤ b = pos_part a + neg_part b == pos_part b + neg_part a

pub ==ℤ_iff : (a b : ℤ) → ((a ==ℤ b) ≡ true) ↔ (a ≡ b)
==ℤ_iff a b = ground arith

-- Addition of one, as in `revision_number + 1`.
abbrev pub suc_ℤ : ℤ → ℤ
suc_ℤ (pos n) = pos (n + 1)
suc_ℤ (negsuc n) = if n == 0 then pos 0 else negsuc (n - 1)

-- Fits a signed type of `w + 1` bits.
abbrev pub IsSigned : ℕ → ℤ → Type 0
IsSigned w a = (pos_part a < 2 ^ w) × (neg_part a ≤ 2 ^ w)

-- The conversions between a 32-bit or 64-bit unsigned integer and the signed one of that width,
-- reduced modulo the width, as gcc and clang define them.
abbrev pub to_signed32 : ℕ → ℤ
to_signed32 n = if ltb n (2 ^ 31) then pos n else negsuc (2 ^ 32 - 1 - n)

abbrev pub to_signed64 : ℕ → ℤ
to_signed64 n = if ltb n (2 ^ 63) then pos n else negsuc (2 ^ 64 - 1 - n)

abbrev pub to_unsigned32 : ℤ → ℕ
to_unsigned32 (pos n) = n % 2 ^ 32
to_unsigned32 (negsuc n) = 2 ^ 32 - 1 - n % 2 ^ 32

abbrev pub to_unsigned64 : ℤ → ℕ
to_unsigned64 (pos n) = n % 2 ^ 64
to_unsigned64 (negsuc n) = 2 ^ 64 - 1 - n % 2 ^ 64

pub unsigned32-signed32 : (n : ℕ) → n < 2 ^ 32 → to_unsigned32 (to_signed32 n) ≡ n
unsigned32-signed32 n h = ground arith

pub unsigned64-signed64 : (n : ℕ) → n < 2 ^ 64 → to_unsigned64 (to_signed64 n) ≡ n
unsigned64-signed64 n h = ground arith
