-- ===== src/ValueType.antt =====
-- src/libdbo/type.h: the types of a database value, with the numbers that C gives them, and
-- src/libdbo/enum.h: an enumeration set, the entries before its terminating NULL text.
use dbo.Prelude.{ℕ, Bool, List, ◌==◌, ◌≡◌, ◌↔◌, true, arith}
use dbo.Prelude.Int.{ℤ}
use dbo.Prelude.Text.{Text}

pub data ValueType : Type 0 where
  empty primary_key int32 uint32 int64 uint64 text enum any revision : ValueType

abbrev pub number : ValueType → ℕ
number empty = 0
number primary_key = 1
number int32 = 2
number uint32 = 3
number int64 = 4
number uint64 = 5
number text = 6
number enum = 7
number any = 8
number revision = 9

-- a == b on libdbo_type_t
abbrev pub is : ValueType → ValueType → Bool
is a b = number a == number b

pub is_iff : (a b : ValueType) → (is a b ≡ true) ↔ (a ≡ b)
is_iff a b = ground arith

pub record EnumItem : Type 0 where
  pub text : Text
  pub value : ℤ

abbrev pub EnumSet : Type 0
EnumSet = List EnumItem
