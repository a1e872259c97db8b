-- ===== src/Value/Examples.antt =====
-- The theorems on values and value sets at concrete inputs, and short runs of the code.
use dbo.Prelude.{◌≡◌, refl, ◌≢◌, inl, none, some, [], ◌∷◌, Status, ok, done, arith, true, replicate}
use dbo.Prelude.Int.{ℤ, pos, negsuc}
use dbo.Prelude.Text.{Memory, codes, same_text}
use dbo.ValueType.{ValueType, EnumSet}
use dbo.Value.{Value, zero_value, copy}
use dbo.Value.Convert.{from_text}
use dbo.Value.Compare.{cmp}
use dbo.Value.Enum.{from_enum_value, from_enum_text, to_enum_value, to_enum_text}
use dbo.Value.Sets
use dbo.Value.Sets.{ValueSet}
use dbo.Value.Storage.{Datum, Reads, converters-store}
use dbo.Value.Copying.{Copied, copy_lem}
use dbo.Value.Order.{Says, answer, compare_places, place, cmp-compare_places, cmp_strict_order}
use dbo.Value.Members.{Chosen, from_enum_lem, to_enum-from_enum, to_enum_text_null}
use dbo.Value.Blocks.{IsBlock, new-IsBlock, at-IsBlock}
use dbo.Value.SetCopying.{CopyOf, new_copy-IsBlock}

abbrev minus_five : Value
minus_five = record zero_value { type = ValueType.int32; int32 = negsuc 4 }

abbrev seven : Value
seven = record zero_value { type = ValueType.int64; int64 = pos 7 }

abbrev ten : Value
ten = record zero_value { type = ValueType.int32; int32 = pos 10 }

abbrev name : Value
name = record zero_value { type = ValueType.text; text = some (codes "bob") }

-- The states of the example program's contacts.
abbrev states : EnumSet
states =
    (record { text = codes "new"; value = pos 1 })
    ∷ (record { text = codes "old"; value = pos 2 })
    ∷ []

abbrev memory : Memory
memory = true ∷ true ∷ true ∷ []

converters-store_example : Reads (some (Datum.text (codes "bob"))) name
unfolding from_text
converters-store_example =
    converters-store (Datum.text (codes "bob")) zero_value name memory (true ∷ true ∷ []) refl refl

copy_lem_example :
    Copied (some zero_value) (some name) memory (copy (some zero_value) (some name) memory)
copy_lem_example = copy_lem (some zero_value) (some name) memory

cmp-compare_places_example :
    cmp (some minus_five) (some seven) (some (pos 9))
    ≡ done (
        answer
          (compare_places
            (place (some (Datum.int32 (negsuc 4))))
            (place (some (Datum.int64 (pos 7)))))
          (pos 9))
cmp-compare_places_example = cmp-compare_places minus_five seven (pos 9) refl refl

cmp_strict_order_example :
    (Says (negsuc 0) minus_five seven → Says (pos 1) seven minus_five)
    × (Says (negsuc 0) minus_five seven
        → Says (negsuc 0) seven ten
        → Says (negsuc 0) minus_five ten)
    × (Says (pos 0) minus_five seven
        → place (some (Datum.int32 (negsuc 4))) ≡ place (some (Datum.int64 (pos 7))))
cmp_strict_order_example = cmp_strict_order minus_five seven ten refl refl refl

from_enum_lem_example :
    Chosen
      (λ e. e.value ≡ pos 2)
      states
      zero_value
      (from_enum_value (some zero_value) (pos 2) (some states))
    × Chosen
        (λ e. e.text ≡ codes "old")
        states
        zero_value
        (from_enum_text (some zero_value) (some (codes "old")) (some states))
from_enum_lem_example = from_enum_lem zero_value (pos 2) (codes "old") states refl

abbrev old_state : Value
old_state = record zero_value {
  type = ValueType.enum;
  enum_value = pos 2;
  enum_text = some (codes "old");
}

to_enum-from_enum_example :
    to_enum_text (some old_state) (some none) (some states) ≡ done (ok, some (some (codes "old")))
unfolding from_enum_text same_text
to_enum-from_enum_example =
    (to_enum-from_enum zero_value old_state (pos 2) (pos 0) (codes "old") states).1 refl

to_enum_text_null_example :
    (s : Status) × (x : ℤ) × (to_enum_value
        (some (record ten { int32 = pos 2 }))
        (some (pos 0))
        (some states)
      ≡ done (s, some x))
    × (to_enum_text (some (record ten { int32 = pos 2 })) (some none) (some states)
        ≡ done (s, some none))
to_enum_text_null_example =
    to_enum_text_null (record ten { int32 = pos 2 }) (pos 0) states (inl refl) refl refl

abbrev five : ValueSet
five = record { values = some (replicate 8 zero_value); size = 5 }

five-IsBlock : IsBlock five (replicate 8 zero_value)
unfolding Sets.pool_to_delete
five-IsBlock = record { block = refl; pool = refl; room = omega arith; used = omega arith }

new-IsBlock_example : (Sets.new 5 (true ∷ true ∷ [])).0 ≢ none
new-IsBlock_example = (new-IsBlock 5 []).1 (omega arith) (omega arith)

at-IsBlock_example : Sets.at (some five) 5 ≡ done none
at-IsBlock_example = (at-IsBlock five (replicate 8 zero_value) 5 five-IsBlock).1 (omega arith)

new_copy-IsBlock_example : CopyOf five (replicate 8 zero_value) (Sets.new_copy (some five) memory)
new_copy-IsBlock_example = new_copy-IsBlock five (replicate 8 zero_value) memory five-IsBlock

-- The enumeration number 2, read from a database as an integer, converts to ok and no text.
null_text :
    to_enum_text (some (record ten { int32 = pos 2 })) (some none) (some states)
    ≡ done (ok, some none)
unfolding to_enum_text
null_text = refl
