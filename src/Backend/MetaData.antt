-- ===== src/Backend/MetaData.antt =====
-- src/libdbo_backend.c: meta data and meta data lists. A list is its meta data in order; list_add,
-- which is Chain.add with the `not_empty` of this module, puts one behind the others.
use dbo.Prelude.{
  Option, none, some, List, [], ◌∷◌, ◌++◌, Status, ok, error_unknown, is_ok, is_some, not,
  if◌then◌else◌, Outcome, done, undefined, Bool, false,
}
use dbo.Prelude.Text.{Text, same_text, Memory, allocate, strdup}
use dbo.Value
use dbo.Value.{Value}

-- struct libdbo_backend_meta_data, without `next`
pub record MetaData : Type 0 where
  pub name : Option Text
  pub value : Option Value

abbrev pub zero_meta_data : MetaData
zero_meta_data = record { name = none; value = none }

-- The name of a copy: the target's is freed first, and the source's is copied.
abbrev pub copy_name : Option Text → Memory → Status × Option Text × Memory
copy_name none m = (ok, none, m)
copy_name (some n) m = elim ((strdup n m).0) [
  | none ↦ (error_unknown, none, (strdup n m).1)
  | some copy ↦ (ok, some copy, (strdup n m).1)
]

-- The target's value that libdbo_value_copy writes to: reset, or new.
unfoldable pub fresh_value : Option Value → Memory → Option Value × Memory
unfolding Value.reset Value.new
fresh_value (some v) m = (Value.reset (some v), m)
fresh_value none m = Value.new m

-- The value of a copy.
unfoldable pub copy_value : Option Value → Option Value → Memory → Status × Option Value × Memory
unfolding Value.copy fresh_value
copy_value v none m = (ok, none, m)
copy_value v (some from) m = elim ((fresh_value v m).0) [
  | none ↦ (error_unknown, none, (fresh_value v m).1)
  | some w ↦ Value.copy (some w) (some from) ((fresh_value v m).1)
]

-- libdbo_backend_meta_data_copy
unfoldable pub copy : Option MetaData → Option MetaData → Memory → Status × Option MetaData × Memory
copy none from m = (error_unknown, none, m)
copy (some d) none m = (error_unknown, some d, m)
copy (some d) (some from) m =
    let named = copy_name from.name m in
    let valued = copy_value d.value from.value (named.2) in
    if is_ok (named.0)
    then (valued.0, some (record { name = named.1; value = valued.1 }), valued.2)
    else (error_unknown, some (record d { name = none }), named.2)

-- libdbo_backend_meta_data_new_copy
unfoldable pub new_copy : Option MetaData → Memory → Option MetaData × Memory
unfolding copy
new_copy none m = (none, m)
new_copy (some from) m =
    let copied = copy (some zero_meta_data) (some from) ((allocate m).1) in
    if not ((allocate m).0)
    then (none, (allocate m).1)
    else ((if is_ok (copied.0) then copied.1 else none), copied.2)

-- libdbo_backend_meta_data_set_name; NULL is given to strdup untested
unfoldable pub set_name :
    Option MetaData → Option Text → Memory → Outcome (Status × Option MetaData × Memory)
set_name none n m = done (error_unknown, none, m)
set_name (some d) none m = undefined
set_name (some d) (some n) m = elim ((strdup n m).0) [
  | none ↦ done (error_unknown, some d, (strdup n m).1)
  | some copy ↦ done (ok, some (record d { name = some copy }), (strdup n m).1)
]

-- libdbo_backend_meta_data_set_value
unfoldable pub set_value : Option MetaData → Option Value → Status × Option MetaData
set_value none v = (error_unknown, none)
set_value (some d) v =
    if is_some d.value then (error_unknown, some d) else (ok, some (record d { value = v }))

-- libdbo_backend_meta_data_not_empty
unfoldable pub not_empty : Option MetaData → Status
not_empty none = error_unknown
not_empty (some d) =
    if not (is_some d.name)
    then error_unknown
    else if not (is_some d.value)
    then error_unknown
    else ok

-- One round of the loop of libdbo_backend_meta_data_list_copy once the copy is made: it is added to
-- the list, or freed.
unfoldable pub added :
    List MetaData
    → Status × Option MetaData × Memory
    → (List MetaData → Memory → Status × List MetaData × Memory)
    → Status × List MetaData × Memory
unfolding not_empty
added to (error_unknown, c, m) rest = (error_unknown, to, m)
added to (ok, none, m) rest = (error_unknown, to, m)
added to (ok, some c, m) rest =
    if is_ok (not_empty (some c)) then rest (to ++ (c ∷ [])) m else (error_unknown, to, m)

-- The loop; `to` is the list so far.
unfoldable pub copy_loop : List MetaData → List MetaData → Memory → Status × List MetaData × Memory
unfolding copy added
copy_loop to [] m = (ok, to, m)
copy_loop to (d ∷ ds) m =
    let next =
      added to (copy (some zero_meta_data) (some d) ((allocate m).1)) λ l m'. copy_loop l ds m' in
    if (allocate m).0 then next else (error_unknown, to, (allocate m).1)

-- libdbo_backend_meta_data_list_copy; what the target holds is freed first
unfoldable pub list_copy :
    Option (List MetaData)
    → Option (List MetaData)
    → Memory
    → Status × Option (List MetaData) × Memory
unfolding copy_loop
list_copy none from m = (error_unknown, none, m)
list_copy (some to) none m = (error_unknown, some to, m)
list_copy (some to) (some ds) m =
    let copied = copy_loop [] ds m in (copied.0, some (copied.1), copied.2)

-- libdbo_backend_meta_data_list_new_copy
unfoldable pub list_new_copy : Option (List MetaData) → Memory → Option (List MetaData) × Memory
unfolding list_copy
list_new_copy none m = (none, m)
list_new_copy (some ds) m =
    let copied = list_copy (some []) (some ds) ((allocate m).1) in
    if not ((allocate m).0)
    then (none, (allocate m).1)
    else ((if is_ok (copied.0) then copied.1 else none), copied.2)

-- `!strcmp(backend_meta_data->name, name)`, the name being set
abbrev pub has_name : MetaData → Text → Bool
has_name d n = elim d.name [ none ↦ false | some given ↦ same_text given n ]

-- libdbo_backend_meta_data_list_find
unfoldable pub find_loop : List MetaData → Text → Option MetaData
unfolding not_empty
find_loop [] n = none
find_loop (d ∷ ds) n =
    let rest = find_loop ds n in
    if not (is_ok (not_empty (some d))) then none else if has_name d n then some d else rest

unfoldable pub find : Option (List MetaData) → Option Text → Option MetaData
unfolding find_loop
find none n = none
find (some ds) none = none
find (some ds) (some n) = find_loop ds n
