-- ===== src/Configuration.antt =====
-- src/libdbo_configuration.c: configurations and the search of a configuration list. A list is its
-- configurations in order; its list_add is Chain.add with the `not_empty` of this module.
pub mod Finding
mod Examples
use dbo.Prelude.{
  Option, none, some, List, [], ◌∷◌, Status, ok, error_unknown, is_some, not, is_ok, Bool, false,
  if◌then◌else◌,
}
use dbo.Prelude.Text.{Text, same_text, Memory, strdup}

-- struct libdbo_configuration, without `next`
pub record Configuration : Type 0 where
  pub name : Option Text
  pub value : Option Text

-- libdbo_configuration_set_name
unfoldable pub set_name :
    Option Configuration → Option Text → Memory → Status × Option Configuration × Memory
set_name none n m = (error_unknown, none, m)
set_name (some c) none m = (error_unknown, some c, m)
set_name (some c) (some n) m = elim ((strdup n m).0) [
  | none ↦ (error_unknown, some c, (strdup n m).1)
  | some copy ↦ (ok, some (record c { name = some copy }), (strdup n m).1)
]

-- libdbo_configuration_set_value
unfoldable pub set_value :
    Option Configuration → Option Text → Memory → Status × Option Configuration × Memory
set_value none v m = (error_unknown, none, m)
set_value (some c) none m = (error_unknown, some c, m)
set_value (some c) (some v) m = elim ((strdup v m).0) [
  | none ↦ (error_unknown, some c, (strdup v m).1)
  | some copy ↦ (ok, some (record c { value = some copy }), (strdup v m).1)
]

-- libdbo_configuration_value
unfoldable pub value_of : Option Configuration → Option Text
value_of none = none
value_of (some c) = c.value

-- libdbo_configuration_not_empty
unfoldable pub not_empty : Option Configuration → Status
not_empty none = error_unknown
not_empty (some c) =
    if not (is_some c.name)
    then error_unknown
    else if not (is_some c.value)
    then error_unknown
    else ok

-- `!strcmp(configuration->name, name)`, the name being set
abbrev pub has_name : Configuration → Text → Bool
has_name c n = elim c.name [ none ↦ false | some given ↦ same_text given n ]

-- The loop of libdbo_configuration_list_find.
unfoldable pub find_loop : List Configuration → Text → Option Configuration
unfolding not_empty
find_loop [] n = none
find_loop (c ∷ cs) n =
    let rest = find_loop cs n in
    if not (is_ok (not_empty (some c))) then none else if has_name c n then some c else rest

-- libdbo_configuration_list_find
unfoldable pub find : Option (List Configuration) → Option Text → Option Configuration
unfolding find_loop
find none n = none
find (some cs) none = none
find (some cs) (some n) = find_loop cs n
