-- ===== src/Result.antt =====
-- src/libdbo_result.c: results; Result/Lists holds the result lists.
pub mod Lists
pub mod Fetching
pub mod Walking
mod Examples
use dbo.Prelude.{
  Option, none, some, List, Status, ok, error_unknown, is_some, if◌then◌else◌, Outcome, done,
  undefined,
}
use dbo.Prelude.Text.{Memory, allocate}
use dbo.Value.Sets
use dbo.Value.Sets.{ValueSet}
use dbo.Backend.MetaData
use dbo.Backend.MetaData.{MetaData}

-- struct libdbo_result, without `next`
pub record Result : Type 0 where
  pub value_set : Option ValueSet
  pub backend_meta_data_list : Option (List MetaData)

abbrev pub zero_result : Result
zero_result = record { value_set = none; backend_meta_data_list = none }

-- libdbo_result_set_value_set
unfoldable pub set_value_set : Option Result → Option ValueSet → Status × Option Result
set_value_set none s = (error_unknown, none)
set_value_set (some r) none = (error_unknown, some r)
set_value_set (some r) (some s) =
    if is_some r.value_set
    then (error_unknown, some r)
    else (ok, some (record r { value_set = some s }))

-- libdbo_result_set_backend_meta_data_list
unfoldable pub set_backend_meta_data_list :
    Option Result → Option (List MetaData) → Status × Option Result
set_backend_meta_data_list none l = (error_unknown, none)
set_backend_meta_data_list (some r) none = (error_unknown, some r)
set_backend_meta_data_list (some r) (some l) =
    if is_some r.backend_meta_data_list
    then (error_unknown, some r)
    else (ok, some (record r { backend_meta_data_list = some l }))

-- libdbo_result_not_empty
unfoldable pub not_empty : Option Result → Status
not_empty none = error_unknown
not_empty (some r) = if is_some r.value_set then ok else error_unknown

-- The end of libdbo_result_copy, once the value set is copied: the meta data, then both are put in
-- place of what the target had.
unfoldable pub copy_meta_data :
    Result → Option ValueSet → Option (List MetaData) → Memory → Status × Option Result × Memory
unfolding MetaData.list_new_copy
copy_meta_data r s none m = (ok, some (record { value_set = s; backend_meta_data_list = none }), m)
copy_meta_data r s (some l) m = elim ((MetaData.list_new_copy (some l) m).0) [
  | none ↦ (error_unknown, some r, (MetaData.list_new_copy (some l) m).1)
  | some l' ↦ (
    ok,
    some (record { value_set = s; backend_meta_data_list = some l' }),
    (MetaData.list_new_copy (some l) m).1,
  )
]

-- libdbo_result_copy
unfoldable pub copy :
    Option Result → Option Result → Memory → Outcome (Status × Option Result × Memory)
unfolding copy_meta_data Sets.new_copy
copy none from m = done (error_unknown, none, m)
copy (some r) none m = done (error_unknown, some r, m)
copy (some r) (some from) m = elim from.value_set [
  | none ↦ done (copy_meta_data r none from.backend_meta_data_list m)
  | some s ↦ elim (Sets.new_copy (some s) m) [
    | undefined ↦ undefined
    | done (none, m') ↦ done (error_unknown, some r, m')
    | done (some s', m') ↦ done (copy_meta_data r (some s') from.backend_meta_data_list m')
  ]
]

-- libdbo_result_new_copy
unfoldable pub new_copy : Option Result → Memory → Outcome (Option Result × Memory)
unfolding copy
new_copy none m = done (none, m)
new_copy (some from) m =
    if (allocate m).0
    then elim (copy (some zero_result) (some from) ((allocate m).1)) [
      | undefined ↦ undefined
      | done (ok, r, m') ↦ done (r, m')
      | done (error_unknown, r, m') ↦ done (none, m')
    ]
    else done (none, (allocate m).1)
