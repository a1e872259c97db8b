-- ===== src/Join.antt =====
-- src/libdbo_join.c: a join, its setters and its test; the record is struct libdbo_join without
-- `next`.
use dbo.Prelude.{Option, none, some, not, Status, ok, error_unknown, if◌then◌else◌, is_some}
use dbo.Prelude.Text.{Text, Memory, strdup, allocate}
use dbo.Prelude.Run.{Run, returns, crashes}

pub record Join : Type 0 where
  pub from_table : Option Text
  pub from_field : Option Text
  pub to_table : Option Text
  pub to_field : Option Text

-- libdbo_join_new
unfoldable pub new : Memory → Option Join × Memory
new m =
    let empty =
      some (record { from_table = none; from_field = none; to_table = none; to_field = none }) in
    ((if (allocate m).0 then empty else none), (allocate m).1)

-- The four setters, which differ in the field: `put` sets it. strdup of NULL is not guarded.
abbrev set :
    (Text → Join → Join) → Option Join → Option Text → Memory → Run (Status × Option Join × Memory)
set put none t m = returns (error_unknown, none, m)
set put (some j) none m = crashes
set put (some j) (some t) m =
    let copied = strdup t m in
    returns (elim copied.0 [
      | none ↦ (error_unknown, some j, copied.1)
      | some t' ↦ (ok, some (put t' j), copied.1)
    ])

-- libdbo_join_set_from_table
unfoldable pub set_from_table :
    Option Join → Option Text → Memory → Run (Status × Option Join × Memory)
set_from_table = set λ t j. record j { from_table = some t }

-- libdbo_join_set_from_field
unfoldable pub set_from_field :
    Option Join → Option Text → Memory → Run (Status × Option Join × Memory)
set_from_field = set λ t j. record j { from_field = some t }

-- libdbo_join_set_to_table
unfoldable pub set_to_table :
    Option Join → Option Text → Memory → Run (Status × Option Join × Memory)
set_to_table = set λ t j. record j { to_table = some t }

-- libdbo_join_set_to_field
unfoldable pub set_to_field :
    Option Join → Option Text → Memory → Run (Status × Option Join × Memory)
set_to_field = set λ t j. record j { to_field = some t }

-- libdbo_join_not_empty
unfoldable pub not_empty : Option Join → Status
not_empty none = error_unknown
not_empty (some j) =
    if not (is_some j.from_table)
    then error_unknown
    else if not (is_some j.from_field)
    then error_unknown
    else if not (is_some j.to_table)
    then error_unknown
    else if not (is_some j.to_field)
    then error_unknown
    else ok
