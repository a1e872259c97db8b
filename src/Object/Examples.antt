-- ===== src/Object/Examples.antt =====
-- The theorems on the calls of an object at a concrete object.
use dbo.Prelude.{◌≡◌, true, some, none, [], ◌∷◌, ok, done, ◌==◌, if◌then◌else◌}
use dbo.Prelude.Text.{codes}
use dbo.Clause.Tree.{absent}
use dbo.Backend.Functions.{Handle, zero_handle}
use dbo.Object.Calls
use dbo.Object.Calls.{Object, Connections}
use dbo.Object.Dispatch.{
  deletes, write, answer, answer_rows, answer_count, called, called_read, called_count,
  write-answer, read-answer,
}

abbrev handle : Handle Unit Unit
handle = record zero_handle {
  delete_function = some λ d o l. done (ok, d);
  count_function = some λ d o joins l n. done (ok, some 5, d);
  own_data = some tt;
}

abbrev connections : Connections Unit Unit
connections p =
    if p == 1
    then some (record {
      configuration_list = none;
      backend = some (record { name = none; handle = some handle });
    })
    else none

abbrev object : Object Unit
object = record {
  connection = some 1;
  table = some (codes "t");
  primary_key_name = some (codes "id");
  object_field_list = some [];
  backend_meta_data_list = none;
}

write-answer_example :
    write connections (some object) (deletes absent)
    ≡ answer connections (called object connections (deletes absent))
write-answer_example = write-answer connections object (deletes absent)

read-answer_example :
    (Calls.read connections (some object) none absent (true ∷ [])
      ≡ answer_rows connections
          (true ∷ [])
          (called_read object connections none absent (true ∷ [])))
    × (Calls.count connections (some object) none absent (some 0)
        ≡ answer_count connections (some 0) (called_count object connections none absent (some 0)))
read-answer_example = read-answer connections object none absent (true ∷ []) (some 0)
