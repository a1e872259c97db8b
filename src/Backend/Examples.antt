-- ===== src/Backend/Examples.antt =====
-- The theorems on the factory and on meta data at concrete backends and lists.
use dbo.Prelude.{refl, true, some, none, [], ◌∷◌, done, ok}
use dbo.Prelude.Text.{codes, Memory, same_text}
use dbo.Prelude.Int.{pos}
use dbo.Value.{zero_value}
use dbo.ValueType.{ValueType}
use dbo.Backend.Functions
use dbo.Backend.Functions.{Handle, zero_handle}
use dbo.Backend
use dbo.Backend.{Backend}
use dbo.Backend.Factory.{Maker, Makers, get_backend, branch, get_named, build, equip}
use dbo.Backend.Making.{Made, Chosen, get_backend-Made}
use dbo.Backend.MetaData.{MetaData, list_copy}
use dbo.Backend.MetaCopying.{IsCopy, list_copy-IsCopy}

abbrev handle : Handle Unit Unit
handle = record zero_handle { initialize_function = some λ d. done (ok, d); own_data = some tt }

abbrev maker : Maker Unit Unit
maker m = (some handle, m)

abbrev makers : Makers Unit Unit
makers = record { sqlite = some maker; couchdb = none; mysql = none }

abbrev enough : Memory
enough = true ∷ true ∷ []

get_backend-Made_example :
    (x : Maker Unit Unit) × Chosen makers (codes "sqlite") x
    × Made x (codes "sqlite") (record { name = some (codes "sqlite"); handle = some handle })
unfolding get_backend branch get_named build equip Backend.set_name Backend.set_handle Backend.pass
    Functions.pass same_text
get_backend-Made_example = get_backend-Made makers (codes "sqlite") enough [] _ refl

abbrev revision : MetaData
revision = record {
  name = some (codes "rev");
  value = some (record zero_value { type = ValueType.int32; int32 = pos 7 });
}

list_copy-IsCopy_example :
    IsCopy
      (revision ∷ [])
      (list_copy (some (revision ∷ revision ∷ [])) (some (revision ∷ [])) (true ∷ true ∷ true ∷ []))
list_copy-IsCopy_example = list_copy-IsCopy (revision ∷ revision ∷ []) (revision ∷ []) _
