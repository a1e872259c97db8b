-- ===== src/Connection/Examples.antt =====
-- The theorem on the setup of a connection at a concrete connection.
use dbo.Prelude.{◌≡◌, ◌⊎◌, refl, true, some, none, [], ◌∷◌, done, ok}
use dbo.Prelude.Text.{codes, same_text}
use dbo.Configuration
use dbo.Backend.Functions
use dbo.Backend.Functions.{Handle, zero_handle}
use dbo.Backend
use dbo.Backend.{Backend}
use dbo.Backend.Factory.{Maker, Makers, get_backend, branch, get_named, build, equip}
use dbo.Connection.{Connection, setup, find_backend}
use dbo.Connection.Setup.{Configured, setup_lem}

abbrev handle : Handle Unit Unit
handle = record zero_handle { initialize_function = some λ d. done (ok, d); own_data = some tt }

abbrev maker : Maker Unit Unit
maker m = (some handle, m)

abbrev makers : Makers Unit Unit
makers = record { sqlite = some maker; couchdb = none; mysql = none }

abbrev before : Connection Unit Unit
before = record {
  configuration_list =
      some (record { name = some (codes "backend"); value = some (codes "sqlite") } ∷ []);
  backend = none;
}

abbrev after : Connection Unit Unit
after = record before {
  backend = some (record { name = some (codes "sqlite"); handle = some handle });
}

setup_lem_example :
    ((before.backend ≡ none) × Configured makers before after)
    ⊎ ((b : Backend Unit Unit) × (before.backend ≡ some b)
        × (after ≡ before)
        × ([] ≡ true ∷ true ∷ []))
unfolding setup find_backend get_backend branch get_named build equip Backend.set_name
    Backend.set_handle Backend.pass Functions.pass same_text Configuration.find
    Configuration.find_loop Configuration.value_of Configuration.not_empty
setup_lem_example = setup_lem makers before after (true ∷ true ∷ []) [] refl
