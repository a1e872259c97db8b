-- ===== src/Configuration/Examples.antt =====
-- The theorem on the search of a configuration list at a concrete list.
use dbo.Prelude.{◌≡◌, ◌↔◌, some, List, [], ◌∷◌}
use dbo.Prelude.Text.{codes}
use dbo.Configuration.{Configuration, find}
use dbo.Configuration.Finding.{Found, find_iff}

abbrev configurations : List Configuration
configurations =
    record { name = some (codes "backend"); value = some (codes "sqlite") }
    ∷ record { name = some (codes "file"); value = some (codes "t.db") }
    ∷ []

find_iff_example :
    (find (some configurations) (some (codes "file"))
      ≡ some (record { name = some (codes "file"); value = some (codes "t.db") }))
    ↔ Found configurations (codes "file") (codes "t.db")
find_iff_example = find_iff configurations (codes "file") (codes "t.db")
