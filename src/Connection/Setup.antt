-- ===== src/Connection/Setup.antt =====
-- What libdbo_connection_setup of src/libdbo_connection.c does, with the factory of
-- src/libdbo_backend.c and the search of src/libdbo_configuration.c.
use dbo.Prelude.{◌≡◌, ◌⊎◌, some, none, List, ok, Option-cases, Outcome-cases, inl, inr, arith, done}
use dbo.Prelude.Text.{Text, codes, Memory}
use dbo.Configuration.{Configuration}
use dbo.Configuration
use dbo.Configuration.Finding.{Found, find_loop-Found}
use dbo.Backend.{Backend}
use dbo.Backend.Factory.{Maker, Makers, get_backend}
use dbo.Backend.Making.{Chosen, Made, get_backend-Made}
use dbo.Connection.{Connection, setup, find_backend}

module _ {Data Rows : Type 0} where
  -- A connection got its backend from its configuration.
  pub record Configured (makers : Makers Data Rows) (c c' : Connection Data Rows) : Type 0 where
    pub list : List Configuration
    pub listed : c.configuration_list ≡ some list
    pub name : Text
    pub found : Found list (codes "backend") name
    pub maker : Maker Data Rows
    pub chosen : Chosen makers name maker
    pub backend : Backend Data Rows
    pub made : Made maker name backend
    pub after : c' ≡ record c { backend = some backend }

  find_backend-Configured :
      (makers : Makers Data Rows) (c c' : Connection Data Rows) (cs : List Configuration)
      (m m' : Memory)
      → c.configuration_list ≡ some cs
      → find_backend (get_backend makers) c cs m ≡ done (ok, some c', m')
      → Configured makers c c'
  unfolding find_backend Configuration.find Configuration.value_of
  find_backend-Configured makers c c' cs m m' listed h =
      elim (Option-cases (Configuration.find_loop cs (codes "backend"))) [
        | inl missing ↦ absurd (ground (arith, missing, h))
        | inr (entry, hit) ↦
            let (name, has, found) = find_loop-Found cs (codes "backend") entry hit in
            elim (Outcome-cases (get_backend makers (some name) m)) [
              | inl crash ↦ absurd (ground (arith, hit, has, crash, h))
              | inr ((none, m₂), got) ↦ absurd (ground (arith, hit, has, got, h))
              | inr ((some b, m₂), got) ↦
                  let (maker, chosen, made) = get_backend-Made makers name m m₂ b got in
                  record {
                    list = cs;
                    listed = listed;
                    name = name;
                    found = found;
                    maker = maker;
                    chosen = chosen;
                    backend = b;
                    made = made;
                    after = ground (arith, hit, has, got, h);
                  }
            ]
      ]

  -- After a setup that answers ok, either the connection had no backend, the first entry `backend`
  -- of its configuration names a backend that is compiled in, and the connection, otherwise as it
  -- was, has one that was made under that name and initialized; or the connection had a backend, and
  -- nothing has changed.
  pub setup_lem :
      (makers : Makers Data Rows) (c c' : Connection Data Rows) (m m' : Memory)
      → setup (get_backend makers) (some c) m ≡ done (ok, some c', m')
      → ((c.backend ≡ none) × Configured makers c c')
        ⊎ ((b : Backend Data Rows) × (c.backend ≡ some b) × (c' ≡ c) × (m' ≡ m))
  unfolding setup
  setup_lem makers c c' m m' h = elim (Option-cases c.configuration_list) [
    | inl unset ↦ absurd (ground (arith, unset, h))
    | inr (cs, listed) ↦ elim (Option-cases c.backend) [
      | inl new ↦
          inl (
            new,
            find_backend-Configured makers c c' cs m m' listed (ground (arith, listed, new, h)),
          )
      | inr (b, given) ↦
          inr (b, given, ground (arith, listed, given, h), ground (arith, listed, given, h))
    ]
  ]
