-- ===== src/Backend/Making.antt =====
-- What libdbo_backend_factory_get_backend of src/libdbo_backend.c gives.
use mathlib.Core.Path.{subst}
use dbo.Prelude.{
  ◌≡◌, refl, sym, true, false, Option, none, some, ok, error_unknown, ◌⊎◌, inl, inr, Outcome, done,
  Bool-cases, Option-cases, arith, [], ◌∷◌, Outcome-cases,
}
use dbo.Prelude.Text.{Text, codes, same_text, eq_of_same_text, Memory}
use dbo.Backend.Functions
use dbo.Backend.Functions.{Handle, Answer}
use dbo.Backend
use dbo.Backend.{Backend, zero_backend}
use dbo.Backend.Factory.{Maker, Makers, equip, build, get_named, branch, get_backend}

module _ {Data Rows : Type 0} where
  -- A backend that was made for a name: it has the name, and its handle is the one that was made
  -- for it, as its function for initializing, which answered ok, left it.
  pub record Made (maker : Maker Data Rows) (name : Text) (b : Backend Data Rows) : Type 0 where
    pub named : b.name ≡ some name
    pub handle : Handle Data Rows
    pub memory : Memory
    pub made : (maker memory).0 ≡ some handle
    pub initialized : Functions.initialize (some handle) ≡ done (ok, b.handle)

  -- What is left once the backend and its name are allocated.
  equipped :
      (name : Text) (maker : Maker Data Rows) (m m' : Memory) (b : Backend Data Rows)
      (o : Option (Handle Data Rows))
      → (maker m).0 ≡ o
      → get_named name maker (true ∷ true ∷ m) ≡ done (some b, m')
      → Made maker name b
  unfolding get_named build equip Backend.set_name Backend.set_handle Backend.free Functions.free
      Backend.pass Functions.pass
  equipped name maker m m' b none made h = absurd (ground (arith, made, h))
  equipped name maker m m' b (some handle) made h = elim (Option-cases handle.initialize_function) [
    | inl unset ↦ absurd (ground (arith, made, unset, h))
    | inr (f, is_set) ↦ elim (Outcome-cases (f handle.own_data)) [
      | inl crash ↦ absurd (ground (arith, made, is_set, crash, h))
      | inr ((ok, d), answered) ↦ record {
        named = ground (arith, made, is_set, answered, h);
        handle = handle;
        memory = m;
        made = made;
        initialized = ground (arith, made, is_set, answered, h);
      }
      | inr ((error_unknown, d), answered) ↦ absurd (ground (arith, made, is_set, answered, h))
    ]
  ]

  get_named-Made :
      (name : Text) (maker : Maker Data Rows) (m m' : Memory) (b : Backend Data Rows)
      → get_named name maker m ≡ done (some b, m')
      → Made maker name b
  unfolding get_named build equip Backend.set_name Backend.set_handle Backend.free Functions.free
      Backend.pass Functions.pass
  get_named-Made name maker [] m' b h = absurd (ground (arith, h))
  get_named-Made name maker (false ∷ m) m' b h = absurd (ground (arith, h))
  get_named-Made name maker (true ∷ []) m' b h = absurd (ground (arith, h))
  get_named-Made name maker (true ∷ false ∷ m) m' b h = absurd (ground (arith, h))
  get_named-Made name maker (true ∷ true ∷ m) m' b h = equipped name maker m m' b _ refl h

  -- The branch that a name takes: the backends that are compiled in, by name.
  abbrev pub Chosen : Makers Data Rows → Text → Maker Data Rows → Type 0
  Chosen makers name maker =
      ((name ≡ codes "sqlite") × (makers.sqlite ≡ some maker))
      ⊎ ((name ≡ codes "couchdb") × (makers.couchdb ≡ some maker))
      ⊎ ((name ≡ codes "mysql") × (makers.mysql ≡ some maker))

  branch-Made :
      (known : Text) (o : Option (Maker Data Rows)) (name : Text) (m m' : Memory)
      (rest : Outcome (Option (Backend Data Rows) × Memory)) (b : Backend Data Rows)
      → branch known o name m rest ≡ done (some b, m')
      → ((maker : Maker Data Rows) × (name ≡ known) × (o ≡ some maker) × Made maker name b)
        ⊎ (rest ≡ done (some b, m'))
  unfolding branch
  branch-Made known none name m m' rest b h = inr h
  branch-Made known (some maker) name m m' rest b h = elim (Bool-cases (same_text name known)) [
    | inr other ↦ inr (ground (arith, other, h))
    | inl same ↦
        let known_name = eq_of_same_text name known same in
        inl (
          maker,
          known_name,
          refl,
          subst (λ n. Made maker n b) (sym known_name)
              (get_named-Made known maker m m' b (ground (arith, same, h))),
        )
  ]

  -- A backend that the factory gives for a name is one that is compiled in under that name: it has
  -- the name, and its handle is the one that the backend's own new_handle made, which is not NULL,
  -- as its initialize function, which is set and has answered ok, left it.
  pub get_backend-Made :
      (makers : Makers Data Rows) (name : Text) (m m' : Memory) (b : Backend Data Rows)
      → get_backend makers (some name) m ≡ done (some b, m')
      → (maker : Maker Data Rows) × Chosen makers name maker × Made maker name b
  unfolding get_backend
  get_backend-Made makers name m m' b h = elim (branch-Made _ _ name m m' _ b h) [
    | inl (maker, e, o, made) ↦ (maker, inl (e, o), made)
    | inr h₂ ↦ elim (branch-Made _ _ name m m' _ b h₂) [
      | inl (maker, e, o, made) ↦ (maker, inr (inl (e, o)), made)
      | inr h₃ ↦ elim (branch-Made _ _ name m m' _ b h₃) [
        | inl (maker, e, o, made) ↦ (maker, inr (inr (e, o)), made)
        | inr h₄ ↦ absurd (ground (arith, h₄))
      ]
    ]
  ]
