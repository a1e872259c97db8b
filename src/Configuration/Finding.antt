-- ===== src/Configuration/Finding.antt =====
-- What the search of a configuration list in src/libdbo_configuration.c finds.
use mathlib.Core.Path.{subst}
use dbo.Prelude.{
  ◌≡◌, ◌↔◌, some, List, [], ◌∷◌, ◌++◌, false, ok, Bool-cases, Option-cases, inl, inr, All, arith,
}
use dbo.Prelude.Text.{Text, same_text, same_text_refl, eq_of_same_text}
use dbo.Configuration.{Configuration, find, find_loop, not_empty, has_name}

-- The entry of a list that has a name: it has a value, and it is the first of that name, those before
-- it being complete.
pub record Found (cs : List Configuration) (name value : Text) : Type 0 where
  pub before : List Configuration
  pub after : List Configuration
  pub whole : cs ≡ before ++ (record { name = some name; value = some value } ∷ after)
  pub others : All (λ c. (not_empty (some c) ≡ ok) × (has_name c name ≡ false)) before

pub find_loop-Found :
    (cs : List Configuration) (name : Text) (c : Configuration)
    → find_loop cs name ≡ some c
    → (value : Text) × (c.value ≡ some value) × Found cs name value
unfolding find_loop not_empty
find_loop-Found [] name c h = absurd (ground (arith, h))
find_loop-Found (d ∷ cs) name c h = elim (Option-cases d.name) [
  | inl unnamed ↦ absurd (ground (arith, unnamed, h))
  | inr (n, named) ↦ elim (Option-cases d.value) [
    | inl unset ↦ absurd (ground (arith, named, unset, h))
    | inr (v, is_set) ↦ elim (Bool-cases (same_text n name)) [
      | inl same ↦ (
        v,
        ground (arith, named, is_set, same, h),
        record {
          before = [];
          after = cs;
          whole = ground (arith, named, is_set, eq_of_same_text n name same);
          others = tt;
        },
      )
      | inr other ↦
          let (value, has, found) =
            find_loop-Found cs name c (ground (arith, named, is_set, other, h)) in
          (
            value,
            has,
            record {
              before = d ∷ found.before;
              after = found.after;
              whole = ground (arith, found.whole);
              others =
                  ((ground (arith, named, is_set), ground (arith, named, other)), found.others);
            },
          )
    ]
  ]
]

find_loop-entry :
    (name value : Text) (before after : List Configuration)
    → All (λ c. (not_empty (some c) ≡ ok) × (has_name c name ≡ false)) before
    → find_loop (before ++ (record { name = some name; value = some value } ∷ after)) name
      ≡ some (record { name = some name; value = some value })
unfolding find_loop not_empty
find_loop-entry name value [] after h = ground (arith, same_text_refl name)
find_loop-entry name value (d ∷ before) after h =
    ground (arith, h.0.0, h.0.1, find_loop-entry name value before after h.1)

-- The search of a configuration list for a name gives an entry of that name and some value exactly
-- if it is the first of that name in the list and all those before it have a name and a value.
pub find_iff :
    (cs : List Configuration) (name value : Text)
    → (find (some cs) (some name) ≡ some (record { name = some name; value = some value }))
      ↔ Found cs name value
unfolding find
find_iff cs name value = (
  λ h.
      let (v, has, found) = find_loop-Found cs name _ h in
      subst (Found cs name) (ground (arith, has)) found,
  λ f. ground (arith, f.whole, find_loop-entry name value f.before f.after f.others),
)
