-- ===== src/Result/Examples.antt =====
-- The theorems on result lists at a concrete source.
use dbo.Prelude.{
  ℕ, zero, suc, ◌≡◌, refl, true, false, none, some, Option, [], ◌∷◌, ◌++◌, done, arith, length, ◌%◌,
  ◌^◌,
}
use dbo.Value.{zero_value}
use dbo.Result.{Result, not_empty}
use dbo.Result.Lists.{Next, ResultList, zero_list, fetch_all, fetch_loop, add}
use dbo.Result.Fetching.{Yields, ends, gives, full, status_of, fetch_all-full}
use dbo.Result.Walking.{walk, walk-fetch_all}

abbrev row : Result
row = record {
  value_set = some (record { values = some (zero_value ∷ []); size = 1 });
  backend_meta_data_list = none;
}

-- A source that has a number of rows left.
abbrev rows : Next ℕ
rows none b = done (none, none)
rows (some n) true = done (none, some n)
rows (some zero) false = done (none, some zero)
rows (some (suc n)) false = done (some row, some n)

abbrev two : ResultList ℕ
two = record zero_list { next_function = some rows; next_data = some 2 }

yields : Yields rows (some 0) (some 2) (row ∷ row ∷ [])
yields = gives refl (gives refl (ends refl))

gives_back : (x : Option ℕ) → (y : Option Result × Option ℕ) × (rows x true ≡ done y)
gives_back none = ((none, none), refl)
gives_back (some n) = ((none, some n), refl)

fetch_all-full_example :
    fetch_all 3 (some two)
    ≡ some (
        done (
          status_of (row ∷ row ∷ []),
          some (record two {
            results = [] ++ full (row ∷ row ∷ []);
            next_function = none;
            next_data = none;
            size = length (full (row ∷ row ∷ [])) % 2 ^ 64;
          }),
        ))
fetch_all-full_example =
    fetch_all-full rows 3 two (some 0) _ refl refl yields gives_back (omega arith)

abbrev fetched_list : ResultList ℕ
fetched_list = record zero_list { results = row ∷ row ∷ []; size = 2 }

walk-fetch_all_example :
    (walk 3 two ≡ some (done (row ∷ row ∷ [])))
    × (walk 3 fetched_list ≡ some (done (row ∷ row ∷ [])))
unfolding fetch_all fetch_loop add not_empty
walk-fetch_all_example =
    walk-fetch_all 3 rows two fetched_list (some 0) _ refl refl refl yields gives_back (omega arith)
      refl
