-- ===== src/Result/Walking.antt =====
-- Walking a result list of src/libdbo_result.c: a loop over begin and next sees the same results
-- whether they are fetched one by one or have all been fetched before.
use dbo.Prelude.{
  ℕ, zero, suc, ◌+◌, ◌<◌, ◌≡◌, ◌⊎◌, refl, true, Option, none, some, List, [], ◌∷◌, Outcome, done,
  undefined, length, arith, inl, inr, get_elem?, drop, ok,
}
use dbo.Result.{Result}
use dbo.Result.Lists.{
  Next, ResultList, absent, stored, fetched, fetch, begin, next, fetch_all, moved, place,
}
use dbo.Result.Fetching.{Yields, ends, gives, fetch_all-full, full, status_of}

abbrev cons : Result → Option (Outcome (List Result)) → Option (Outcome (List Result))
cons r none = none
cons r (some undefined) = some undefined
cons r (some (done rs)) = some (done (r ∷ rs))

drop-cases :
    (k : ℕ) (rs : List Result)
    → ((drop k rs ≡ []) × (get_elem? rs k ≡ none))
      ⊎ ((r : Result) × (drop k rs ≡ r ∷ drop (suc k) rs) × (get_elem? rs k ≡ some r))
drop-cases zero [] = inl (refl, refl)
drop-cases zero (r ∷ rs) = inr (r, refl, refl)
drop-cases (suc k) [] = inl (refl, refl)
drop-cases (suc k) (r ∷ rs) = drop-cases k rs

plus_one : (k : ℕ) → k + 1 ≡ suc k
plus_one k = omega arith

-- A list that is fetched with the answer ok has taken all results.
full-all : (rs : List Result) → status_of rs ≡ ok → full rs ≡ rs
full-all [] h = refl
full-all (r ∷ rs) h = ground (arith, h, full-all rs)

module _ {Source : Type 0} where
  -- `while (result) { …; result = libdbo_result_list_next(list); }`, for what begin or next gave;
  -- `none` is too little fuel.
  unfoldable pub walk_from :
      ℕ → Outcome (Option Result × Option (ResultList Source)) → Option (Outcome (List Result))
  walk_from zero x = none
  walk_from (suc fuel) undefined = some undefined
  walk_from (suc fuel) (done (none, l)) = some (done [])
  walk_from (suc fuel) (done (some r, l)) = cons r (walk_from fuel (next l))

  -- `result = libdbo_result_list_begin(list); while …`
  unfoldable pub walk : ℕ → ResultList Source → Option (Outcome (List Result))
  unfolding walk_from
  walk fuel l = walk_from fuel (begin (some l))

  -- A list that gets its results from a source.
  walk_from-fetch :
      (fuel : ℕ) (f : Next Source) (l : ResultList Source) (e : Option Source) (rs : List Result)
      → l.next_function ≡ some f
      → Yields f e l.next_data rs
      → length rs < fuel
      → walk_from fuel (fetch l f) ≡ some (done rs)
  unfolding walk_from fetch next
  walk_from-fetch zero f l e rs on y h = absurd (omega (arith, h))
  walk_from-fetch (suc fuel) f l e [] on (ends n) h = ground (arith, n)
  walk_from-fetch (suc fuel) f l e (r ∷ rs) on (gives {d' = d'} n y) h =
      let l' = record l { current = fetched r; next_data = d' } in
      ground (arith, n, on, walk_from-fetch fuel f l' e rs on y (omega (arith, h)))

  -- A list that holds its results, standing at one of them.
  walk_from-stored :
      (fuel : ℕ) (l : ResultList Source) (k : ℕ)
      → l.next_function ≡ none
      → length (drop k l.results) < fuel
      → walk_from fuel (moved l (place l k)) ≡ some (done (drop k l.results))
  unfolding walk_from next
  walk_from-stored zero l k off h = absurd (omega (arith, h))
  walk_from-stored (suc fuel) l k off h = elim (drop-cases k l.results) [
    | inl (past, out) ↦ ground (arith, past, out)
    | inr (r, at, e) ↦
        let l' = record l { current = stored k; begun = true } in
        let less : length (drop (suc k) l.results) < fuel = ground (arith, h, e) in
        ground (arith, at, e, off, walk_from-stored fuel l' (suc k) off less, plus_one k)
  ]

  -- A loop over begin and next on a list that has a source and has not been begun sees, with one
  -- round more than there are results, the results that the source gives up to its end. If none of
  -- them is without a value set, a loop over the list that fetching all of them leaves sees the
  -- same.
  pub walk-fetch_all :
      (fuel : ℕ) (f : Next Source) (l l' : ResultList Source) (e : Option Source) (rs : List Result)
      → l.next_function ≡ some f
      → l.current ≡ absent
      → l.results ≡ []
      → Yields f e l.next_data rs
      → ((x : Option Source) → (y : Option Result × Option Source) × (f x true ≡ done y))
      → length rs < fuel
      → fetch_all fuel (some l) ≡ some (done (ok, some l'))
      → (walk fuel l ≡ some (done rs)) × (walk fuel l' ≡ some (done rs))
  unfolding walk begin
  walk-fetch_all fuel f l l' e rs on start new y back h a =
      let whole = fetch_all-full f fuel l e rs on start y back h in
      let good : status_of rs ≡ ok = ground (arith, whole, a) in
      let off : l'.next_function ≡ none = ground (arith, whole, a) in
      let held : l'.results ≡ rs = ground (arith, whole, a, new, full-all rs good) in
      (
        ground (arith, on, start, walk_from-fetch fuel f l e rs on y h),
        ground (arith, off, held, walk_from-stored fuel l' 0 off (ground (arith, held, h))),
      )
