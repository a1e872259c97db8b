-- ===== src/Result/Fetching.antt =====
-- libdbo_result_list_fetch_all of src/libdbo_result.c, with a source that ends.
use dbo.Prelude.{
  ℕ, zero, suc, ◌+◌, ◌<◌, ◌^◌, ◌%◌, ◌≡◌, refl, true, false, Option, none, some, List, [], ◌∷◌, ◌++◌,
  Status, ok, error_unknown, is_ok, done, length, arith, Bool-cases, inl, inr, if◌then◌else◌,
}
use mathlib.Core.List.{append_assoc, append-nil}
use dbo.Result
use dbo.Result.{Result}
use dbo.Result.Lists.{Next, ResultList, add, fetch_loop, fetch_all, absent}

-- The results that a source gives from some data on, up to its end, where it has other data.
pub data Yields {Source : Type 0} (f : Next Source) (e : Option Source)
    : Option Source → List Result → Type 0 where
  ends : {d : Option Source} → f d false ≡ done (none, e) → Yields f e d []
  gives :
      {d d' : Option Source} {r : Result} {rs : List Result}
      → f d false ≡ done (some r, d')
      → Yields f e d' rs
      → Yields f e d (r ∷ rs)

-- Those before the first result that is empty, which the list does not take.
abbrev pub full : List Result → List Result
full [] = []
full (r ∷ rs) = let rest = r ∷ full rs in if is_ok (Result.not_empty (some r)) then rest else []

abbrev pub status_of : List Result → Status
status_of [] = ok
status_of (r ∷ rs) =
    let rest = status_of rs in if is_ok (Result.not_empty (some r)) then rest else error_unknown

module _ {Source : Type 0} (f : Next Source) where
  fetch_loop-full :
      (fuel : ℕ) (l : ResultList Source) (d e : Option Source) (rs : List Result)
      → l.next_function ≡ none
      → Yields f e d rs
      → l.size < 2 ^ 64
      → ((x : Option Source) → (y : Option Result × Option Source) × (f x true ≡ done y))
      → length rs < fuel
      → fetch_loop fuel f l d
        ≡ some (
            done (
              status_of rs,
              some (record l {
                results = l.results ++ full rs;
                next_data = none;
                size = (l.size + length (full rs)) % 2 ^ 64;
              }),
            ))
  unfolding fetch_loop add
  fetch_loop-full zero l d e rs off y small back h = absurd (omega (arith, h))
  fetch_loop-full (suc fuel) l d e [] off (ends n) small back h =
      ground (arith, n, (back e).1, append-nil l.results)
  fetch_loop-full (suc fuel) l d e (r ∷ rs) off (gives {d' = d'} n y) small back h =
      elim (Bool-cases (is_ok (Result.not_empty (some r)))) [
        | inl whole ↦
            let l' = record l { results = l.results ++ (r ∷ []); size = (l.size + 1) % 2 ^ 64 } in
            let ih = fetch_loop-full fuel l' d' e rs off y (omega arith) back (omega (arith, h)) in
            ground (arith, n, off, whole, ih, append_assoc l.results (r ∷ []) (full rs))
        | inr empty ↦ ground (arith, n, off, empty, (back d').1, append-nil l.results)
      ]

  -- Fetching all results of a list whose source gives the results `rs` and then ends, and takes its
  -- data back, returns, within as many rounds as there are results and one more: the list holds,
  -- behind those it had, the results up to the first that has no value set, has no source any more,
  -- and its size is their number; the answer is ok if there is no such result, and else the error.
  pub fetch_all-full :
      (fuel : ℕ) (l : ResultList Source) (e : Option Source) (rs : List Result)
      → l.next_function ≡ some f
      → l.current ≡ absent
      → Yields f e l.next_data rs
      → ((x : Option Source) → (y : Option Result × Option Source) × (f x true ≡ done y))
      → length rs < fuel
      → fetch_all fuel (some l)
        ≡ some (
            done (
              status_of rs,
              some (record l {
                results = l.results ++ full rs;
                next_function = none;
                next_data = none;
                size = length (full rs) % 2 ^ 64;
              }),
            ))
  unfolding fetch_all
  fetch_all-full fuel l e rs on start y back h = ground (
    arith,
    on,
    start,
    fetch_loop-full fuel (record l { next_function = none; size = 0 }) l.next_data e rs refl y
        (omega arith) back h,
  )
