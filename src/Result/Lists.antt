-- ===== src/Result/Lists.antt =====
-- src/libdbo_result.c: result lists. A list either holds its results, or gets them one by one from a
-- function of the backend, `next_function`, with the data that `Source` stands for; that function
-- gives NULL at the end, and is called with `finish` to give the data back.
use dbo.Prelude.{
  ℕ, zero, suc, ◌+◌, ◌^◌, ◌%◌, Bool, true, false, Option, none, some, List, [], ◌∷◌, ◌++◌, Status,
  ok, error_unknown, is_ok, is_some, if◌then◌else◌, Outcome, done, undefined, get_elem?, ◌==◌, not,
  ◌||◌,
}
use dbo.Prelude.Text.{Memory, allocate}
use dbo.Result
use dbo.Result.{Result}

-- libdbo_result_list_next_t; the flag is `finish`
abbrev pub Next : Type 0 → Type 0
Next Source = Option Source → Bool → Outcome (Option Result × Option Source)

-- The pointer `current`: NULL, the result at a position of the list, or one that `next_function` gave.
pub data Current : Type 0 where
  absent : Current
  stored : ℕ → Current
  fetched : Result → Current

-- struct libdbo_result_list; `results` are those from `begin` to `end`
pub record ResultList (Source : Type 0) : Type 0 where
  pub results : List Result
  pub current : Current
  pub next_function : Option (Next Source)
  pub next_data : Option Source
  pub size : ℕ
  pub begun : Bool

abbrev pub is_absent : Current → Bool
is_absent absent = true
is_absent _ = false

abbrev pub is_nil : List Result → Bool
is_nil [] = true
is_nil (r ∷ rs) = false

abbrev pub current_of : Option Result → Current
current_of none = absent
current_of (some r) = fetched r

module _ {Source : Type 0} where
  -- libdbo_result_list_new, where memory is given
  abbrev pub zero_list : ResultList Source
  zero_list = record {
    results = [];
    current = absent;
    next_function = none;
    next_data = none;
    size = 0;
    begun = false;
  }

  -- libdbo_result_list_set_next
  unfoldable pub set_next :
      Option (ResultList Source)
      → Option (Next Source)
      → Option Source
      → ℕ
      → Status × Option (ResultList Source)
  set_next none f d n = (error_unknown, none)
  set_next (some l) f none n = (error_unknown, some l)
  set_next (some l) f (some d) n =
      if not (is_nil l.results) || is_some l.next_function || is_some l.next_data
      then (error_unknown, some l)
      else (ok, some (record l { next_function = f; next_data = some d; size = n }))

  -- libdbo_result_list_add, for a result that is in no list
  unfoldable pub add :
      Option (ResultList Source) → Option Result → Status × Option (ResultList Source)
  unfolding Result.not_empty
  add none r = (error_unknown, none)
  add (some l) none = (error_unknown, some l)
  add (some l) (some r) =
      if not (is_ok (Result.not_empty (some r))) || is_some l.next_function
      then (error_unknown, some l)
      else (ok, some (record l { results = l.results ++ (r ∷ []); size = (l.size + 1) % 2 ^ 64 }))

  -- The result that `current` points to.
  abbrev pub result_at : ResultList Source → Option Result
  result_at l = elim l.current [
    | absent ↦ none
    | stored k ↦ get_elem? l.results k
    | fetched r ↦ some r
  ]

  -- `current` at a position of the list; NULL past the end
  abbrev pub place : ResultList Source → ℕ → Current
  place l k = elim (get_elem? l.results k) [ none ↦ absent | some r ↦ stored k ]

  -- `result_list->current = result_list->next_function(result_list->next_data, 0);`
  unfoldable pub fetch :
      ResultList Source → Next Source → Outcome (Option Result × Option (ResultList Source))
  fetch l f = elim (f l.next_data false) [
    | undefined ↦ undefined
    | done (r, d) ↦ done (r, some (record l { current = current_of r; next_data = d }))
  ]

  -- A list that holds its results, moved to a position.
  abbrev pub moved :
      ResultList Source → Current → Outcome (Option Result × Option (ResultList Source))
  moved l c = let l' = record l { current = c; begun = true } in done (result_at l', some l')

  -- libdbo_result_list_begin
  unfoldable pub begin :
      Option (ResultList Source) → Outcome (Option Result × Option (ResultList Source))
  unfolding fetch
  begin none = done (none, none)
  begin (some l) = elim l.next_function [
    | none ↦ moved l (place l 0)
    | some f ↦ if is_absent l.current then fetch l f else done (none, some l)
  ]

  -- The step of libdbo_result_list_next in a list that holds its results.
  abbrev pub after : ResultList Source → Current
  after l =
      if l.begun
      then elim l.current [ absent ↦ absent | stored k ↦ place l (k + 1) | fetched r ↦ fetched r ]
      else place l 0

  -- libdbo_result_list_next
  unfoldable pub next :
      Option (ResultList Source) → Outcome (Option Result × Option (ResultList Source))
  unfolding fetch
  next none = done (none, none)
  next (some l) = elim l.next_function [ none ↦ moved l (after l) | some f ↦ fetch l f ]

  -- libdbo_result_list_size
  unfoldable pub size_of : Option (ResultList Source) → ℕ
  size_of none = 0
  size_of (some l) = l.size

  -- The end of libdbo_result_list_fetch_all: the data is given back.
  abbrev pub finish :
      Next Source
      → Status
      → ResultList Source
      → Option Source
      → Outcome (Status × Option (ResultList Source))
  finish f r l d = elim (f d true) [
    | undefined ↦ undefined
    | done x ↦ done (r, some (record l { next_data = none }))
  ]

  -- The loop of libdbo_result_list_fetch_all; `none` is too little fuel.
  unfoldable pub fetch_loop :
      ℕ
      → Next Source
      → ResultList Source
      → Option Source
      → Option (Outcome (Status × Option (ResultList Source)))
  unfolding add
  fetch_loop zero f l d = none
  fetch_loop (suc fuel) f l d = elim (f d false) [
    | undefined ↦ some undefined
    | done (none, d') ↦ some (finish f ok l d')
    | done (some r, d') ↦
        let added = add (some l) (some r) in
        elim (added.1) [
          | none ↦ some undefined
          | some l' ↦ elim (added.0) [
            | ok ↦ fetch_loop fuel f l' d'
            | error_unknown ↦ some (finish f error_unknown l d')
          ]
        ]
  ]

  -- libdbo_result_list_fetch_all
  unfoldable pub fetch_all :
      ℕ → Option (ResultList Source) → Option (Outcome (Status × Option (ResultList Source)))
  unfolding fetch_loop
  fetch_all fuel none = some (done (error_unknown, none))
  fetch_all fuel (some l) = elim l.next_function [
    | none ↦ some (done (ok, some l))
    | some f ↦
        let fetched_all =
          fetch_loop fuel f (record l { next_function = none; size = 0 }) l.next_data in
        if is_absent l.current then fetched_all else some (done (error_unknown, some l))
  ]

  -- libdbo_result_list_free: the data is given back
  unfoldable pub free : Option (ResultList Source) → Outcome (Option Source)
  free none = done none
  free (some l) = elim l.next_function [
    | none ↦ done l.next_data
    | some f ↦ elim (f l.next_data true) [ undefined ↦ undefined | done (r, d) ↦ done d ]
  ]

  -- `if (result == from_result_list->current) result_list->current = result_copy;`
  abbrev pub follow : Current → ℕ → ResultList Source → ResultList Source
  follow (stored j) k l = if j == k then record l { current = stored k } else l
  follow _ k l = l

  -- The loop of libdbo_result_list_copy over the results from a position; `current` is the source's.
  unfoldable pub copy_loop :
      ResultList Source
      → Current
      → ℕ
      → List Result
      → Memory
      → Outcome (Status × Option (ResultList Source) × Memory)
  unfolding Result.new_copy add
  copy_loop l current k [] m = done (ok, some l, m)
  copy_loop l current k (r ∷ rs) m = elim (Result.new_copy (some r) m) [
    | undefined ↦ undefined
    | done (none, m') ↦ done (error_unknown, some l, m')
    | done (some c, m') ↦
        let added = add (some l) (some c) in
        elim (added.1) [
          | none ↦ undefined
          | some l' ↦ elim (added.0) [
            | ok ↦ copy_loop (follow current k l') current (k + 1) rs m'
            | error_unknown ↦ done (error_unknown, some l, m')
          ]
        ]
  ]

  -- libdbo_result_list_copy
  unfoldable pub copy :
      Option (ResultList Source)
      → Option (ResultList Source)
      → Memory
      → Outcome (Status × Option (ResultList Source) × Memory)
  unfolding copy_loop
  copy none from m = done (error_unknown, none, m)
  copy (some l) none m = done (error_unknown, some l, m)
  copy (some l) (some from) m =
      if not (is_nil l.results)
        || not (is_absent l.current)
        || not (l.size == 0)
        || is_some l.next_function
        || is_some from.next_function
      then done (error_unknown, some l, m)
      else copy_loop l from.current 0 from.results m

  -- libdbo_result_list_new_copy
  unfoldable pub new_copy :
      Option (ResultList Source) → Memory → Outcome (Option (ResultList Source) × Memory)
  unfolding copy
  new_copy none m = done (none, m)
  new_copy (some from) m =
      if (allocate m).0
      then elim (copy (some zero_list) (some from) ((allocate m).1)) [
        | undefined ↦ undefined
        | done (ok, l, m') ↦ done (l, m')
        | done (error_unknown, l, m') ↦ done (none, m')
      ]
      else done (none, (allocate m).1)
