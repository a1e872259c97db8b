-- ===== src/Sqlite/Marks.antt =====
-- The marks `?` in the conditions that libdbo_backend_sqlite.c prints against the values that it
-- binds.
use dbo.Prelude.{
  ℕ, suc, ◌+◌, ◌≡◌, refl, ◌++◌, Bool, true, false, Option, List, [], ◌∷◌, Status, length, ◌==◌,
  arith, length-append, sym, ap, ◌∙◌, if◌then◌else◌,
}
use dbo.Prelude.Text.{Text, codes}
use mathlib.Core.List.{append-nil, append_assoc}
use mathlib.Core.Path.{subst}
use native.Mathlib.Nat.{add-zero}
use dbo.Prelude.Int.{to_signed32, to_signed64}
use dbo.ValueType.{ValueType}
use dbo.Value.{Value}
use dbo.Prelude.Run.{Run, returns, ◌>>=◌, >>=-eq-returns}
use dbo.Clause.{ClauseType, Operator, Clause}
use dbo.Clause.Tree.{Clauses, ClauseList, nil, cons, absent, list}
use dbo.Sqlite.Sql.{or_else}
use dbo.Sqlite.Where.{
  text_or_nothing, operator_text, suffix, condition_text, clause_text, loop_text, where_text,
}
use dbo.Sqlite.Bind.{
  Accepts, Binds, Bound, int, int64, put, filled, bind_clause_value, bind_one, bind_loop,
  bind_clause,
}

-- How often a text holds a mark, byte 63.
abbrev pub marks : Text → ℕ
marks [] = 0
marks (c ∷ s) = (if c == b'?' then 1 else 0) + marks s

pub marks-append : (s t : Text) → marks (s ++ t) ≡ marks s + marks t
marks-append [] t = omega arith
marks-append (c ∷ s) t = omega (arith, marks-append s t)

-- No name in the list holds a mark.
abbrev mutual
  pub IsPlain : Option Text → Clauses → Type 0
  IsPlain table nil = Unit
  IsPlain table (cons c nested rest) =
      (marks (text_or_nothing (or_else c.table table)) ≡ 0)
      × (marks (text_or_nothing c.field) ≡ 0)
      × IsPlainList table nested
      × IsPlain table rest

  pub IsPlainList : Option Text → ClauseList → Type 0
  IsPlainList table absent = Unit
  IsPlainList table (list cs) = IsPlain table cs

-- The positions of bound values count up from a number.
abbrev pub Numbered : ℕ → List (ℕ × Bound) → Type 0
Numbered k [] = Unit
Numbered k (x ∷ xs) = (x.0 ≡ k) × Numbered (k + 1) xs

-- `n` more values were bound, at the positions that follow one another from `bind` on.
pub record BindsMore (n : ℕ) (s s' : Binds) : Type 0 where
  pub more : List (ℕ × Bound)
  pub bound : s'.bound ≡ s.bound ++ more
  pub numbered : Numbered s.bind more
  pub count : length more ≡ n
  pub bind : s'.bind ≡ s.bind + n

Numbered-append :
    (k : ℕ) (xs ys : List (ℕ × Bound))
    → Numbered k xs
    → Numbered (k + length xs) ys
    → Numbered k (xs ++ ys)
Numbered-append k [] ys h g = rw (← add-zero k) g
Numbered-append k (x ∷ xs) ys h g =
    (h.0, Numbered-append (k + 1) xs ys h.1 (rw (shift k (length xs)) g))
  where
    shift : (a b : ℕ) → a + 1 + b ≡ a + suc b
    shift a b = omega arith

pub BindsMore-refl : (s : Binds) → BindsMore 0 s s
BindsMore-refl s = record {
  more = [];
  bound = sym (append-nil s.bound);
  numbered = tt;
  count = refl;
  bind = omega arith;
}

BindsMore-trans :
    (m n : ℕ) (s t u : Binds) → BindsMore m s t → BindsMore n t u → BindsMore (m + n) s u
BindsMore-trans m n s t u f g = record {
  more = f.more ++ g.more;
  bound = g.bound ∙ ap (λ l. l ++ g.more) f.bound ∙ append_assoc s.bound f.more g.more;
  numbered =
      Numbered-append s.bind f.more g.more f.numbered
        (subst (λ k. Numbered k g.more) (omega (arith, f.bind, f.count)) g.numbered);
  count = omega (arith, length-append f.more g.more, f.count, g.count);
  bind = omega (arith, f.bind, g.bind);
}

pub returns-injective : {A : Type 0} {a b : A} → returns a ≡ returns b → a ≡ b
returns-injective h = cc

pub BindsMore-cast : {m n : ℕ} (s s' : Binds) → m ≡ n → BindsMore m s s' → BindsMore n s s'
BindsMore-cast s s' e h = subst (λ k. BindsMore k s s') e h

put-BindsMore :
    (accepts : Accepts) (x : Bound) (s s' : Binds) → put accepts x s ≡ returns s' → BindsMore 1 s s'
unfolding put
put-BindsMore accepts x s s' h = record {
  more = (s.bind, x) ∷ [];
  bound = ground arith;
  numbered = (refl, tt);
  count = refl;
  bind = ground arith;
}

filled-BindsMore :
    {A : Type 0} (accepts : Accepts) (r : Status × Option A) (f : A → Bound) (s s' : Binds)
    → (filled r >>= λ x. put accepts (f x) s) ≡ returns s'
    → BindsMore 1 s s'
filled-BindsMore accepts r f s s' h =
    let (x, _, e) = >>=-eq-returns (filled r) _ h in put-BindsMore accepts (f x) s s' e

bind_clause_value-BindsMore :
    (accepts : Accepts) (t : ValueType) (v : Value) (s s' : Binds)
    → bind_clause_value accepts t v s ≡ returns s'
    → BindsMore 1 s s'
unfolding bind_clause_value
bind_clause_value-BindsMore accepts ValueType.primary_key v s s' h =
    filled-BindsMore accepts _ int s s' h
bind_clause_value-BindsMore accepts ValueType.int32 v s s' h = filled-BindsMore accepts _ int s s' h
bind_clause_value-BindsMore accepts ValueType.uint32 v s s' h =
    filled-BindsMore accepts _ (λ x. int (to_signed32 x)) s s' h
bind_clause_value-BindsMore accepts ValueType.int64 v s s' h =
    filled-BindsMore accepts _ int64 s s' h
bind_clause_value-BindsMore accepts ValueType.uint64 v s s' h =
    filled-BindsMore accepts _ (λ x. int64 (to_signed64 x)) s s' h
bind_clause_value-BindsMore accepts ValueType.text v s s' h = put-BindsMore accepts _ s s' h
bind_clause_value-BindsMore accepts ValueType.enum v s s' h = filled-BindsMore accepts _ int s s' h
bind_clause_value-BindsMore accepts ValueType.empty v s s' h = absurd (cc)
bind_clause_value-BindsMore accepts ValueType.any v s s' h = absurd (cc)
bind_clause_value-BindsMore accepts ValueType.revision v s s' h = absurd (cc)

-- The marks of a condition are those of its suffix.
pub condition_marks :
    (table : Option Text) (t : ClauseType) (c : Clause)
    → t ≡ c.type
    → marks (text_or_nothing (or_else c.table table)) ≡ 0
    → marks (text_or_nothing c.field) ≡ 0
    → marks (suffix t) ≡ marks (condition_text table c)
condition_marks table t c e ht hf = rw e (
    omega (
      arith,
      marks-append (text_or_nothing (or_else c.table table))
          (codes "." ++ (text_or_nothing c.field ++ suffix c.type)),
      marks-append (text_or_nothing c.field) (suffix c.type),
    ))

bind_one-BindsMore :
    (accepts : Accepts) (table : Option Text) (t : ClauseType) (c : Clause)
    (inner : Binds → Run Binds) (text : Text) (s s' : Binds)
    → t ≡ c.type
    → marks (text_or_nothing (or_else c.table table)) ≡ 0
    → marks (text_or_nothing c.field) ≡ 0
    → (inner s ≡ returns s' → BindsMore (marks text) s s')
    → bind_one accepts t c inner s ≡ returns s'
    → BindsMore (marks (clause_text table t c text)) s s'
unfolding bind_one
bind_one-BindsMore accepts table ClauseType.nested c inner text s s' e ht hf h r =
    BindsMore-cast s s' (omega (arith, marks-append text (codes " )"))) (h r)
bind_one-BindsMore accepts table ClauseType.unknown c inner text s s' e ht hf h r = absurd (cc)
bind_one-BindsMore accepts table ClauseType.is_null c inner text s s' e ht hf h r =
    BindsMore-cast s s' (condition_marks table ClauseType.is_null c e ht hf)
      (rw (returns-injective r) (BindsMore-refl s'))
bind_one-BindsMore accepts table ClauseType.is_not_null c inner text s s' e ht hf h r =
    BindsMore-cast s s' (condition_marks table ClauseType.is_not_null c e ht hf)
      (rw (returns-injective r) (BindsMore-refl s'))
bind_one-BindsMore accepts table _ c inner text s s' e ht hf h r =
    BindsMore-cast s s' (condition_marks table _ c e ht hf)
      (bind_clause_value-BindsMore accepts _ c.value s s' r)

-- The marks before a clause: an operator has none.
pub operator_marks : (first : Bool) (o : Operator) → marks (operator_text first o) ≡ 0
operator_marks true o = refl
operator_marks false Operator.unknown = refl
operator_marks false Operator.and = refl
operator_marks false Operator.or = refl

mutual
  unfolding bind_loop loop_text

  bind_loop-BindsMore :
      (accepts : Accepts) (table : Option Text) (first : Bool) (cs : Clauses) (s s' : Binds)
      → IsPlain table cs
      → bind_loop accepts cs s ≡ returns s'
      → BindsMore (marks (loop_text table first cs)) s s'
  bind_loop-BindsMore accepts table first nil s s' p h =
      rw (returns-injective h) (BindsMore-refl s')
  bind_loop-BindsMore accepts table first (cons c nested rest) s s' p h =
      let (t, one, more) =
        >>=-eq-returns (bind_one accepts c.type c (bind_clause accepts nested) s) _ h in
      let front =
        bind_one-BindsMore accepts table c.type c (bind_clause accepts nested)
          (where_text table nested) s t refl p.0 p.1
          (bind_clause-BindsMore accepts table nested s t p.2) one in
      let back = bind_loop-BindsMore accepts table false rest t s' p.3 more in
      BindsMore-cast s s'
        (omega (
          arith,
          operator_marks first c.clause_operator,
          marks-append (operator_text first c.clause_operator)
              (clause_text table c.type c (where_text table nested) ++ loop_text table false rest),
          marks-append (clause_text table c.type c (where_text table nested))
              (loop_text table false rest),
        ))
        (BindsMore-trans _ _ s t s' front back)

  bind_clause-BindsMore :
      (accepts : Accepts) (table : Option Text) (l : ClauseList) (s s' : Binds)
      → IsPlainList table l
      → bind_clause accepts l s ≡ returns s'
      → BindsMore (marks (where_text table l)) s s'
  bind_clause-BindsMore accepts table absent s s' p h = absurd (cc)
  bind_clause-BindsMore accepts table (list cs) s s' p h =
      bind_loop-BindsMore accepts table true cs s s' p (ground arith)

-- Where binding a clause list returns, whatever SQLite accepts, and no name in the list holds a
-- question mark: it has bound one value for each mark in the text of the list's conditions, at
-- consecutive positions from `bind` on, and `bind` has moved by their number.
pub bind_clause-marks :
    (accepts : Accepts) (table : Option Text) (l : ClauseList) (s s' : Binds)
    → IsPlainList table l
    → bind_clause accepts l s ≡ returns s'
    → BindsMore (marks (where_text table l)) s s'
bind_clause-marks = bind_clause-BindsMore
