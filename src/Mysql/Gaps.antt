-- ===== src/Mysql/Gaps.antt =====
-- The marks in the conditions of a statement against the binds that __db_backend_mysql_bind_clause of
-- src/libdbo_backend_mysql.c takes for them.
use dbo.Prelude.{
  ℕ, ◌+◌, ◌≤◌, ◌<◌, ◌≡◌, refl, ◌∙◌, Option, true, false, arith, ◌++◌, ltb, Bool, some,
}
use dbo.Prelude.Text.{Text, codes}
use dbo.Prelude.Run.{Run, returns, ◌>>=◌, require, >>=-eq-returns}
use dbo.Clause.{ClauseType, Clause}
use dbo.Clause.Tree.{Clauses, ClauseList, nil, cons, absent, list}
use dbo.Sqlite.Where.{clause_text, operator_text, loop_text, where_text, text_or_nothing}
use dbo.Sqlite.Sql.{or_else}
use dbo.Sqlite.Marks.{marks, marks-append, IsPlain, IsPlainList, condition_marks, operator_marks}
use mathlib.Core.Path.{subst}
use dbo.Value.{Value, type_of}
use dbo.Sqlite.Marks.{returns-injective}
use dbo.Mysql.Bind.{sender, bind_kept, Inputs, bind_one, bind_loop, bind_clause, advance}

-- The binds that a clause takes beyond those for marks: one for a test for NULL, and one for a
-- nested list besides those that its clauses take.
abbrev pub gap : ClauseType → ℕ → ℕ
gap ClauseType.is_null inner = 1
gap ClauseType.is_not_null inner = 1
gap ClauseType.nested inner = 1 + inner
gap ClauseType.unknown inner = 1
gap _ inner = 0

abbrev mutual
  pub gaps : Clauses → ℕ
  gaps nil = 0
  gaps (cons c nested rest) = gap c.type (list_gaps nested) + gaps rest

  pub list_gaps : ClauseList → ℕ
  list_gaps absent = 0
  list_gaps (list cs) = gaps cs

-- `n` binds were taken, and they were there.
pub record Takes (n : ℕ) (s s' : Inputs) : Type 0 where
  pub bind : s'.bind ≡ s.bind + n
  pub params : s'.params ≡ s.params
  pub room : s'.bind ≤ s.params

bind_kept-Takes :
    (v : Value) (s s' : Inputs)
    → s.bind < s.params
    → bind_kept v s ≡ returns s'
    → Takes 1 s (advance s')
bind_kept-Takes v s s' h r =
    let (f, _, e) = >>=-eq-returns (sender (type_of (some v)) v) _ r in
    record { bind = ground (arith, e); params = ground (arith, e); room = ground (arith, e, h) }

kept-Takes :
    (v : Value) (s s' : Inputs)
    → s.bind < s.params
    → (bind_kept v s >>= λ t. returns (advance t)) ≡ returns s'
    → Takes 1 s s'
kept-Takes v s s' h r =
    let (t, k, e) = >>=-eq-returns (bind_kept v s) _ r in
    subst (Takes 1 s) (returns-injective e) (bind_kept-Takes v s t h k)

advance-Takes :
    (s s' : Inputs) → s.bind < s.params → returns (advance s) ≡ returns s' → Takes 1 s s'
advance-Takes s s' h e =
    subst (Takes 1 s) (returns-injective e)
      (record { bind = refl; params = refl; room = omega (arith, h) })

Takes-cast : {m n : ℕ} (s s' : Inputs) → m ≡ n → Takes m s s' → Takes n s s'
Takes-cast s s' e h = subst (λ k. Takes k s s') e h

bind_one-Takes :
    (table : Option Text) (t : ClauseType) (c : Clause) (inner : Inputs → Run Inputs) (text : Text)
    (n : ℕ) (s s' : Inputs)
    → t ≡ c.type
    → marks (text_or_nothing (or_else c.table table)) ≡ 0
    → marks (text_or_nothing c.field) ≡ 0
    → s.bind < s.params
    → (inner (advance s) ≡ returns s' → Takes (marks text + n) (advance s) s')
    → bind_one t c inner s ≡ returns s'
    → Takes (marks (clause_text table t c text) + gap t n) s s'
unfolding bind_one
bind_one-Takes table ClauseType.is_null c inner text n s s' e ht hf h below r =
    Takes-cast s s' (omega (arith, condition_marks table ClauseType.is_null c e ht hf))
      (advance-Takes s s' h r)
bind_one-Takes table ClauseType.is_not_null c inner text n s s' e ht hf h below r =
    Takes-cast s s' (omega (arith, condition_marks table ClauseType.is_not_null c e ht hf))
      (advance-Takes s s' h r)
bind_one-Takes table ClauseType.nested c inner text n s s' e ht hf h below r =
    let b = below r in
    record {
      bind = omega (arith, b.bind, marks-append text (codes " )"));
      params = b.params;
      room = b.room;
    }
bind_one-Takes table ClauseType.unknown c inner text n s s' e ht hf h below r = absurd (cc)
bind_one-Takes table _ c inner text n s s' e ht hf h below r =
    Takes-cast s s' (omega (arith, condition_marks table _ c e ht hf)) (kept-Takes c.value s s' h r)

Takes-trans : (m n : ℕ) (s t u : Inputs) → Takes m s t → Takes n t u → Takes (m + n) s u
Takes-trans m n s t u f g = record {
  bind = omega (arith, f.bind, g.bind);
  params = g.params ∙ f.params;
  room = omega (arith, f.params, g.room);
}

mutual
  unfolding bind_loop loop_text

  bind_loop-Takes :
      (table : Option Text) (first : Bool) (cs : Clauses) (s s' : Inputs)
      → IsPlain table cs
      → s.bind ≤ s.params
      → bind_loop cs s ≡ returns s'
      → Takes (marks (loop_text table first cs) + gaps cs) s s'
  bind_loop-Takes table first nil s s' p room h =
      subst (Takes 0 s) (returns-injective h)
        (record { bind = omega arith; params = refl; room = room })
  bind_loop-Takes table first (cons c nested rest) s s' p room h =
      let (u, there, h₁) = >>=-eq-returns (require (ltb s.bind s.params)) _ h in
      let (t, one, more) = >>=-eq-returns (bind_one c.type c (bind_clause nested) s) _ h₁ in
      let below : s.bind < s.params = ground (arith, there) in
      let front =
        bind_one-Takes table c.type c (bind_clause nested) (where_text table nested)
          (list_gaps nested) s t refl p.0 p.1 below
          (λ r. bind_clause-Takes table nested (advance s) t p.2 r) one in
      let back =
        bind_loop-Takes table false rest t s' p.3 (omega (arith, front.room, front.params)) more in
      Takes-cast s s'
        (omega (
          arith,
          operator_marks first c.clause_operator,
          marks-append (operator_text first c.clause_operator)
              (clause_text table c.type c (where_text table nested) ++ loop_text table false rest),
          marks-append (clause_text table c.type c (where_text table nested))
              (loop_text table false rest),
        ))
        (Takes-trans _ _ s t s' front back)

  bind_clause-Takes :
      (table : Option Text) (l : ClauseList) (s s' : Inputs)
      → IsPlainList table l
      → bind_clause l s ≡ returns s'
      → Takes (marks (where_text table l) + list_gaps l) s s'
  bind_clause-Takes table absent s s' p h = absurd (cc)
  bind_clause-Takes table (list cs) s s' p h =
      let (u, there, h₁) = >>=-eq-returns (require (ltb s.bind s.params)) _ h in
      bind_loop-Takes table true cs s s' p (ground (arith, there)) h₁

-- Binding the conditions of a statement that has, from the position on, as many marks as its
-- conditions hold (of which no name holds one) returns only if no clause tests for NULL and none is
-- nested, and has then taken all binds. With such a clause, for which a bind is taken that has no
-- mark, it does not return.
pub bind_clause-gaps :
    (table : Option Text) (l : ClauseList) (s s' : Inputs)
    → IsPlainList table l
    → s.params ≡ s.bind + marks (where_text table l)
    → bind_clause l s ≡ returns s'
    → (list_gaps l ≡ 0) × (s'.bind ≡ s.params)
bind_clause-gaps table l s s' p e h =
    let t = bind_clause-Takes table l s s' p h in
    (omega (arith, e, t.bind, t.room), omega (arith, e, t.bind, t.room))
