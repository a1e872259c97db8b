-- ===== src/Mysql/Adding.antt =====
-- __db_backend_mysql_bind_clause of src/libdbo_backend_mysql.c only adds to what was bound before.
use mathlib.Core.List.{append-nil, append_assoc}
use dbo.Prelude.{ℕ, ◌≡◌, sym, ap, ◌∙◌, List, [], ◌∷◌, ◌++◌, arith, ltb, some}
use dbo.Prelude.Run.{Run, returns, ◌>>=◌, require, >>=-eq-returns}
use dbo.Clause.{ClauseType, Clause}
use dbo.Clause.Tree.{Clauses, ClauseList, nil, cons, absent, list}
use dbo.Value.{Value, type_of}
use dbo.Mysql.Bind.{Sent, sender, bind_kept, Inputs, bind_one, bind_loop, bind_clause, advance}
use dbo.Mysql.Operations.{bind_where}

-- What was bound is still there, before what else is.
abbrev pub Adds : Inputs → Inputs → Type 0
Adds s s' = (more : List (ℕ × (Value → Sent))) × (s'.sends ≡ s.sends ++ more)

Adds-same : (s s' : Inputs) → s'.sends ≡ s.sends → Adds s s'
Adds-same s s' e = ([], e ∙ sym (append-nil s.sends))

Adds-trans : (s t u : Inputs) → Adds s t → Adds t u → Adds s u
Adds-trans s t u (f, a) (g, b) = (f ++ g, b ∙ ap (λ l. l ++ g) a ∙ append_assoc s.sends f g)

kept-Adds :
    (v : Value) (s s' : Inputs)
    → (bind_kept v s >>= λ t. returns (advance t)) ≡ returns s'
    → Adds s s'
kept-Adds v s s' h =
    let (t, k, e) = >>=-eq-returns (bind_kept v s) _ h in
    let (f, _, d) = >>=-eq-returns (sender (type_of (some v)) v) _ k in
    ((s.bind, λ r. f v) ∷ [], ground (arith, e, d))

bind_one-Adds :
    (t : ClauseType) (c : Clause) (inner : Inputs → Run Inputs) (s s' : Inputs)
    → (inner (advance s) ≡ returns s' → Adds (advance s) s')
    → bind_one t c inner s ≡ returns s'
    → Adds s s'
unfolding bind_one
bind_one-Adds ClauseType.is_null c inner s s' below h = Adds-same s s' (ground (arith, h))
bind_one-Adds ClauseType.is_not_null c inner s s' below h = Adds-same s s' (ground (arith, h))
bind_one-Adds ClauseType.nested c inner s s' below h = below h
bind_one-Adds ClauseType.unknown c inner s s' below h = absurd (cc)
bind_one-Adds _ c inner s s' below h = kept-Adds c.value s s' h

mutual
  unfolding bind_loop

  bind_loop-Adds : (cs : Clauses) (s s' : Inputs) → bind_loop cs s ≡ returns s' → Adds s s'
  bind_loop-Adds nil s s' h = Adds-same s s' (ground (arith, h))
  bind_loop-Adds (cons c nested rest) s s' h =
      let (u, _, h₁) = >>=-eq-returns (require (ltb s.bind s.params)) _ h in
      let (t, one, more) = >>=-eq-returns (bind_one c.type c (bind_clause nested) s) _ h₁ in
      Adds-trans s t s'
        (bind_one-Adds c.type c (bind_clause nested) s t
          (λ r. bind_clause-Adds nested (advance s) t r) one)
        (bind_loop-Adds rest t s' more)

  bind_clause-Adds : (l : ClauseList) (s s' : Inputs) → bind_clause l s ≡ returns s' → Adds s s'
  bind_clause-Adds absent s s' h = absurd (cc)
  bind_clause-Adds (list cs) s s' h =
      let (u, _, h₁) = >>=-eq-returns (require (ltb s.bind s.params)) _ h in
      bind_loop-Adds cs s s' h₁

pub bind_where-Adds : (l : ClauseList) (s s' : Inputs) → bind_where l s ≡ returns s' → Adds s s'
bind_where-Adds absent s s' h = Adds-same s s' (ground (arith, h))
bind_where-Adds (list cs) s s' h = bind_clause-Adds (list cs) s s' h
