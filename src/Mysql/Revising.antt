-- ===== src/Mysql/Revising.antt =====
-- The number that create and update of src/libdbo_backend_mysql.c send for a revision field.
use mathlib.Core.List.{map-append, append_assoc}
use dbo.Prelude.{
  ℕ, ◌==◌, ◌≡◌, refl, ap, ◌∙◌, true, Option, none, some, List, [], ◌∷◌, ◌++◌, map, Status, ok,
  Outcome, done, arith,
}
use dbo.Prelude.{is_some, not, ltb, if◌then◌else◌}
use dbo.Prelude.Int.{ℤ, pos}
use dbo.Prelude.Text.{Text, Memory}
use dbo.Prelude.Run.{Run, returns, ◌>>=◌, >>=-eq-returns}
use dbo.Object.{ObjectField, DatabaseObject, fields_of}
use dbo.Value.Sets.{ValueSet}
use dbo.Sqlite.Revision.{find_revision, revision_clause, revision_number, next_revision}
use dbo.Sqlite.Statements.{update_sql}
use dbo.Sqlite.Operations.{update_revision}
use dbo.Clause.Tree.{ClauseList}
use mathlib.Core.Path.{subst}
use dbo.Mysql.Adding.{bind_where-Adds}
use dbo.Value
use dbo.Value.{Value, zero_value, type_of}
use dbo.Value.Convert.{from_int64}
use dbo.Mysql.Bind.{Sent, longlong, Inputs, bind_revision, bind_value_set, sender}
use dbo.Mysql.Session.{Server, Backend, sent}
use dbo.Mysql.Operations.{
  bind_number, after_reset, create, insert, insert_sql, insert_binds, bind_first_revision, modify,
  update, update_binds, bind_next_number, bind_where,
}
use dbo.Mysql.Performing.{Performed, perform-Performed, attempt-ok}

reset_lem : (v : Value) → Value.reset (some v) ≡ some after_reset
unfolding Value.reset
reset_lem v = refl

-- What a bind of the variable `revision` sends once the variable is reset.
bind_number-zero :
    {Db : Type 0} (e : Server Db) (n : ℤ) (s t : Inputs)
    → bind_number n s ≡ returns t
    → sent e t after_reset ≡ sent e s after_reset ++ ((s.bind, longlong (pos 0)) ∷ [])
unfolding bind_number from_int64 bind_revision sender Value.read_int64 Value.type_of
bind_number-zero e n s t h =
    let moved : t.sends ≡ s.sends ++ ((s.bind, λ w. longlong w.int64) ∷ []) = ground (arith, h) in
    ap (map (λ x. (x.0, x.1 after_reset))) moved ∙ map-append _ s.sends _

-- A statement with that many marks and nothing bound.
abbrev pub fresh : ℕ → Inputs
fresh params = record { params = params; bind = 0; sends = [] }

-- What is sent where the values of a set are bound, then a number 0 of 64 bits, then `rest`.
abbrev pub with_zero : {Db : Type 0} → Server Db → Inputs → List (ℕ × Sent) → List (ℕ × Sent)
with_zero e values rest = sent e values after_reset ++ ((values.bind, longlong (pos 0)) ∷ rest)

-- A statement was carried out on a database, and at the mark behind those of the value set a number
-- 0 of 64 bits was sent.
pub record SentZero {Db : Type 0} (e : Server Db) (set : ValueSet) (s s' : Backend Db)
    : Type 0 where
  pub db : Db
  pub opened : s.db ≡ some db
  pub sql : Text
  pub params : ℕ
  pub values : Inputs
  pub binds : bind_value_set set (fresh params) ≡ returns values
  pub rest : List (ℕ × Sent)
  pub executes : (e.executes db sql (with_zero e values rest)).1 ≡ true
  pub after : s' ≡ record s { db = some ((e.executes db sql (with_zero e values rest)).0) }

pub Performed-SentZero :
    {Db : Type 0} (e : Server Db) (s s' : Backend Db) (sql : Text) (set : ValueSet)
    (bind : Inputs → Run Inputs) (p : Performed e s sql bind s') (values : Inputs)
    (rest : List (ℕ × Sent))
    → bind_value_set set (fresh p.params) ≡ returns values
    → sent e p.bound after_reset ≡ with_zero e values rest
    → SentZero e set s s'
Performed-SentZero e s s' sql set bind p values rest binds same = record {
  db = p.db;
  opened = p.opened;
  sql = sql;
  params = p.params;
  values = values;
  binds = binds;
  rest = rest;
  executes = subst (λ l. (e.executes p.db sql l).1 ≡ true) same p.executes;
  after = subst (λ l. s' ≡ record s { db = some ((e.executes p.db sql l).0) }) same p.after;
}

-- What the binds of update send: those of the value set, the revision, the conditions.
sent-update :
    {Db : Type 0} (e : Server Db) (k : ℤ) (t v u bound : Inputs) (more : List (ℕ × (Value → Sent)))
    → bind_number k t ≡ returns v
    → u.sends ≡ v.sends
    → bound.sends ≡ u.sends ++ more
    → sent e bound after_reset ≡ with_zero e t (map (λ x. (x.0, x.1 after_reset)) more)
sent-update e k t v u bound more last stays adds =
    let after_all =
      ap (map (λ x. (x.0, x.1 after_reset))) (adds ∙ ap (λ l. l ++ more) stays)
      ∙ map-append _ v.sends more in
    after_all
    ∙ ap (λ l. l ++ map (λ x. (x.0, x.1 after_reset)) more) (bind_number-zero e k t v last)
    ∙ append_assoc (sent e t after_reset) _ _

insert-SentZero :
    {Db : Type 0} (e : Server Db) (s s' : Backend Db) (object : DatabaseObject)
    (fs : List ObjectField) (set : ValueSet) (f : ObjectField) (m m' : Memory)
    → find_revision none (fields_of object.object_field_list) ≡ returns (some f)
    → insert e s object fs set m ≡ done (ok, some s', m')
    → SentZero e set s s'
unfolding insert insert_binds
insert-SentZero e s s' object fs set f m m' revised h =
    let (r, found, h₁) =
      attempt-ok (find_revision none (fields_of object.object_field_list)) s m _ s' m' h in
    let (b, built, h₂) = attempt-ok (insert_sql object fs r) s m _ s' m' h₁ in
    let p = perform-Performed e s b.text (insert_binds set r) (λ n. n == 1) m m' s' h₂ in
    let same : r ≡ some f = ground (arith, found, revised) in
    let (t, binds, last) =
      >>=-eq-returns (bind_value_set set (fresh p.params)) (bind_first_revision (some f))
        {b = p.bound} (ground (arith, p.binds, same)) in
    Performed-SentZero e s s' b.text set (insert_binds set r) p t [] binds
      (bind_number-zero e (pos 1) t p.bound last)

update_revision-some :
    (f : ObjectField) (l : ClauseList) (number : Option ℤ)
    → update_revision (some f) l ≡ returns number
    → (n : ℤ) × (number ≡ some n)
unfolding update_revision
update_revision-some f l number h =
    let (c, _, h₁) = >>=-eq-returns (revision_clause l f) _ h in
    let (n, _, e) = >>=-eq-returns (revision_number (type_of (some c.value)) c.value) _ h₁ in
    (n, ground (arith, e))

modify-SentZero :
    {Db : Type 0} (e : Server Db) (s s' : Backend Db) (object : DatabaseObject)
    (fs : List ObjectField) (set : ValueSet) (l : ClauseList) (f : ObjectField) (m m' : Memory)
    → find_revision none (fields_of object.object_field_list) ≡ returns (some f)
    → modify e s object fs set l m ≡ done (ok, some s', m')
    → SentZero e set s s'
unfolding modify update_binds
modify-SentZero e s s' object fs set l f m m' revised h =
    let (r, found, h₁) =
      attempt-ok (find_revision none (fields_of object.object_field_list)) s m _ s' m' h in
    let (number, looked, h₂) = attempt-ok (update_revision r l) s m _ s' m' h₁ in
    let (b, built, h₃) = attempt-ok (update_sql object fs r l) s m _ s' m' h₂ in
    let p =
      perform-Performed e s b.text (update_binds set number l)
        (λ n. if is_some r then not (ltb n 1) else true) m m' s' h₃ in
    let (n, numbered) = update_revision-some f l number (ground (arith, looked, found, revised)) in
    let (u, front, conditions) =
      >>=-eq-returns (bind_value_set set (fresh p.params) >>= bind_next_number number)
        (bind_where l) {b = p.bound} p.binds in
    let (t, binds, next) =
      >>=-eq-returns (bind_value_set set (fresh p.params)) (bind_next_number (some n)) {b = u}
        (ground (arith, front, numbered)) in
    let (k, _, next₁) = >>=-eq-returns (next_revision n) _ next in
    let (v, last, moved) = >>=-eq-returns (bind_number k t) _ next₁ in
    let (more, adds) = bind_where-Adds l u p.bound conditions in
    Performed-SentZero e s s' b.text set (update_binds set number l) p t
      (map (λ x. (x.0, x.1 after_reset)) more) binds
      (sent-update e k t v u p.bound more last (ground (arith, moved)) adds)

-- The two operations that write a revision.
pub data Write : Type 0 where
  creates : List ObjectField → ValueSet → Write
  updates : List ObjectField → ValueSet → ClauseList → Write

abbrev pub written : Write → ValueSet
written (creates fs set) = set
written (updates fs set l) = set

abbrev pub write :
    {Db : Type 0}
    → Server Db
    → Write
    → Backend Db
    → DatabaseObject
    → Memory
    → Outcome (Status × Option (Backend Db) × Memory)
write e (creates fs set) s object m = create e (some s) (some object) (some fs) (some set) m
write e (updates fs set l) s object m = update e (some s) (some object) (some fs) (some set) l m

-- A create or an update of an object with a revision field that the MySQL backend answers ok was
-- executed with 0 as the value sent behind those of the value set, the one for the revision field,
-- where 1, or the revision plus one, is meant: the variable that the bind has the address of is
-- reset before the statement is executed.
pub write-SentZero :
    {Db : Type 0} (e : Server Db) (w : Write) (s s' : Backend Db) (object : DatabaseObject)
    (f : ObjectField) (m m' : Memory)
    → find_revision none (fields_of object.object_field_list) ≡ returns (some f)
    → write e w s object m ≡ done (ok, some s', m')
    → SentZero e (written w) s s'
unfolding create update
write-SentZero e (creates fs set) s s' object f m m' revised h =
    insert-SentZero e s s' object fs set f m m' revised (ground (arith, h))
write-SentZero e (updates fs set l) s s' object f m m' revised h =
    modify-SentZero e s s' object fs set l f m m' revised (ground (arith, h))
