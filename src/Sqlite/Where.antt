-- ===== src/Sqlite/Where.antt =====
-- The text that __db_backend_sqlite_build_clause of src/libdbo_backend_sqlite.c means to build,
-- with no buffer, and the proof that it does so whenever the text fits.
use dbo.Prelude.{
  ◌-◌, ◌<◌, ◌≡◌, refl, ◌++◌, Bool, true, false, Option, none, some, [], length, length-append, leb,
  is_some, arith, ◌↔◌, Bool-cases, inl, inr,
}
use mathlib.Core.List.{append_assoc, append-nil}
use dbo.Prelude.Text.{Text, codes}
use dbo.Prelude.Run.{Run, returns, ◌>>=◌, >>=-eq-returns, used}
use dbo.Clause.{ClauseType, Operator, Clause}
use dbo.Clause.Tree.{Clauses, ClauseList, nil, cons, absent, list}
use dbo.Sqlite.Sql.{
  Buffer, print, or_else, print_condition, print_operator, print_clause, build_loop, build_clause,
}

abbrev pub text_or_nothing : Option Text → Text
text_or_nothing none = []
text_or_nothing (some t) = t

abbrev pub operator_text : Bool → Operator → Text
operator_text true o = []
operator_text false Operator.and = codes " AND"
operator_text false Operator.or = codes " OR"
operator_text false Operator.unknown = []

abbrev pub suffix : ClauseType → Text
suffix ClauseType.equal = codes " = ?"
suffix ClauseType.not_equal = codes " != ?"
suffix ClauseType.less_then = codes " < ?"
suffix ClauseType.less_or_equal = codes " <= ?"
suffix ClauseType.greater_or_equal = codes " >= ?"
suffix ClauseType.greater_then = codes " > ?"
suffix ClauseType.is_null = codes " IS NULL"
suffix ClauseType.is_not_null = codes " IS NOT NULL"
suffix ClauseType.nested = []
suffix ClauseType.unknown = []

abbrev pub condition_text : Option Text → Clause → Text
condition_text table c =
    codes " "
    ++ (text_or_nothing (or_else c.table table)
        ++ (codes "." ++ (text_or_nothing c.field ++ suffix c.type)))

abbrev pub clause_text : Option Text → ClauseType → Clause → Text → Text
clause_text table ClauseType.nested c inner = codes " (" ++ (inner ++ codes " )")
clause_text table _ c inner = condition_text table c

unfoldable mutual
  pub loop_text : Option Text → Bool → Clauses → Text
  loop_text table first nil = []
  loop_text table first (cons c nested rest) =
      operator_text first c.clause_operator
      ++ (clause_text table c.type c (where_text table nested) ++ loop_text table false rest)

  pub where_text : Option Text → ClauseList → Text
  where_text table absent = []
  where_text table (list cs) = loop_text table true cs

-- What a clause needs to be printed.
abbrev IsOperator : Bool → Operator → Type 0
IsOperator false Operator.unknown = ⊥
IsOperator first o = Unit

abbrev IsClause : Option Text → ClauseType → Clause → Type 0 → Type 0
IsClause table ClauseType.nested c inner = inner
IsClause table ClauseType.unknown c inner = ⊥
IsClause table _ c inner = (is_some (or_else c.table table) ≡ true) × (is_some c.field ≡ true)

abbrev mutual
  pub IsPrintable : Option Text → Bool → Clauses → Type 0
  IsPrintable table first nil = Unit
  IsPrintable table first (cons c nested rest) =
      IsOperator first c.clause_operator
      × IsClause table c.type c (IsPrintableList table nested)
      × IsPrintable table false rest

  pub IsPrintableList : Option Text → ClauseList → Type 0
  IsPrintableList table absent = ⊥
  IsPrintableList table (list cs) = IsPrintable table true cs

print_nothing : (b : Buffer) → 0 < b.left → returns b ≡ print [] b
unfolding print
print_nothing b h = ground (arith, append-nil b.text)

-- Code that, with room left, prints a text, after code that prints one.
print_then :
    (s t : Text) (f : Buffer → Run Buffer) (b : Buffer)
    → ((b' : Buffer) → 0 < b'.left → f b' ≡ print t b')
    → (print s b >>= f) ≡ print (s ++ t) b
unfolding print
print_then s t f b h = elim (Bool-cases (leb b.left (length s))) [
  | inl full ↦ rw full (ground (arith, length-append s t))
  | inr room ↦ rw room (
      ground (
        arith,
        h (record { text = b.text ++ s; left = b.left - length s }),
        length-append s t,
        append_assoc b.text s t,
      ))
]

used_lem : (t : Option Text) → is_some t ≡ true → used t ≡ returns (text_or_nothing t)
used_lem none h = absurd (cc)
used_lem (some t) h = refl

condition_lem :
    (table : Option Text) (c : Clause) (s : Text) (b : Buffer)
    → is_some (or_else c.table table) ≡ true
    → is_some c.field ≡ true
    → print_condition table c s b
      ≡ print
          (codes " "
            ++ (text_or_nothing (or_else c.table table)
                ++ (codes "." ++ (text_or_nothing c.field ++ s))))
          b
unfolding print_condition
condition_lem table c s b ht hf = rw (used_lem (or_else c.table table) ht, used_lem c.field hf)

operator_lem :
    (first : Bool) (o : Operator) (b : Buffer)
    → 0 < b.left
    → IsOperator first o
    → print_operator first o b ≡ print (operator_text first o) b
unfolding print_operator
operator_lem true o b h p = print_nothing b h
operator_lem false Operator.and b h p = refl
operator_lem false Operator.or b h p = refl
operator_lem false Operator.unknown b h p = absurd p

clause_lem :
    (table : Option Text) (t : ClauseType) (c : Clause) (inner : Buffer → Run Buffer) (s : Text)
    (P : Type 0) (b : Buffer)
    → t ≡ c.type
    → IsClause table t c P
    → (P → (b' : Buffer) → 0 < b'.left → inner b' ≡ print s b')
    → print_clause table t c inner b ≡ print (clause_text table t c s) b
unfolding print_clause
clause_lem table ClauseType.nested c inner s P b e p h =
    print_then (codes " (") (s ++ codes " )") (λ b'. inner b' >>= λ b''. print (codes " )") b'') b
      (λ b' room.
        rw (h p b' room) (print_then s (codes " )") (print (codes " )")) b' (λ b'' r. refl)))
clause_lem table ClauseType.unknown c inner s P b e p h = absurd p
clause_lem table _ c inner s P b e p h = rw (← e) (condition_lem table c _ b p.0 p.1)

mutual
  unfolding build_loop loop_text

  build_loop_lem :
      (table : Option Text) (first : Bool) (cs : Clauses) (b : Buffer)
      → 0 < b.left
      → IsPrintable table first cs
      → build_loop table first cs b ≡ print (loop_text table first cs) b
  build_loop_lem table first nil b room p = print_nothing b room
  build_loop_lem table first (cons c nested rest) b room p =
      rw (operator_lem first c.clause_operator b room p.0) (
        print_then (operator_text first c.clause_operator) _ _ b λ b' room'.
          rw
            (clause_lem table c.type c (build_clause table nested) (where_text table nested)
              (IsPrintableList table nested) b' refl p.1
              (λ q b'' r. build_clause_lem table nested b'' r q))
            (print_then (clause_text table c.type c (where_text table nested)) _ _ b'
              λ b'' room''. build_loop_lem table false rest b'' room'' p.2))

  build_clause_lem :
      (table : Option Text) (l : ClauseList) (b : Buffer)
      → 0 < b.left
      → IsPrintableList table l
      → build_clause table l b ≡ print (where_text table l) b
  build_clause_lem table absent b room p = absurd p
  build_clause_lem table (list cs) b room p = ground (arith, build_loop_lem table true cs b room p)

operator_converse :
    (first : Bool) (o : Operator) (b b' : Buffer)
    → print_operator first o b ≡ returns b'
    → IsOperator first o
unfolding print_operator
operator_converse true o b b' h = tt
operator_converse false Operator.and b b' h = tt
operator_converse false Operator.or b b' h = tt
operator_converse false Operator.unknown b b' h = cc

condition_converse :
    (table : Option Text) (c : Clause) (s : Text) (b b' : Buffer)
    → print_condition table c s b ≡ returns b'
    → (is_some (or_else c.table table) ≡ true) × (is_some c.field ≡ true)
unfolding print_condition
condition_converse table c s b b' h = ground arith

clause_converse :
    (table : Option Text) (t : ClauseType) (c : Clause) (inner : Buffer → Run Buffer) (P : Type 0)
    (b b' : Buffer)
    → print_clause table t c inner b ≡ returns b'
    → ((d d' : Buffer) → inner d ≡ returns d' → P)
    → IsClause table t c P
unfolding print_clause
clause_converse table ClauseType.nested c inner P b b' e h =
    let (b₁, opened, more) = >>=-eq-returns (print (codes " (") b) _ e in
    let (b₂, built, closed) = >>=-eq-returns (inner b₁) _ more in h b₁ b₂ built
clause_converse table ClauseType.unknown c inner P b b' e h = absurd (cc)
clause_converse table _ c inner P b b' e h = condition_converse table c _ b b' e

mutual
  unfolding build_loop

  build_loop_converse :
      (table : Option Text) (first : Bool) (cs : Clauses) (b b' : Buffer)
      → build_loop table first cs b ≡ returns b'
      → IsPrintable table first cs
  build_loop_converse table first nil b b' h = tt
  build_loop_converse table first (cons c nested rest) b b' h =
      let (b₁, op, more) = >>=-eq-returns (print_operator first c.clause_operator b) _ h in
      let (b₂, cl, last) =
        >>=-eq-returns (print_clause table c.type c (build_clause table nested) b₁) _ more in
      (
        operator_converse first c.clause_operator b b₁ op,
        clause_converse table c.type c (build_clause table nested) (IsPrintableList table nested) b₁
            b₂ cl (λ d d'. build_clause_converse table nested d d'),
        build_loop_converse table false rest b₂ b' last,
      )

  build_clause_converse :
      (table : Option Text) (l : ClauseList) (b b' : Buffer)
      → build_clause table l b ≡ returns b'
      → IsPrintableList table l
  build_clause_converse table absent b b' h = cc
  build_clause_converse table (list cs) b b' h =
      build_loop_converse table true cs b b' (ground arith)

-- The buffer after a text.
abbrev pub written : Text → Buffer → Buffer
written s b = record { text = b.text ++ s; left = b.left - length s }

-- Building the conditions of a clause list into a buffer with room left returns exactly when the
-- list is there, every clause is printable (a known type, a table and a field, a known operator
-- behind the first, and likewise for nested lists) and the text is shorter than the room; then the
-- text of the conditions has been appended, and the room has shrunk by its length.
pub build_clause-where_text :
    (table : Option Text) (l : ClauseList) (b b' : Buffer)
    → 0 < b.left
    → (build_clause table l b ≡ returns b') ↔ (
        IsPrintableList table l
        × (length (where_text table l) < b.left)
        × (b' ≡ written (where_text table l) b))
unfolding print
build_clause-where_text table l b b' room = (
  λ h.
      let p = build_clause_converse table l b b' h in
      let e = build_clause_lem table l b room p in (p, ground arith, ground arith),
  λ (p, fits, e). let built = build_clause_lem table l b room p in ground arith,
)
