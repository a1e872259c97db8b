-- ===== src/Sqlite/Examples.antt =====
-- The theorems on SQL texts and bound values at a concrete clause list.
use dbo.Prelude.{◌≡◌, refl, none, some, [], ◌∷◌, true, arith}
use dbo.Prelude.Int.{pos}
use dbo.Prelude.Text.{Text, codes}
use dbo.Prelude.Run.{returns}
use dbo.ValueType.{ValueType}
use dbo.Value.{Value, zero_value, type_of, read_text}
use dbo.Value.Convert.{to_int32}
use dbo.Chain.{null}
use dbo.Clause.{ClauseType, Operator, Clause}
use dbo.Clause.Tree.{ClauseList, nil, cons, absent, list}
use dbo.Sqlite.Sql.{empty_buffer, build_clause}
use dbo.Sqlite.Where.{where_text, written, build_clause-where_text}
use dbo.Sqlite.Bind.{Binds, Accepts, int, text, bind_clause}
use dbo.Sqlite.Marks.{marks, BindsMore, bind_clause-marks}

abbrev clause : Text → ClauseType → Value → Operator → Clause
clause f t v o = record {
  table = none;
  field = some f;
  type = t;
  value = v;
  clause_operator = o;
  clause_list = null;
}

abbrev nested_clause : Clause
nested_clause = record (clause [] ClauseType.nested zero_value Operator.or) {
  field = none;
  clause_list = 5;
}

abbrev seven : Value
seven = record zero_value { type = ValueType.int32; int32 = pos 7 }

abbrev bob : Value
bob = record zero_value { type = ValueType.text; text = some (codes "bob") }

-- id = 7 OR (name = bob AND note IS NULL)
abbrev conditions : ClauseList
conditions = list (
    cons (clause (codes "id") ClauseType.equal seven Operator.and) absent (
      cons nested_clause
        (list (
          cons (clause (codes "name") ClauseType.equal bob Operator.and) absent
            (cons (clause (codes "note") ClauseType.is_null bob Operator.and) absent nil)))
        nil))

abbrev accepts_all : Accepts
accepts_all k x = true

conditions_text :
    where_text (some (codes "t")) conditions
    ≡ codes " t.id = ? OR ( t.name = ? AND t.note IS NULL )"
unfolding where_text
conditions_text = refl

build_clause-where_text_example :
    build_clause (some (codes "t")) conditions empty_buffer
    ≡ returns (written (where_text (some (codes "t")) conditions) empty_buffer)
unfolding where_text
build_clause-where_text_example =
    (build_clause-where_text (some (codes "t")) conditions empty_buffer
        (written (where_text (some (codes "t")) conditions) empty_buffer) (omega arith)).1
      ((tt, (refl, refl), (tt, (tt, (refl, refl), (tt, (refl, refl), tt)), tt)), omega arith, refl)

abbrev bound_twice : Binds
bound_twice = record { bind = 3; bound = (1, int (pos 7)) ∷ (2, text (some (codes "bob"))) ∷ [] }

bind_clause-marks_example :
    BindsMore
      (marks (where_text (some (codes "t")) conditions))
      (record { bind = 1; bound = [] })
      bound_twice
unfolding bind_clause type_of to_int32 read_text
bind_clause-marks_example =
    bind_clause-marks accepts_all (some (codes "t")) conditions (record { bind = 1; bound = [] })
      bound_twice (refl, refl, tt, (refl, refl, (refl, refl, tt, (refl, refl, tt, tt)), tt)) refl
