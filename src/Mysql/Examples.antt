-- ===== src/Mysql/Examples.antt =====
-- The theorems on the MySQL backend at concrete calls, on a server that keeps what it has executed.
use dbo.Prelude.{ℕ, ◌≡◌, refl, true, false, none, some, List, [], ◌∷◌, ok}
use dbo.Prelude.Int.{pos}
use dbo.Prelude.Text.{Text, codes, same_text, atoi, signed_number, digits}
use dbo.ValueType.{ValueType}
use dbo.Value
use dbo.Value.{Value, zero_value}
use dbo.Value.Convert.{from_int64, to_int64}
use dbo.Value.Sets
use dbo.Value.Sets.{ValueSet}
use dbo.Object.{ObjectField, DatabaseObject}
use dbo.Chain.{null}
use dbo.Clause.{Clause, ClauseType, Operator}
use dbo.Clause.Tree.{ClauseList, list, cons, nil, absent}
use dbo.Sqlite.Where.{where_text}
use dbo.Mysql.Bind.{
  Inputs, Sent, long, longlong, bind_clause, bind_value_set, bind_revision, sender,
}
use dbo.Sqlite.Revision.{find_revision, revision_clause, revision_number}
use dbo.Mysql.Gaps.{list_gaps, bind_clause-gaps}
use dbo.Mysql.Session.{Server, Backend}
use dbo.Mysql.Operations.{update}
use dbo.Configuration.{Configuration, find, find_loop, not_empty, value_of}
use dbo.Mysql.Life.{
  Client, zero_data, connect, configure, real_connect, port_of, timeout_of, number, text_of,
}
use dbo.Mysql.Closing.{Connected, connect-Connected}
use dbo.Mysql.Revising.{SentZero, updates, write-SentZero}

abbrev seven : Value
seven = record zero_value { type = ValueType.int32; int32 = pos 7 }

abbrev equals : Clause
equals = record {
  table = none;
  field = some (codes "a");
  type = ClauseType.equal;
  value = seven;
  clause_operator = Operator.and;
  clause_list = null;
}

abbrev conditions : ClauseList
conditions = list (cons equals absent nil)

abbrev one_bind : Inputs
one_bind = record { params = 1; bind = 0; sends = [] }

bind_clause-gaps_example : (list_gaps conditions ≡ 0) × (1 ≡ one_bind.params)
unfolding bind_clause sender where_text Value.type_of Value.read_int32
bind_clause-gaps_example =
    bind_clause-gaps (some (codes "t")) conditions one_bind _ (refl, refl, tt, tt) refl refl

abbrev Journal : Type 0
Journal = List (Text × List (ℕ × Sent))

abbrev server : Server Journal
server = record {
  prepares = λ db sql. some 3;
  executes = λ db sql sent. ((sql, sent) ∷ db, true);
  affected_rows = λ db. 1;
}

abbrev backend : Journal → Backend Journal
backend db = record {
  initialized = true;
  db = some db;
  transaction = false;
  timeout = 30;
  live = 0;
}

abbrev rev_field : ObjectField
rev_field = record { name = some (codes "rev"); type = ValueType.revision; enum_set = none }

abbrev a_field : ObjectField
a_field = record { name = some (codes "a"); type = ValueType.int32; enum_set = none }

abbrev object : DatabaseObject
object = record {
  table = some (codes "t");
  primary_key_name = some (codes "id");
  object_field_list = some (a_field ∷ rev_field ∷ []);
}

abbrev sevens : ValueSet
sevens = record { values = some (seven ∷ []); size = 1 }

-- The condition that the row has the revision 5.
abbrev at_five : ClauseList
at_five = list (
    cons
      (record {
        table = none;
        field = some (codes "rev");
        type = ClauseType.equal;
        value = record zero_value { type = ValueType.int64; int64 = pos 5 };
        clause_operator = Operator.and;
        clause_list = null;
      })
      absent nil)

write-SentZero_example : SentZero server sevens (backend []) (
    backend (
      (
        codes "UPDATE t SET a = ?, rev = ? WHERE t.rev = ?",
        (0, long (pos 7)) ∷ (1, longlong (pos 0)) ∷ (2, longlong (pos 5)) ∷ [],
      )
      ∷ []))
unfolding update find_revision revision_clause revision_number sender Value.type_of Value.read_int32
    Value.read_int64 Sets.size_of Sets.at from_int64 bind_value_set bind_revision bind_clause
    same_text to_int64
write-SentZero_example =
    write-SentZero server (updates (a_field ∷ []) sevens at_five) (backend []) _ object rev_field
      (true ∷ true ∷ true ∷ true ∷ true ∷ []) [] refl refl

-- A client that opens a connection for any configuration.
abbrev client : Client Journal
client = record {
  initializes = true;
  allocates = some [];
  options = λ db t. some db;
  connects = λ db host user pass name port. some db;
  autocommits = λ db. some db;
}

abbrev setting : Text → Text → Configuration
setting n v = record { name = some n; value = some v }

abbrev settings : List Configuration
settings = setting (codes "db") (codes "app") ∷ setting (codes "timeout") (codes "7") ∷ []

abbrev idle : Backend Journal
idle = zero_data true

connect-Connected_example :
    Connected client server idle [] ok (record idle { timeout = 7; db = some [] })
unfolding connect configure real_connect port_of timeout_of number text_of find find_loop not_empty
    value_of same_text atoi signed_number digits
connect-Connected_example =
    connect-Connected client server idle (record idle { timeout = 7; db = some [] }) settings ok []
      refl refl refl refl
