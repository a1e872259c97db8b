-- ===== src/Sqlite/Runs.antt =====
-- The theorems on the operations of the SQLite backend at concrete calls, on an engine that keeps
-- the statements that it has stepped.
use dbo.Prelude.{
  ℕ, ◌≡◌, refl, true, false, none, some, List, [], ◌∷◌, error_unknown, ok, done, arith,
}
use dbo.Prelude.Int.{pos, negsuc}
use dbo.Prelude.Text.{Text, codes, same_text}
use dbo.ValueType.{ValueType}
use dbo.Value.{Value, zero_value, type_of, read_text}
use dbo.Value.Convert.{to_int32, to_uint32, from_text, from_int64}
use dbo.Value.Sets
use dbo.Value.Sets.{ValueSet}
use dbo.Object.{ObjectField, DatabaseObject}
use dbo.Chain.{null}
use dbo.Clause.{ClauseType, Operator}
use dbo.Clause.Tree.{ClauseList, list, cons, nil, absent}
use dbo.Sqlite.Bind.{Binds, bind_value, bind_values, bind_clause, Bound, int, int64, text}
use dbo.Sqlite.Session.{Engine, Backend, Row, integer_column, prepared, Stepped}
use dbo.Sqlite.Operations.{no_binds, bind_where, require_revision, create, update, delete}
use dbo.Sqlite.Deleting.{Deleted, delete-Deleted}
use dbo.Sqlite.Updating.{Updated, update-Updated}
use dbo.Sqlite.Inserting.{Inserted, create-Inserted}
use dbo.Sqlite.Keeping.{deletes, perform-Kept}
use dbo.Sqlite.Execute.{Kept, Executed}
use dbo.Value.Storage.{datum}
use dbo.Sqlite.Columns.{read_column}
use dbo.Sqlite.Reading.{back, read_column-bind_value}
use dbo.Sqlite.Results.{Cursor, read, next, count}
use dbo.Sqlite.Opening.{Selected, read-Selected}
use dbo.Sqlite.Succeeding.{delete-ok}
use dbo.Sqlite.Texts.{delete_text}
use dbo.Sqlite.Where.{where_text}
use dbo.Sqlite.Revision.{find_revision}
use dbo.Sqlite.Counting.{Counted, count_text, count-Counted}
use dbo.Sqlite.Next.{Fetched, next-Fetched}
use dbo.Sqlite.Transactions.{begin, Answers, transact, transact_lem}

-- A database is the list of the statements that have been stepped, the last one first.
abbrev pub Journal : Type 0
Journal = List (Text × List (ℕ × Bound))

abbrev row : Row
row = record {
  int = λ k. pos 7;
  int64 = λ k. pos 7;
  text = λ k. some (codes "bob");
  type = λ k. integer_column;
  is_error = λ k. false;
}

abbrev pub engine : Engine Journal
engine = record {
  prepares = λ db sql. prepared true;
  accepts = λ db sql k x. true;
  steps = λ db sql bound. ((sql, bound) ∷ db, Stepped.finished);
  changes = λ db. 1;
  row = λ db sql bound. row;
}

abbrev pub backend : Journal → Backend Journal
backend db = record {
  initialized = true;
  db = some db;
  transaction = false;
  timeout = pos 10;
  usleep = pos 100;
  live = 0;
}

abbrev seven : Value
seven = record zero_value { type = ValueType.int32; int32 = pos 7 }

abbrev pub bob : Value
bob = record zero_value { type = ValueType.text; text = some (codes "bob") }

abbrev pub name_field : ObjectField
name_field = record { name = some (codes "name"); type = ValueType.text; enum_set = none }

abbrev pub rev_field : ObjectField
rev_field = record { name = some (codes "rev"); type = ValueType.revision; enum_set = none }

abbrev pub contact : DatabaseObject
contact = record {
  table = some (codes "t");
  primary_key_name = some (codes "id");
  object_field_list = some (name_field ∷ rev_field ∷ []);
}

abbrev pub rev_is_seven : ClauseList
rev_is_seven = list (
    cons
      (record {
        table = none;
        field = some (codes "rev");
        type = ClauseType.equal;
        value = seven;
        clause_operator = Operator.and;
        clause_list = null;
      })
      absent nil)

abbrev pub bob_set : ValueSet
bob_set = record { values = some (bob ∷ []); size = 1 }

delete-Deleted_example :
    (true ≡ true)
    × Deleted engine
        (backend [])
        contact
        rev_is_seven
        (backend ((codes "DELETE FROM t WHERE t.rev = ?", (1, int (pos 7)) ∷ []) ∷ []))
unfolding delete type_of to_int32 same_text bind_clause
delete-Deleted_example = delete-Deleted engine (backend []) contact rev_is_seven _ refl

update-Updated_example :
    (true ≡ true)
    × Updated engine (backend []) contact (name_field ∷ []) bob_set rev_is_seven (
        backend (
          (
            codes "UPDATE t SET name = ?, rev = ? WHERE t.rev = ?",
            (1, text (some (codes "bob"))) ∷ (2, int64 (pos 8)) ∷ (3, int (pos 7)) ∷ [],
          )
          ∷ []))
unfolding update type_of to_int32 read_text Sets.size_of Sets.at same_text bind_values bind_clause
update-Updated_example =
    update-Updated engine (backend []) contact (name_field ∷ []) bob_set rev_is_seven _ refl

create-Inserted_example :
    (true ≡ true)
    × Inserted engine (backend []) contact (name_field ∷ []) bob_set (
        backend (
          (
            codes "INSERT INTO t ( name, rev ) VALUES ( ?, ? )",
            (1, text (some (codes "bob"))) ∷ (2, int (pos 1)) ∷ [],
          )
          ∷ []))
unfolding create type_of read_text Sets.size_of Sets.at bind_values
create-Inserted_example =
    create-Inserted engine (backend []) contact (name_field ∷ []) bob_set _ refl

-- A delete without the clause on the revision.
perform-Kept_example : Kept (backend []) (backend [])
unfolding delete
perform-Kept_example =
    perform-Kept engine (deletes absent) (backend []) contact error_unknown (backend []) refl

transact_lem_example :
    Answers engine begin (some (backend [])) (transact engine begin (some (backend [])))
transact_lem_example = transact_lem engine begin (some (backend []))

-- An engine whose statements all stand at the row above after a step.
abbrev row_engine : Engine Journal
row_engine = record engine { steps = λ db sql bound. ((sql, bound) ∷ db, Stepped.row) }

abbrev select_contacts : Text
select_contacts = codes "SELECT t.name, t.rev FROM t WHERE t.rev = ?"

abbrev pub cursor : Cursor
cursor = record {
  statement = record { sql = select_contacts; exists = true };
  bound = (1, int (pos 7)) ∷ [];
  fields = 2;
  object = some contact;
}

read-Selected_example :
    Selected engine (backend []) contact none rev_is_seven cursor (record (backend []) { live = 1 })
unfolding read type_of to_int32 bind_clause
read-Selected_example =
    read-Selected engine (backend []) contact none rev_is_seven (true ∷ true ∷ []) cursor _ [] refl
      refl

abbrev seven_read : Value
seven_read = record zero_value { type = ValueType.int64; int64 = pos 7 }

abbrev contact_read : ValueSet
contact_read = record { values = some (bob ∷ seven_read ∷ zero_value ∷ zero_value ∷ []); size = 2 }

next-Fetched_example :
    Fetched row_engine
      (backend [])
      cursor
      contact_read
      (some cursor)
      (backend ((select_contacts, (1, int (pos 7)) ∷ []) ∷ []))
unfolding next Sets.new Sets.at from_text Sets.store_at from_int64
next-Fetched_example =
    next-Fetched row_engine (backend []) _ cursor _ (true ∷ true ∷ true ∷ true ∷ []) [] contact_read
      refl

abbrev big : Value
big = record zero_value { type = ValueType.uint32; uint32 = 4294967289 }

abbrev big_row : Row
big_row = record row { int = λ k. negsuc 6 }

abbrev big_binds : Binds
big_binds = record { bind = 2; bound = (1, int (negsuc 6)) ∷ [] }

read_column-bind_value_example :
    (w : Value) × ((read_column big_row 0 ValueType.uint32 (some zero_value) (true ∷ [])).0 ≡ ok)
    × ((read_column big_row 0 ValueType.uint32 (some zero_value) (true ∷ [])).1 ≡ some w)
    × (datum w ≡ back (datum big))
unfolding bind_value type_of to_uint32
read_column-bind_value_example =
    read_column-bind_value (λ k x. true) big_row 0 big no_binds big_binds (int (negsuc 6)) []
      (omega arith, omega arith) refl refl refl refl refl

count-Counted_example :
    (t : Text) × (contact.table ≡ some t)
    × Counted engine
        (backend [])
        (count_text t none rev_is_seven)
        rev_is_seven
        7
        (backend ((codes "SELECT COUNT(*) FROM t WHERE t.rev = ?", (1, int (pos 7)) ∷ []) ∷ []))
unfolding count type_of to_int32 bind_clause
count-Counted_example = count-Counted engine (backend []) contact none rev_is_seven 0 7 _ refl refl

abbrev pub deleted_journal : Journal
deleted_journal = (codes "DELETE FROM t WHERE t.rev = ?", (1, int (pos 7)) ∷ []) ∷ []

deleted_text : delete_text (codes "t") rev_is_seven ≡ codes "DELETE FROM t WHERE t.rev = ?"
unfolding where_text
deleted_text = refl

executed :
    Executed engine
      (backend [])
      (delete_text (codes "t") rev_is_seven)
      (λ accepts. bind_where rev_is_seven accepts no_binds)
      true
      (backend deleted_journal)
unfolding where_text bind_clause type_of to_int32
executed = record {
  db = [];
  opened = refl;
  prepares = refl;
  binds = record { bind = 2; bound = (1, int (pos 7)) ∷ [] };
  bound = refl;
  finishes = refl;
  after = refl;
  changed = λ r. omega arith;
}

delete-ok_example :
    delete engine (some (backend [])) (some contact) rev_is_seven
    ≡ done (ok, some (backend deleted_journal))
unfolding find_revision require_revision same_text where_text
delete-ok_example =
    delete-ok engine (backend []) contact rev_is_seven (backend deleted_journal) (codes "t")
      (some rev_field) refl refl refl refl (tt, (refl, refl), tt) (omega arith) executed
