-- ===== src/Sqlite/Statements.antt =====
-- src/libdbo_backend_sqlite.c: the SQL texts of create, read, update, delete and count.
use dbo.Prelude.{◌++◌, Bool, true, false, Option, none, some, List, [], ◌∷◌, if◌then◌else◌}
use dbo.Prelude.Text.{Text, codes}
use dbo.Prelude.Run.{Run, returns, ◌>>=◌, used}
use dbo.Clause.Tree.{ClauseList, nil, cons, absent, list}
use dbo.Object.{ObjectField, DatabaseObject, fields_of}
use dbo.Join.{Join}
use dbo.Sqlite.Sql.{Buffer, empty_buffer, print, build_clause}

-- A loop that prints fields: a space before the first, a comma and a space before the others.
unfoldable pub print_fields :
    (ObjectField → Run Text) → Bool → List ObjectField → Buffer → Run Buffer
unfolding print
print_fields item first [] b = returns b
print_fields item first (f ∷ fs) b = do
  s ← item f
  b ← print ((if first then codes " " else codes ", ") ++ s) b
  print_fields item false fs b

-- `first` after such a loop
abbrev pub is_empty : List ObjectField → Bool
is_empty [] = true
is_empty (f ∷ fs) = false

abbrev pub to_list : Option ObjectField → List ObjectField
to_list none = []
to_list (some f) = f ∷ []

-- The loop over the fields, and the revision field behind them.
unfoldable pub print_with_revision :
    (ObjectField → Run Text) → List ObjectField → Option ObjectField → Buffer → Run Buffer
unfolding print_fields
print_with_revision item fs revision b = do
  b ← print_fields item true fs b
  print_fields item (is_empty fs) (to_list revision) b

-- The arguments of snprintf for one field.
abbrev pub name_item : ObjectField → Run Text
name_item f = used f.name

abbrev pub mark_item : ObjectField → Run Text
mark_item f = returns (codes "?")

abbrev pub assign_item : ObjectField → Run Text
assign_item f = used f.name >>= λ n. returns (n ++ codes " = ?")

abbrev pub column_item : Option Text → ObjectField → Run Text
column_item table f = used table >>= λ t. used f.name >>= λ n. returns (t ++ (codes "." ++ n))

-- `if (clause_list) { … }`: WHERE before a list that is not empty, and the conditions.
unfoldable pub print_where : Option Text → ClauseList → Buffer → Run Buffer
unfolding print build_clause
print_where table absent b = returns b
print_where table (list nil) b = build_clause table (list nil) b
print_where table (list (cons c nested rest)) b = do
  b ← print (codes " WHERE") b
  build_clause table (list (cons c nested rest)) b

-- The text of one join.
abbrev pub join_sql : Text → Text → Text → Text → Text
join_sql to_table to_field from_table from_field =
    codes " INNER JOIN "
    ++ (to_table
        ++ (codes " ON "
            ++ (to_table
                ++ (codes "."
                    ++ (to_field ++ (codes " = " ++ (from_table ++ (codes "." ++ from_field))))))))

-- The loop over the joins.
unfoldable pub print_joins : List Join → Buffer → Run Buffer
unfolding print
print_joins [] b = returns b
print_joins (j ∷ js) b = do
  to_table ← used j.to_table
  to_field ← used j.to_field
  from_table ← used j.from_table
  from_field ← used j.from_field
  b ← print (join_sql to_table to_field from_table from_field) b
  print_joins js b

-- The text of create where there are fields.
unfoldable pub insert_fields_sql : Text → List ObjectField → Option ObjectField → Run Buffer
unfolding print print_with_revision
insert_fields_sql t fs revision = do
  b ← print (codes "INSERT INTO " ++ (t ++ codes " (")) empty_buffer
  b ← print_with_revision name_item fs revision b
  b ← print (codes " ) VALUES (") b
  b ← print_with_revision mark_item fs revision b
  print (codes " )") b

unfoldable pub insert_sql : DatabaseObject → List ObjectField → Option ObjectField → Run Buffer
unfolding print insert_fields_sql
insert_sql object [] none = do
  t ← used object.table
  print (codes "INSERT INTO " ++ (t ++ codes " DEFAULT VALUES")) empty_buffer
insert_sql object fs revision = do t ← used object.table; insert_fields_sql t fs revision

unfoldable pub update_sql :
    DatabaseObject → List ObjectField → Option ObjectField → ClauseList → Run Buffer
unfolding print print_with_revision print_where
update_sql object fs revision l = do
  t ← used object.table
  b ← print (codes "UPDATE " ++ (t ++ codes " SET")) empty_buffer
  b ← print_with_revision assign_item fs revision b
  print_where object.table l b

unfoldable pub delete_sql : DatabaseObject → ClauseList → Run Buffer
unfolding print print_where
delete_sql object l = do
  t ← used object.table
  b ← print (codes "DELETE FROM " ++ t) empty_buffer
  print_where object.table l b

-- The part of read and count from FROM on.
unfoldable pub print_from : DatabaseObject → Option (List Join) → ClauseList → Buffer → Run Buffer
unfolding print print_joins print_where
print_from object joins l b = do
  t ← used object.table
  b ← print (codes " FROM " ++ t) b
  b ← elim joins [ none ↦ returns b | some js ↦ print_joins js b ]
  print_where object.table l b

unfoldable pub select_sql : DatabaseObject → Option (List Join) → ClauseList → Run Buffer
unfolding print print_fields print_from
select_sql object joins l = do
  b ← print (codes "SELECT") empty_buffer
  b ← print_fields (column_item object.table) true (fields_of object.object_field_list) b
  print_from object joins l b

unfoldable pub count_sql : DatabaseObject → Option (List Join) → ClauseList → Run Buffer
unfolding print print_from
count_sql object joins l = do
  b ← print (codes "SELECT COUNT(*)") empty_buffer
  print_from object joins l b
