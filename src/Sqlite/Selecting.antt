-- ===== src/Sqlite/Selecting.antt =====
-- The SELECT text of libdbo_backend_sqlite.c as a plain text, and that the code prints it.
use dbo.Prelude.{◌≡◌, refl, ◌++◌, true, Option, none, some, List, [], ◌∷◌, arith, ◌<◌}
use mathlib.Core.Path.{subst}
use dbo.Prelude.Text.{Text, codes}
use dbo.Prelude.Run.{returns, ◌>>=◌, >>=-eq-returns, used}
use dbo.Object.{ObjectField, DatabaseObject, fields_of}
use dbo.Clause.Tree.{ClauseList}
use dbo.Join.{Join}
use dbo.Sqlite.Sql.{Buffer, empty_buffer, print}
use dbo.Sqlite.Where.{text_or_nothing}
use dbo.Sqlite.Prints.{Prints, print-Prints, Prints-refl, Prints-trans, Prints-room, used-eq}
use dbo.Sqlite.Texts.{fields_text, where_part, print_fields-Prints, print_where-Prints}
use dbo.Sqlite.Statements.{join_sql, column_item, print_fields, print_joins, print_from, select_sql}

abbrev join_text : Join → Text
join_text j =
    join_sql (text_or_nothing j.to_table) (text_or_nothing j.to_field)
      (text_or_nothing j.from_table) (text_or_nothing j.from_field)

abbrev joins_text : List Join → Text
joins_text [] = []
joins_text (j ∷ js) = join_text j ++ joins_text js

abbrev optional_joins_text : Option (List Join) → Text
optional_joins_text none = []
optional_joins_text (some js) = joins_text js

abbrev column_text : Text → ObjectField → Text
column_text t f = t ++ (codes "." ++ text_or_nothing f.name)

abbrev pub from_text : Text → Option (List Join) → ClauseList → Text
from_text t joins l = (codes " FROM " ++ t) ++ (optional_joins_text joins ++ where_part (some t) l)

abbrev pub select_text : Text → List ObjectField → Option (List Join) → ClauseList → Text
select_text t fs joins l =
    codes "SELECT" ++ (fields_text (column_text t) true fs ++ from_text t joins l)

column_agree :
    (t : Text) (f : ObjectField) (s : Text)
    → column_item (some t) f ≡ returns s
    → s ≡ column_text t f
column_agree t f s h =
    let (n, named, rest) = >>=-eq-returns (used f.name) _ h in
    ground (arith, used-eq f.name n named, rest)

join_text-join_sql :
    (j : Join) (a x c y : Text)
    → j.to_table ≡ some a
    → j.to_field ≡ some x
    → j.from_table ≡ some c
    → j.from_field ≡ some y
    → join_sql a x c y ≡ join_text j
join_text-join_sql j a x c y e₁ e₂ e₃ e₄ = rw (e₁, e₂, e₃, e₄) refl

print_joins-Prints :
    (js : List Join) (b b' : Buffer)
    → 0 < b.left
    → print_joins js b ≡ returns b'
    → Prints (joins_text js) b b'
unfolding print_joins
print_joins-Prints [] b b' room h = subst (Prints [] b) (ground arith) (Prints-refl b room)
print_joins-Prints (j ∷ js) b b' room h =
    let (a, h₁, m₁) = >>=-eq-returns (used j.to_table) _ h in
    let (x, h₂, m₂) = >>=-eq-returns (used j.to_field) _ m₁ in
    let (c, h₃, m₃) = >>=-eq-returns (used j.from_table) _ m₂ in
    let (y, h₄, m₄) = >>=-eq-returns (used j.from_field) _ m₃ in
    let (b₁, one, rest) = >>=-eq-returns (print (join_sql a x c y) b) _ m₄ in
    let p : Prints (join_text j) b b₁ =
      subst (λ s. Prints s b b₁)
        (join_text-join_sql j a x c y (used-eq j.to_table a h₁) (used-eq j.to_field x h₂)
          (used-eq j.from_table c h₃) (used-eq j.from_field y h₄))
        (print-Prints (join_sql a x c y) b b₁ one) in
    Prints-trans (join_text j) (joins_text js) b b₁ b' p
      (print_joins-Prints js b₁ b' (Prints-room _ b b₁ p) rest)

optional_joins-Prints :
    (joins : Option (List Join)) (b b' : Buffer)
    → 0 < b.left
    → elim joins [ none ↦ returns b | some js ↦ print_joins js b ] ≡ returns b'
    → Prints (optional_joins_text joins) b b'
optional_joins-Prints none b b' room h =
    subst (Prints [] b) (ground (arith, h)) (Prints-refl b room)
optional_joins-Prints (some js) b b' room h = print_joins-Prints js b b' room h

pub print_from-Prints :
    (object : DatabaseObject) (t : Text) (joins : Option (List Join)) (l : ClauseList)
    (b b' : Buffer)
    → object.table ≡ some t
    → print_from object joins l b ≡ returns b'
    → Prints (from_text t joins l) b b'
unfolding print_from
print_from-Prints object t joins l b b' e h =
    let (u, named, more) = >>=-eq-returns (used object.table) _ h in
    let (b₁, h₁, m₁) = >>=-eq-returns (print (codes " FROM " ++ u) b) _ more in
    let (b₂, h₂, h₃) =
      >>=-eq-returns (elim joins [ none ↦ returns b₁ | some js ↦ print_joins js b₁ ]) _ m₁ in
    let u_eq : u ≡ t = ground (arith, used-eq object.table u named, e) in
    let p₁ =
      subst (λ x. Prints (codes " FROM " ++ x) b b₁) u_eq
        (print-Prints (codes " FROM " ++ u) b b₁ h₁) in
    let p₂ = optional_joins-Prints joins b₁ b₂ (Prints-room _ b b₁ p₁) h₂ in
    let p₃ =
      subst (λ o. Prints (where_part o l) b₂ b') e
        (print_where-Prints object.table l b₂ b' (Prints-room _ b₁ b₂ p₂) h₃) in
    Prints-trans _ _ b b₁ b' p₁ (Prints-trans _ _ b₁ b₂ b' p₂ p₃)

pub select_sql-Prints :
    (object : DatabaseObject) (joins : Option (List Join)) (l : ClauseList) (t : Text) (b : Buffer)
    → object.table ≡ some t
    → select_sql object joins l ≡ returns b
    → Prints (select_text t (fields_of object.object_field_list) joins l) empty_buffer b
unfolding select_sql
select_sql-Prints object joins l t b e h =
    let fs = fields_of object.object_field_list in
    let (b₁, h₁, m₁) =
      >>=-eq-returns (print (codes "SELECT") empty_buffer)
        (λ b. print_fields (column_item object.table) true fs b >>= print_from object joins l) h in
    let (b₂, h₂, h₃) =
      >>=-eq-returns (print_fields (column_item object.table) true fs b₁)
        (print_from object joins l) m₁ in
    let p₁ = print-Prints (codes "SELECT") empty_buffer b₁ h₁ in
    let p₂ =
      print_fields-Prints (column_item (some t)) (column_text t) (column_agree t) true fs b₁ b₂
        (Prints-room _ empty_buffer b₁ p₁)
        (subst (λ o. print_fields (column_item o) true fs b₁ ≡ returns b₂) e h₂) in
    let p₃ = print_from-Prints object t joins l b₂ b e h₃ in
    Prints-trans _ _ empty_buffer b₁ b p₁ (Prints-trans _ _ b₁ b₂ b p₂ p₃)

pub from_table_eq :
    (object : DatabaseObject) (joins : Option (List Join)) (l : ClauseList) (b b' : Buffer)
    → print_from object joins l b ≡ returns b'
    → (t : Text) × (object.table ≡ some t)
unfolding print_from
from_table_eq object joins l b b' h =
    let (t, named, more) = >>=-eq-returns (used object.table) _ h in
    (t, used-eq object.table t named)

pub select_table :
    (object : DatabaseObject) (joins : Option (List Join)) (l : ClauseList) (b : Buffer)
    → select_sql object joins l ≡ returns b
    → (t : Text) × (object.table ≡ some t)
unfolding select_sql
select_table object joins l b h =
    let fs = fields_of object.object_field_list in
    let (b₁, h₁, m₁) =
      >>=-eq-returns (print (codes "SELECT") empty_buffer)
        (λ b. print_fields (column_item object.table) true fs b >>= print_from object joins l) h in
    let (b₂, h₂, h₃) =
      >>=-eq-returns (print_fields (column_item object.table) true fs b₁)
        (print_from object joins l) m₁ in
    from_table_eq object joins l b₂ b h₃
