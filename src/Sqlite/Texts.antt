-- ===== src/Sqlite/Texts.antt =====
-- The SQL texts of src/libdbo_backend_sqlite.c as plain texts, and the proofs that the code prints
-- them.
use dbo.Prelude.{
  ◌<◌, ◌≡◌, ◌++◌, Bool, true, false, Option, some, List, [], ◌∷◌, if◌then◌else◌, arith,
}
use dbo.Prelude.Text.{Text, codes}
use mathlib.Core.Path.{subst}
use dbo.Prelude.Run.{Run, returns, used, >>=-eq-returns}
use dbo.Clause.Tree.{ClauseList, nil, cons, absent, list}
use dbo.Object.{ObjectField, DatabaseObject}
use dbo.Sqlite.Sql.{Buffer, empty_buffer, print}
use dbo.Sqlite.Where.{text_or_nothing, where_text}
use dbo.Sqlite.Prints.{
  Prints, print-Prints, Prints-refl, Prints-trans, Prints-room, build_clause-Prints, used-eq,
}
use dbo.Sqlite.Statements.{
  print_fields, is_empty, to_list, print_with_revision, print_where, assign_item, update_sql,
  delete_sql,
}

-- The end of a statement: nothing for a NULL or an empty list.
abbrev pub where_part : Option Text → ClauseList → Text
where_part table absent = []
where_part table (list nil) = []
where_part table (list (cons c nested rest)) =
    codes " WHERE" ++ where_text table (list (cons c nested rest))

abbrev pub fields_text : (ObjectField → Text) → Bool → List ObjectField → Text
fields_text item first [] = []
fields_text item first (f ∷ fs) =
    ((if first then codes " " else codes ", ") ++ item f) ++ fields_text item false fs

abbrev pub assign_text : ObjectField → Text
assign_text f = text_or_nothing f.name ++ codes " = ?"

abbrev pub delete_text : Text → ClauseList → Text
delete_text t l = (codes "DELETE FROM " ++ t) ++ where_part (some t) l

abbrev pub update_text : Text → List ObjectField → Option ObjectField → ClauseList → Text
update_text t fs revision l =
    (codes "UPDATE " ++ (t ++ codes " SET"))
    ++ ((fields_text assign_text true fs
          ++ fields_text assign_text (is_empty fs) (to_list revision))
        ++ where_part (some t) l)

pub print_where-Prints :
    (table : Option Text) (l : ClauseList) (b b' : Buffer)
    → 0 < b.left
    → print_where table l b ≡ returns b'
    → Prints (where_part table l) b b'
unfolding print_where where_text
print_where-Prints table absent b b' room h =
    subst (Prints [] b) (ground arith) (Prints-refl b room)
print_where-Prints table (list nil) b b' room h = build_clause-Prints table (list nil) b b' room h
print_where-Prints table (list (cons c nested rest)) b b' room h =
    let (b₁, wh, more) = >>=-eq-returns (print (codes " WHERE") b) _ h in
    let p = print-Prints (codes " WHERE") b b₁ wh in
    Prints-trans (codes " WHERE") (where_text table (list (cons c nested rest))) b b₁ b' p
      (build_clause-Prints table (list (cons c nested rest)) b₁ b' (Prints-room _ b b₁ p) more)

pub print_fields-Prints :
    (item : ObjectField → Run Text) (text : ObjectField → Text)
    (agree : (f : ObjectField) (s : Text) → item f ≡ returns s → s ≡ text f) (first : Bool)
    (fs : List ObjectField) (b b' : Buffer)
    → 0 < b.left
    → print_fields item first fs b ≡ returns b'
    → Prints (fields_text text first fs) b b'
unfolding print_fields
print_fields-Prints item text agree first [] b b' room h =
    subst (Prints [] b) (ground arith) (Prints-refl b room)
print_fields-Prints item text agree first (f ∷ fs) b b' room h =
    let (s, got, more) = >>=-eq-returns (item f) _ h in
    let (b₁, one, rest) =
      >>=-eq-returns (print ((if first then codes " " else codes ", ") ++ s) b) _ more in
    let p =
      subst (λ s. Prints ((if first then codes " " else codes ", ") ++ s) b b₁) (agree f s got)
        (print-Prints _ b b₁ one) in
    Prints-trans _ (fields_text text false fs) b b₁ b' p
      (print_fields-Prints item text agree false fs b₁ b' (Prints-room _ b b₁ p) rest)

pub print_with_revision-Prints :
    (item : ObjectField → Run Text) (text : ObjectField → Text)
    (agree : (f : ObjectField) (s : Text) → item f ≡ returns s → s ≡ text f) (fs : List ObjectField)
    (revision : Option ObjectField) (b b' : Buffer)
    → 0 < b.left
    → print_with_revision item fs revision b ≡ returns b'
    → Prints (fields_text text true fs ++ fields_text text (is_empty fs) (to_list revision)) b b'
unfolding print_with_revision
print_with_revision-Prints item text agree fs revision b b' room h =
    let (b₁, front, back) = >>=-eq-returns (print_fields item true fs b) _ h in
    let p = print_fields-Prints item text agree true fs b b₁ room front in
    Prints-trans (fields_text text true fs) _ b b₁ b' p (
      print_fields-Prints item text agree (is_empty fs) (to_list revision) b₁ b'
        (Prints-room _ b b₁ p) back)

assign_agree : (f : ObjectField) (s : Text) → assign_item f ≡ returns s → s ≡ assign_text f
assign_agree f s h =
    let (n, named, rest) = >>=-eq-returns (used f.name) _ h in
    ground (arith, used-eq f.name n named, rest)

-- The text of delete, where it is built.
pub delete_sql-Prints :
    (object : DatabaseObject) (l : ClauseList) (b : Buffer)
    → delete_sql object l ≡ returns b
    → (t : Text) × (object.table ≡ some t) × Prints (delete_text t l) empty_buffer b
unfolding delete_sql
delete_sql-Prints object l b h =
    let (t, named, more) = >>=-eq-returns (used object.table) _ h in
    let e = used-eq object.table t named in
    let (b₁, head, rest) = >>=-eq-returns (print (codes "DELETE FROM " ++ t) empty_buffer) _ more in
    let p = print-Prints (codes "DELETE FROM " ++ t) empty_buffer b₁ head in
    (
      t,
      e,
      Prints-trans (codes "DELETE FROM " ++ t) (where_part (some t) l) empty_buffer b₁ b p (
          subst (λ o. Prints (where_part o l) b₁ b) e
            (print_where-Prints object.table l b₁ b (Prints-room _ empty_buffer b₁ p) rest)),
    )

-- The text of update, where it is built.
pub update_sql-Prints :
    (object : DatabaseObject) (fs : List ObjectField) (revision : Option ObjectField)
    (l : ClauseList) (b : Buffer)
    → update_sql object fs revision l ≡ returns b
    → (t : Text) × (object.table ≡ some t) × Prints (update_text t fs revision l) empty_buffer b
unfolding update_sql
update_sql-Prints object fs revision l b h =
    let (t, named, more) = >>=-eq-returns (used object.table) _ h in
    let e = used-eq object.table t named in
    let head = codes "UPDATE " ++ (t ++ codes " SET") in
    let (b₁, h₁, more₁) = >>=-eq-returns (print head empty_buffer) _ more in
    let (b₂, h₂, h₃) = >>=-eq-returns (print_with_revision assign_item fs revision b₁) _ more₁ in
    let p₁ = print-Prints head empty_buffer b₁ h₁ in
    let p₂ =
      print_with_revision-Prints assign_item assign_text assign_agree fs revision b₁ b₂
        (Prints-room _ empty_buffer b₁ p₁) h₂ in
    let p₃ =
      subst (λ o. Prints (where_part o l) b₂ b) e
        (print_where-Prints object.table l b₂ b (Prints-room _ b₁ b₂ p₂) h₃) in
    (t, e, Prints-trans head _ empty_buffer b₁ b p₁ (Prints-trans _ _ b₁ b₂ b p₂ p₃))
