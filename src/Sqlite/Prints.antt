-- ===== src/Sqlite/Prints.antt =====
-- What a piece of code of src/libdbo_backend_sqlite.c prints into the buffer, for the texts that
-- several calls of snprintf build.
use dbo.Prelude.{
  ℕ, ◌<◌, ◌≤◌, ◌≡◌, refl, ◌++◌, Option, none, some, List, [], ◌∷◌, length, length-append, arith, ap,
  take, suc, zero, ◌∙◌,
}
use mathlib.Core.List.{append_assoc, append-nil}
use dbo.Prelude.Text.{Text}
use dbo.Prelude.Run.{returns, used}
use dbo.Clause.Tree.{ClauseList}
use dbo.Sqlite.Sql.{Buffer, empty_buffer, print, build_clause}
use dbo.Sqlite.Where.{where_text, written, build_clause-where_text}

-- A text has been appended, and there is still room for the terminating zero.
abbrev pub Prints : Text → Buffer → Buffer → Type 0
Prints s b b' = (length s < b.left) × (b' ≡ written s b)

pub print-Prints : (s : Text) (b b' : Buffer) → print s b ≡ returns b' → Prints s b b'
unfolding print
print-Prints s b b' h = ground arith

pub Prints-refl : (b : Buffer) → 0 < b.left → Prints [] b b
Prints-refl b h = (h, ground (arith, append-nil b.text))

pub Prints-trans :
    (s t : Text) (b b' b'' : Buffer) → Prints s b b' → Prints t b' b'' → Prints (s ++ t) b b''
Prints-trans s t b b' b'' p q = ground (arith, length-append s t, append_assoc b.text s t, p, q)

pub Prints-room : (s : Text) (b b' : Buffer) → Prints s b b' → 0 < b'.left
Prints-room s b b' p = ground (arith, p)

pub build_clause-Prints :
    (table : Option Text) (l : ClauseList) (b b' : Buffer)
    → 0 < b.left
    → build_clause table l b ≡ returns b'
    → Prints (where_text table l) b b'
build_clause-Prints table l b b' room h =
    let (printable, fits, e) = (build_clause-where_text table l b b' room).0 h in (fits, e)

pub used-eq : {A : Type 0} (o : Option A) (a : A) → used o ≡ returns a → o ≡ some a
used-eq none a h = cc
used-eq (some x) a h = cc

pub take-length : {A : Type 0} (n : ℕ) (l : List A) → length l ≤ n → take n l ≡ l
take-length zero [] h = refl
take-length zero (x ∷ l) h = absurd (omega arith)
take-length (suc n) [] h = refl
take-length (suc n) (x ∷ l) h = ap (λ m. x ∷ m) (take-length n l (omega arith))

-- A text that was printed into the empty buffer is what sqlite3_prepare_v2 reads of it.
pub take-Prints :
    (s : Text) (b : Buffer) → Prints s empty_buffer b → (b.text ≡ s) × (take 4096 b.text ≡ s)
take-Prints s b p =
    let e : b.text ≡ s = ground (arith, p) in
    (e, ap (take 4096) e ∙ take-length 4096 s (omega (arith, p.0)))
