-- ===== src/Sqlite/Transactions.antt =====
-- src/libdbo_backend_sqlite.c: libdbo_backend_sqlite_transaction_begin, _commit and _rollback. Their
-- text is a `static const char*`, so `sizeof(sql)`, the size that is passed on with it, is that of a
-- pointer, 8 bytes.
use dbo.Prelude.{
  ◌≡◌, ◌≢◌, ◌⊎◌, Bool-cases, Bool, true, false, not, Option, none, some, [], Status, ok,
  error_unknown, if◌then◌else◌, arith, take, inl, inr, refl, Option-cases,
}
use dbo.Prelude.Text.{Text, codes}
use dbo.Sqlite.Session.{
  Prepared, refused, prepared, Stepped, Engine, Backend, prepare, step, finalize, is_finished,
}

pub data Transaction : Type 0 where
  begin commit rollback : Transaction

-- The static `sql` of each function.
abbrev pub text_of : Transaction → Text
text_of begin = codes "BEGIN TRANSACTION"
text_of commit = codes "COMMIT TRANSACTION"
text_of rollback = codes "ROLLBACK TRANSACTION"

-- The flag `transaction` that a function leaves behind; it asks for the other one.
abbrev pub flag_after : Transaction → Bool
flag_after begin = true
flag_after _ = false

abbrev pub is_wrong : Transaction → Bool → Bool
is_wrong begin flag = flag
is_wrong _ flag = not flag

Prepared-cases :
    (p : Prepared) → (p ≡ Prepared.refused) ⊎ (p ≡ prepared false) ⊎ (p ≡ prepared true)
Prepared-cases refused = inl refl
Prepared-cases (prepared false) = inr (inl refl)
Prepared-cases (prepared true) = inr (inr refl)

module _ {Db : Type 0} (e : Engine Db) where
  -- The rest of the three functions: prepare, step, finalize, and set the flag.
  unfoldable pub run : Transaction → Backend Db → Status × Option (Backend Db)
  unfolding prepare step finalize
  run t s = elim (prepare e s (text_of t) 8) [
    | none ↦ (error_unknown, some s)
    | some (st, opened) ↦
        let stepped = step e opened st [] in
        let closed = finalize st stepped.1 in
        if not (is_finished stepped.0)
        then (error_unknown, some closed)
        else (ok, some (record closed { transaction = flag_after t }))
  ]

  unfoldable pub transact : Transaction → Option (Backend Db) → Status × Option (Backend Db)
  unfolding run
  transact t none = (error_unknown, none)
  transact t (some s) =
      if not s.initialized
      then (error_unknown, some s)
      else if is_wrong t s.transaction
      then (error_unknown, some s)
      else run t s

  -- The texts that SQLite is asked to read: the first eight bytes.
  abbrev pub sent : Transaction → Text
  sent begin = codes "BEGIN TR"
  sent commit = codes "COMMIT T"
  sent rollback = codes "ROLLBACK"

  sent_lem : (t : Transaction) → take 8 (text_of t) ≡ sent t
  sent_lem begin = refl
  sent_lem commit = refl
  sent_lem rollback = refl

  -- A function answered ok: the flag was the one that it asks for, the eight bytes were prepared on
  -- the open database and stepped once, to SQLITE_DONE, and the flag has changed, nothing else.
  pub record Transacted (t : Transaction) (s s' : Backend Db) : Type 0 where
    pub initialized : s.initialized ≡ true
    pub before : is_wrong t s.transaction ≡ false
    pub db : Db
    pub opened : s.db ≡ some db
    pub prepares : e.prepares db (sent t) ≡ prepared true
    pub finishes : (e.steps db (sent t) []).1 ≡ Stepped.finished
    pub after : s' ≡ record s { db = some ((e.steps db (sent t) []).0); transaction = flag_after t }

  -- Why a function leaves everything as it is: SQLite is not initialized, the flag is the other
  -- one, there is no database, or SQLite makes no statement of the text.
  abbrev pub IsRefused : Transaction → Backend Db → Type 0
  IsRefused t s =
      (s.initialized ≡ false)
      ⊎ (is_wrong t s.transaction ≡ true)
      ⊎ (s.db ≡ none)
      ⊎ ((db : Db) × (s.db ≡ some db) × (e.prepares db (sent t) ≢ prepared true))

  -- The statement was allowed, prepared and stepped once, but not to SQLITE_DONE: the database is as
  -- the step has left it, nothing else has changed.
  pub record Failed (t : Transaction) (s s' : Backend Db) : Type 0 where
    pub initialized : s.initialized ≡ true
    pub before : is_wrong t s.transaction ≡ false
    pub db : Db
    pub opened : s.db ≡ some db
    pub prepares : e.prepares db (sent t) ≡ prepared true
    pub stops : (e.steps db (sent t) []).1 ≢ Stepped.finished
    pub after : s' ≡ record s { db = some ((e.steps db (sent t) []).0) }

  -- What a function answers and leaves, by what it is given.
  abbrev pub Answers : Transaction → Option (Backend Db) → Status × Option (Backend Db) → Type 0
  Answers t none (r, s') = (r ≡ error_unknown) × (s' ≡ none)
  Answers t (some s) (ok, some s') = Transacted t s s'
  Answers t (some s) (error_unknown, some s') = ((s' ≡ s) × IsRefused t s) ⊎ Failed t s s'
  Answers t (some s) (r, none) = ⊥

  transact-Transacted :
      (t : Transaction) (s s' : Backend Db)
      → transact t (some s) ≡ (ok, some s')
      → Transacted t s s'
  unfolding transact run prepare step finalize
  transact-Transacted t s s' h = elim (Option-cases s.db) [
    | inl closed ↦ absurd (ground (arith, closed, h))
    | inr (db, opened) ↦ record {
      initialized = ground (arith, opened, h);
      before = ground (arith, opened, h);
      db = db;
      opened = opened;
      prepares = ground (arith, opened, h, sent_lem t);
      finishes = ground (arith, opened, h, sent_lem t);
      after = ground (arith, opened, h, sent_lem t);
    }
  ]

  transact-error :
      (t : Transaction) (s s' : Backend Db)
      → transact t (some s) ≡ (error_unknown, some s')
      → ((s' ≡ s) × IsRefused t s) ⊎ Failed t s s'
  unfolding transact run prepare step finalize
  transact-error t s s' h = elim (Bool-cases s.initialized) [
    | inr off ↦ inl (ground (arith, off, h), inl off)
    | inl on ↦ elim (Bool-cases (is_wrong t s.transaction)) [
      | inl wrong ↦ inl (ground (arith, on, wrong, h), inr (inl wrong))
      | inr right ↦ elim (Option-cases s.db) [
        | inl closed ↦ inl (ground (arith, on, right, closed, h), inr (inr (inl closed)))
        | inr (db, opened) ↦ elim (Prepared-cases (e.prepares db (sent t))) [
          | inl refuses ↦ inl (
            ground (arith, on, right, opened, refuses, h, sent_lem t),
            inr (inr (inr (db, opened, λ k. cc))),
          )
          | inr (inl empty) ↦ inl (
            ground (arith, on, right, opened, empty, h, sent_lem t),
            inr (inr (inr (db, opened, λ k. ground (arith, empty, k)))),
          )
          | inr (inr prepares) ↦ inr (record {
            initialized = on;
            before = right;
            db = db;
            opened = opened;
            prepares = prepares;
            stops = λ k. ground (arith, on, right, opened, prepares, h, sent_lem t, k);
            after = ground (arith, on, right, opened, prepares, h, sent_lem t);
          })
        ]
      ]
    ]
  ]

  answers_lem :
      (t : Transaction) (s : Backend Db) (r : Status × Option (Backend Db))
      → transact t (some s) ≡ r
      → Answers t (some s) r
  unfolding transact run prepare step finalize
  answers_lem t s (ok, some s') h = transact-Transacted t s s' h
  answers_lem t s (error_unknown, some s') h = transact-error t s s' h
  answers_lem t s (r, none) h = absurd (ground (arith, h))

  -- Beginning, committing or rolling back. For NULL data the answer is the error. An answer ok means
  -- that SQLite was initialized, that the flag `transaction` was the one the function asks for (off
  -- for begin, on for the others) and has been turned, and that the first eight bytes of the
  -- function's text, `BEGIN TR`, `COMMIT T` or `ROLLBACK`, were prepared as a statement and stepped
  -- once, to SQLITE_DONE, with nothing else changed. An error means that nothing was stepped or
  -- changed, because SQLite was not initialized, the flag was the other one, there was no database or
  -- no statement was prepared; or that none of these was so, and the statement was stepped once, not
  -- to SQLITE_DONE, with only the database changed.
  pub transact_lem : (t : Transaction) (s : Option (Backend Db)) → Answers t s (transact t s)
  unfolding transact
  transact_lem t none = (refl, refl)
  transact_lem t (some s) = answers_lem t s (transact t (some s)) refl
