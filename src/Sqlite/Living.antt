-- ===== src/Sqlite/Living.antt =====
-- The life of a backend of src/libdbo_backend_sqlite.c, from the zero data of a new handle through any
-- history of calls.
use dbo.Prelude.Text.{Memory}
use dbo.Value.Sets.{ValueSet}
use dbo.Clause.Tree.{ClauseList}
use dbo.Join.{Join}
use dbo.Sqlite.Results
use dbo.Sqlite.Results.{Cursor}
use dbo.Sqlite.Cursors.{statements, cursors, statements-append, count-live, read-live, next-live}
use dbo.Sqlite.Life.{rolled_back}
use dbo.Sqlite.Events.{Event, event, event-live}
use dbo.Prelude.{
  ℕ, ◌+◌, [], ◌∷◌, ◌++◌, ◌≡◌, refl, ◌∙◌, Bool, true, not, ◌&&◌, Option, none, some, List, Status,
  ok, is_ok, done, arith, Option-cases, inl, inr,
}
use dbo.Object.{DatabaseObject}
use dbo.Sqlite.Session.{Engine, Backend, prepare, step, finalize}
use dbo.Sqlite.Transactions.{rollback, transact, run}
use dbo.Sqlite.Life.{Library, zero_data, disconnect, close}

module _ {Db : Type 0} (e : Engine Db) (lib : Library Db) where
  -- The states of a backend that calls of its functions lead to from a new handle, until it is
  -- freed, with the cursors that are open: a read opens one where it answers with a result list, and
  -- a call for the next row, with `finish` as libdbo_result_list_free has it or without, keeps the
  -- cursor or ends it.
  pub data Reach : Backend Db → List Cursor → Type 0 where
    start : (flag : Bool) → Reach (zero_data flag) []
    next :
        {s s' : Backend Db} {cs : List Cursor} (ev : Event) (r : Status)
        → Reach s cs
        → event e lib ev s ≡ done (r, some s')
        → Reach s' cs
    counts :
        {s s' : Backend Db} {cs : List Cursor} (object : Option DatabaseObject)
        (joins : Option (List Join)) (l : ClauseList) (out n : Option ℕ) (r : Status)
        → Reach s cs
        → Results.count e (some s) object joins l out ≡ done (r, n, some s')
        → Reach s' cs
    reads :
        {s s' : Backend Db} {cs : List Cursor} (object : Option DatabaseObject)
        (joins : Option (List Join)) (l : ClauseList) (m m' : Memory) (c : Option Cursor)
        → Reach s cs
        → Results.read e (some s) object joins l m ≡ done (c, some s', m')
        → Reach s' (cursors c ++ cs)
    walks :
        {s s' : Backend Db} (before after : List Cursor) (c : Cursor) (c' : Option Cursor)
        (finish : Bool) (m m' : Memory) (set : Option ValueSet)
        → Reach s (before ++ c ∷ after)
        → Results.next e s (some c) finish m ≡ done (set, c', s', m')
        → Reach s' (before ++ (cursors c' ++ after))

  -- In every state that any calls of the backend's functions lead to from a new handle until it is
  -- freed, whatever they answered, the statements that are not finalized are those of the open
  -- cursors, as many as the cursors that have a statement: initialize, shutdown, connect, disconnect,
  -- the transactions, create, update, delete and count leave none behind, and read and the calls for
  -- the next row keep one for a cursor as long as it is open.
  pub Reach-live : {s : Backend Db} {cs : List Cursor} → Reach s cs → s.live ≡ statements cs
  Reach-live (start flag) = refl
  Reach-live (next {s} {s'} ev r reached h) = event-live e lib ev s s' r h ∙ Reach-live reached
  Reach-live (counts {s} {s'} object joins l out n r reached h) =
      count-live e s s' object joins l out n r h ∙ Reach-live reached
  Reach-live (reads {s} {s'} {cs} object joins l m m' c reached h) = omega (
    arith,
    read-live e s s' object joins l m m' c h,
    Reach-live reached,
    statements-append (cursors c) cs,
  )
  Reach-live (walks {s} {s'} before after c c' finish m m' set reached h) =
      let live = Reach-live reached in
      omega (
        arith,
        next-live e s s' c c' finish m m' set (statements before + statements after) h (
            omega (
              arith,
              live,
              statements-append before (c ∷ after),
              statements-append (c ∷ []) after,
            )),
        statements-append before (cursors c' ++ after),
        statements-append (cursors c') after,
      )

  -- What rolling back leaves of a backend with a database, whatever it answers.
  pub record Rolled (s s' : Backend Db) : Type 0 where
    pub rolled : rolled_back e lib s ≡ some s'
    pub db : Db
    pub opened : s'.db ≡ some db
    pub live : s'.live ≡ s.live
    pub initialized : s'.initialized ≡ s.initialized
    pub flag : s'.transaction ≡ (s.transaction && not (is_ok ((transact e rollback (some s)).0)))

  roll :
      (s : Backend Db) (db : Db)
      → s.initialized ≡ true
      → s.db ≡ some db
      → (s' : Backend Db) × Rolled s s'
  unfolding transact run prepare step finalize
  roll s db on opened = elim (Option-cases (rolled_back e lib s)) [
    | inl lost ↦ absurd (ground (arith, on, opened, lost))
    | inr (s', rolled) ↦ elim (Option-cases s'.db) [
      | inl lost ↦ absurd (ground (arith, on, opened, rolled, lost))
      | inr (db', kept) ↦ (
        s',
        record {
          rolled = rolled;
          db = db';
          opened = kept;
          live = ground (arith, on, opened, rolled);
          initialized = ground (arith, on, opened, rolled);
          flag = ground (arith, on, opened, rolled);
        },
      )
    ]
  ]

  -- Where SQLite closes a database that has no statement left, disconnecting answers ok in every
  -- state that the calls lead to in which no open cursor has a statement, SQLite is initialized and a
  -- database is open, and the backend is then without one. An open transaction is rolled back; the flag stays on exactly if that fails.
  pub disconnect-ok :
      (s : Backend Db) (db : Db) (cs : List Cursor)
      → Reach s cs
      → statements cs ≡ 0
      → s.initialized ≡ true
      → s.db ≡ some db
      → ((d : Db) → lib.closes d 0 ≡ true)
      → (s' : Backend Db) × (disconnect e lib (some s) ≡ done (ok, some s'))
        × (s'.db ≡ none)
        × (s'.initialized ≡ true)
        × (s'.transaction ≡ (s.transaction && not (is_ok ((transact e rollback (some s)).0))))
  unfolding disconnect close
  disconnect-ok s db cs reached idle on opened closes =
      let (s', r) = roll s db on opened in
      (
        record s' { db = none },
        ground
            (arith, on, opened, r.rolled, r.opened, r.live, Reach-live reached, idle, closes r.db),
        refl,
        r.initialized ∙ on,
        r.flag,
      )
