-- ===== src/Sqlite/Through.antt =====
-- A call of an object whose connection has the SQLite backend, from src/libdbo_object.c to
-- src/libdbo_backend_sqlite.c.
use dbo.Prelude.Run.{Run, returns}
use dbo.Object.Dispatch.{route_of}
use dbo.Sqlite.Leaving.{Stays, create-Stays, update-Stays, delete-Stays}
use dbo.Sqlite.Inserting.{Inserted, create-Inserted}
use dbo.Sqlite.Updating.{Updated, update-Updated}
use dbo.Sqlite.Deleting.{Deleted, delete-Deleted}
use dbo.Prelude.{
  ◌≡◌, refl, sym, ◌∙◌, Bool, true, none, some, List, ok, error_unknown, done, arith, inl, inr,
  Option-cases, undefined,
}
use dbo.Prelude.Text.{Memory, allocate}
use dbo.Value.Sets.{ValueSet}
use dbo.Object.{ObjectField}
use dbo.Backend.Functions.{Handle, Answer}
use dbo.Backend.Functions
use dbo.Object.Calls.{Object, Connections, seen, fields_or}
use dbo.Object.Dispatch.{
  Route, Write, creates, updates, deletes, write, answer, leave, write-answer,
}
use dbo.Sqlite.Session
use dbo.Sqlite.Session.{Engine}
use dbo.Sqlite.Operations
use dbo.Sqlite.Results
use dbo.Sqlite.Results.{Cursor}
use dbo.Sqlite.Life
use dbo.Backend.Setters
use dbo.Sqlite.Transactions.{begin, commit, rollback, transact}
use dbo.Sqlite.Life.{Library, zero_data}
use dbo.Sqlite.NewHandle.{filled, new_handle}

module _ {Db : Type 0} (e : Engine Db) (lib : Library Db) where
  -- The handle of this backend, with its data.
  abbrev pub sqlite_handle : Session.Backend Db → Handle (Session.Backend Db) Cursor
  sqlite_handle s = record {
    initialize_function = some (Life.initialize lib);
    shutdown_function = some (Life.shutdown lib);
    connect_function = some (Life.connect lib);
    disconnect_function = some (Life.disconnect e lib);
    create_function = some (Operations.create e);
    read_function = some (Results.read e);
    update_function = some (Operations.update e);
    delete_function = some (Operations.delete e);
    count_function = some (Results.count e);
    free_function = some (Life.free e lib);
    transaction_begin_function = some (λ d. done (transact e begin d));
    transaction_commit_function = some (λ d. done (transact e commit d));
    transaction_rollback_function = some (λ d. done (transact e rollback d));
    own_data = some s;
  }

  -- A new handle, where the memory is given, is complete, and its data is all zero.
  new_handle_complete :
      (flag : Bool) (m : Memory)
      → (allocate m).0 ≡ true
      → (allocate ((allocate m).1)).0 ≡ true
      → ((new_handle e lib flag m).0 ≡ some (sqlite_handle (zero_data flag)))
        × (Functions.not_empty ((new_handle e lib flag m).0) ≡ ok)
  unfolding new_handle filled Functions.not_empty Functions.set_data Setters.set_initialize
      Setters.set_shutdown Setters.set_connect Setters.set_disconnect Setters.set_create
      Setters.set_read Setters.set_update Setters.set_delete Setters.set_count Setters.set_free
      Setters.set_transaction_begin Setters.set_transaction_commit Setters.set_transaction_rollback
  new_handle_complete flag m h k = (ground (arith, h, k), ground (arith, h, k))

  -- What a request that is answered ok has done to the backend's data, by the theorems on the
  -- operations of this backend; the arguments that they need were there.
  abbrev pub Carried :
      {Meta : Type 0} → Object Meta → Write → Session.Backend Db → Session.Backend Db → Type 0
  Carried o (creates fs set) s s' =
      (l : List ObjectField) × (x : ValueSet) × (fields_or fs o ≡ some l)
      × (set ≡ some x)
      × Inserted e s (seen o) l x s'
  Carried o (updates fs set clauses) s s' =
      (l : List ObjectField) × (x : ValueSet) × (fields_or fs o ≡ some l)
      × (set ≡ some x)
      × Updated e s (seen o) l x clauses s'
  Carried o (deletes clauses) s s' = Deleted e s (seen o) clauses s'

  -- A function of this backend was called, and the answer is ok: it answered ok with the data in
  -- place.
  settled :
      (connections : Connections (Session.Backend Db) Cursor)
      (w : Route (Session.Backend Db) Cursor)
      (run : Run (Route (Session.Backend Db) Cursor × Answer (Session.Backend Db)))
      (o : Answer (Session.Backend Db)) (after : Connections (Session.Backend Db) Cursor)
      → answer connections run ≡ done (ok, after)
      → run ≡ returns (w, o)
      → Stays o
      → (s' : Session.Backend Db) × (o ≡ done (ok, some s'))
        × (after ≡ leave connections w (some s'))
  settled connections w run undefined after h k stays = absurd (ground (arith, h, k))
  settled connections w run (done (r, none)) after h k stays = absurd (stays r refl)
  settled connections w run (done (ok, some s')) after h k stays = (s', refl, ground (arith, h, k))
  settled connections w run (done (error_unknown, some s')) after h k stays =
      absurd (ground (arith, h, k))

  -- An object's call that is answered ok, where its connection has this backend: the arguments were
  -- there, the fields being the object's own where none are given, the statement of the call was
  -- carried out on the backend's database (as the theorems on create, update and delete say), and of
  -- all connections only that backend's data has changed.
  pub write-Carried :
      {Meta : Type 0} (connections : Connections (Session.Backend Db) Cursor) (o : Object Meta)
      (r : Write) (w : Route (Session.Backend Db) Cursor) (s : Session.Backend Db)
      (after : Connections (Session.Backend Db) Cursor)
      → route_of o connections ≡ returns w
      → w.handle ≡ sqlite_handle s
      → write connections (some o) r ≡ done (ok, after)
      → (s' : Session.Backend Db) × (after ≡ leave connections w (some s')) × Carried o r s s'
  write-Carried connections o (creates fs none) w s after h k a =
      absurd (ground (arith, sym (write-answer connections o (creates fs none)) ∙ a))
  write-Carried connections o (creates fs (some x)) w s after h k a =
      let b = sym (write-answer connections o (creates fs (some x))) ∙ a in
      elim (Option-cases (fields_or fs o)) [
        | inl missing ↦ absurd (ground (arith, h, k, b, missing))
        | inr (l, given_l) ↦
            let (s', left, moved) =
              settled connections w _ _ after b (ground (arith, h, k, given_l))
                (create-Stays e s (seen o) l x) in
            (s', moved, (l, x, given_l, refl, (create-Inserted e s (seen o) l x s' left).1))
      ]
  write-Carried connections o (updates fs none clauses) w s after h k a =
      absurd (ground (arith, sym (write-answer connections o (updates fs none clauses)) ∙ a))
  write-Carried connections o (updates fs (some x) clauses) w s after h k a =
      let b = sym (write-answer connections o (updates fs (some x) clauses)) ∙ a in
      elim (Option-cases (fields_or fs o)) [
        | inl missing ↦ absurd (ground (arith, h, k, b, missing))
        | inr (l, given_l) ↦
            let (s', left, moved) =
              settled connections w _ _ after b (ground (arith, h, k, given_l))
                (update-Stays e s (seen o) l x clauses) in
            (s', moved, (l, x, given_l, refl, (update-Updated e s (seen o) l x clauses s' left).1))
      ]
  write-Carried connections o (deletes clauses) w s after h k a =
      let b = sym (write-answer connections o (deletes clauses)) ∙ a in
      let (s', left, moved) =
        settled connections w _ _ after b (ground (arith, h, k))
          (delete-Stays e s (seen o) clauses) in
      (s', moved, (delete-Deleted e s (seen o) clauses s' left).1)
