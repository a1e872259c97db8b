-- ===== src/Sqlite/Events.antt =====
-- The calls of the functions of the backend in src/libdbo_backend_sqlite.c that leave no statement
-- unfinalized.
use dbo.Value.Sets.{ValueSet}
use dbo.Clause.Tree.{ClauseList}
use dbo.Prelude.{◌≡◌, Option, none, some, List, Status, done, arith}
use dbo.Object.{DatabaseObject, ObjectField}
use dbo.Sqlite.Operations
use dbo.Sqlite.Keeping
use dbo.Configuration.{Configuration}
use dbo.Backend.Functions.{Answer}
use dbo.Sqlite.Session.{Engine, Backend, prepare, step, finalize}
use dbo.Sqlite.Keeping.{Call, perform, perform-Kept}
use dbo.Sqlite.Transactions.{Transaction, transact, run}
use dbo.Sqlite.Life.{
  Library, initialize, shutdown, connect, disconnect, configure, open_file, close,
}

-- The calls of the backend's functions that answer with a status, but for count, with their
-- arguments.
pub data Event : Type 0 where
  initializes shuts_down disconnects : Event
  connects : Option (List Configuration) → Event
  transacts : Transaction → Event
  creates : Option DatabaseObject → Option (List ObjectField) → Option ValueSet → Event
  updates : Option DatabaseObject → Option (List ObjectField) → Option ValueSet → ClauseList → Event
  deletes : Option DatabaseObject → ClauseList → Event

module _ {Db : Type 0} (e : Engine Db) (lib : Library Db) where
  abbrev pub event : Event → Backend Db → Answer (Backend Db)
  event initializes s = initialize lib (some s)
  event shuts_down s = shutdown lib (some s)
  event disconnects s = disconnect e lib (some s)
  event (connects cs) s = connect lib (some s) cs
  event (transacts t) s = done (transact e t (some s))
  event (creates o fs set) s = Operations.create e (some s) o fs set
  event (updates o fs set l) s = Operations.update e (some s) o fs set l
  event (deletes o l) s = Operations.delete e (some s) o l

  transact-live :
      (t : Transaction) (s s' : Backend Db) (r : Status)
      → transact e t (some s) ≡ (r, some s')
      → s'.live ≡ s.live
  unfolding transact run prepare step finalize
  transact-live t s s' r h = ground (arith, h)

  disconnect-live :
      (s s' : Backend Db) (r : Status)
      → disconnect e lib (some s) ≡ done (r, some s')
      → s'.live ≡ s.live
  unfolding disconnect close transact run prepare step finalize
  disconnect-live s s' r h = ground (arith, h)

  connect-live :
      (s s' : Backend Db) (cs : Option (List Configuration)) (r : Status)
      → connect lib (some s) cs ≡ done (r, some s')
      → s'.live ≡ s.live
  unfolding connect configure open_file
  connect-live s s' cs r h = ground (arith, h)

  create-live :
      (o : Option DatabaseObject) (fs : Option (List ObjectField)) (set : Option ValueSet)
      (s s' : Backend Db) (r : Status)
      → Operations.create e (some s) o fs set ≡ done (r, some s')
      → s'.live ≡ s.live
  unfolding Operations.create
  create-live (some o) (some fs) (some set) s s' r h =
      (perform-Kept e (Keeping.creates fs set) s o r s' h).0
  create-live none fs set s s' r h = ground (arith, h)
  create-live (some o) none set s s' r h = ground (arith, h)
  create-live (some o) (some fs) none s s' r h = ground (arith, h)

  update-live :
      (o : Option DatabaseObject) (fs : Option (List ObjectField)) (set : Option ValueSet)
      (l : ClauseList) (s s' : Backend Db) (r : Status)
      → Operations.update e (some s) o fs set l ≡ done (r, some s')
      → s'.live ≡ s.live
  unfolding Operations.update
  update-live (some o) (some fs) (some set) l s s' r h =
      (perform-Kept e (Keeping.updates fs set l) s o r s' h).0
  update-live none fs set l s s' r h = ground (arith, h)
  update-live (some o) none set l s s' r h = ground (arith, h)
  update-live (some o) (some fs) none l s s' r h = ground (arith, h)

  delete-live :
      (o : Option DatabaseObject) (l : ClauseList) (s s' : Backend Db) (r : Status)
      → Operations.delete e (some s) o l ≡ done (r, some s')
      → s'.live ≡ s.live
  unfolding Operations.delete
  delete-live none l s s' r h = ground (arith, h)
  delete-live (some o) l s s' r h = (perform-Kept e (Keeping.deletes l) s o r s' h).0

  pub event-live :
      (ev : Event) (s s' : Backend Db) (r : Status)
      → event ev s ≡ done (r, some s')
      → s'.live ≡ s.live
  unfolding initialize shutdown
  event-live initializes s s' r h = ground (arith, h)
  event-live shuts_down s s' r h = ground (arith, h)
  event-live disconnects s s' r h = disconnect-live s s' r h
  event-live (connects cs) s s' r h = connect-live s s' cs r h
  event-live (transacts t) s s' r h = transact-live t s s' r (ground (arith, h))
  event-live (creates o fs set) s s' r h = create-live o fs set s s' r h
  event-live (updates o fs set l) s s' r h = update-live o fs set l s s' r h
  event-live (deletes o l) s s' r h = delete-live o l s s' r h
