-- ===== src/Object/Dispatch.antt =====
-- src/libdbo_object.c, libdbo_connection.c and libdbo_backend.c: a call of an object against what it
-- comes to, the call of one function of the backend.
use dbo.Prelude.{
  ℕ, ◌≡◌, refl, Option, none, some, List, Status, error_unknown, Outcome, done, undefined, arith,
}
use dbo.Prelude.Text.{Memory}
use dbo.Prelude.Run.{Run, returns, fails, crashes, ◌>>=◌, given, used}
use dbo.Value.Sets.{ValueSet}
use dbo.Object.{ObjectField}
use dbo.Clause.Tree.{ClauseList}
use dbo.Join.{Join}
use dbo.Backend.Functions
use dbo.Backend.Functions.{Handle, Answer, call}
use dbo.Backend
use dbo.Backend.{Backend}
use dbo.Connection
use dbo.Connection.{Connection}
use dbo.Object.Calls
use dbo.Object.Calls.{Object, Connections, seen, fields_or, connected, put}
use dbo.Chain.{Ptr}

-- What an object's call goes through.
pub record Route (Data Rows : Type 0) : Type 0 where
  pub address : Ptr
  pub connection : Connection Data Rows
  pub backend : Backend Data Rows
  pub handle : Handle Data Rows

-- The requests that change rows, with their arguments besides the object.
pub data Write : Type 0 where
  creates : Option (List ObjectField) → Option ValueSet → Write
  updates : Option (List ObjectField) → Option ValueSet → ClauseList → Write
  deletes : ClauseList → Write

module _ {Data Rows : Type 0} where
  -- The connections with the data at the end of a path replaced.
  abbrev pub leave : Connections Data Rows → Route Data Rows → Option Data → Connections Data Rows
  leave s w d = put s w.address (
      some (record w.connection {
        backend = some (record w.backend { handle = some (record w.handle { own_data = d }) });
      }))

  abbrev pub answer :
      Connections Data Rows
      → Run (Route Data Rows × Answer Data)
      → Outcome (Status × Connections Data Rows)
  answer s fails = done (error_unknown, s)
  answer s crashes = undefined
  answer s (returns (w, undefined)) = undefined
  answer s (returns (w, done (r, d))) = done (r, leave s w d)

  abbrev pub answer_rows :
      Connections Data Rows
      → Memory
      → Run (Route Data Rows × Outcome (Option Rows × Option Data × Memory))
      → Outcome (Option Rows × Connections Data Rows × Memory)
  answer_rows s m fails = done (none, s, m)
  answer_rows s m crashes = undefined
  answer_rows s m (returns (w, undefined)) = undefined
  answer_rows s m (returns (w, done (r, d, m'))) = done (r, leave s w d, m')

  abbrev pub answer_count :
      Connections Data Rows
      → Option ℕ
      → Run (Route Data Rows × Outcome (Status × Option ℕ × Option Data))
      → Outcome (Status × Option ℕ × Connections Data Rows)
  answer_count s n fails = done (error_unknown, n, s)
  answer_count s n crashes = undefined
  answer_count s n (returns (w, undefined)) = undefined
  answer_count s n (returns (w, done (r, k, d))) = done (r, k, leave s w d)

module _ {Data Rows Meta : Type 0} where
  -- The path of an object: it fails where a part is not set.
  abbrev pub route_of : Object Meta → Connections Data Rows → Run (Route Data Rows)
  route_of o s = do
    p ← given o.connection
    t ← given o.table
    n ← given o.primary_key_name
    c ← used (s p)
    b ← given c.backend
    h ← given b.handle
    returns (record { address = p; connection = c; backend = b; handle = h })

  -- The function of the backend that a request comes to, called once, with the data, the object and
  -- the arguments; create and update have the object's own fields where none are given.
  abbrev pub called :
      Object Meta → Connections Data Rows → Write → Run (Route Data Rows × Answer Data)
  called o s (creates fs set) = do
    x ← given set
    w ← route_of o s
    l ← given (fields_or fs o)
    f ← given w.handle.create_function
    returns (w, f w.handle.own_data (some (seen o)) (some l) (some x))
  called o s (updates fs set clauses) = do
    x ← given set
    w ← route_of o s
    l ← given (fields_or fs o)
    f ← given w.handle.update_function
    returns (w, f w.handle.own_data (some (seen o)) (some l) (some x) clauses)
  called o s (deletes clauses) = do
    w ← route_of o s
    f ← given w.handle.delete_function
    returns (w, f w.handle.own_data (some (seen o)) clauses)

  abbrev pub called_read :
      Object Meta
      → Connections Data Rows
      → Option (List Join)
      → ClauseList
      → Memory
      → Run (Route Data Rows × Outcome (Option Rows × Option Data × Memory))
  called_read o s joins clauses m = do
    w ← route_of o s
    f ← given w.handle.read_function
    returns (w, f w.handle.own_data (some (seen o)) joins clauses m)

  abbrev pub called_count :
      Object Meta
      → Connections Data Rows
      → Option (List Join)
      → ClauseList
      → Option ℕ
      → Run (Route Data Rows × Outcome (Status × Option ℕ × Option Data))
  called_count o s joins clauses n = do
    k ← given n
    w ← route_of o s
    f ← given w.handle.count_function
    returns (w, f w.handle.own_data (some (seen o)) joins clauses (some k))

  -- The calls of an object that change rows.
  abbrev pub write :
      Connections Data Rows
      → Option (Object Meta)
      → Write
      → Outcome (Status × Connections Data Rows)
  write s o (creates fs set) = Calls.create s o fs set
  write s o (updates fs set clauses) = Calls.update s o fs set clauses
  write s o (deletes clauses) = Calls.delete s o clauses

  -- Creating, updating or deleting through an object, whatever is set and whatever is NULL, is one
  -- call of the function of the handle of the backend of its connection, with the backend's data,
  -- the object, the field list that is given or else the object's own, and the other arguments: its
  -- answer is the answer, and only the data of that handle changes. Where one of the parts or the
  -- function is not set, or a needed argument is NULL, the answer is the error, no function is
  -- called and nothing changes.
  pub write-answer :
      (s : Connections Data Rows) (o : Object Meta) (r : Write)
      → write s (some o) r ≡ answer s (called o s r)
  unfolding Calls.create Connection.create Backend.create Functions.create connected Calls.update
      Connection.update Backend.update Functions.update Calls.delete Connection.delete
      Backend.delete Functions.delete
  write-answer s o (creates fs none) = refl
  write-answer s o (creates fs (some set)) = ground arith
  write-answer s o (updates fs none clauses) = refl
  write-answer s o (updates fs (some set) clauses) = ground arith
  write-answer s o (deletes clauses) = ground arith

  -- The same for reading, whose error is NULL and leaves the memory as it was, and for counting,
  -- whose error leaves the count as it was.
  pub read-answer :
      (s : Connections Data Rows) (o : Object Meta) (joins : Option (List Join))
      (clauses : ClauseList) (m : Memory) (n : Option ℕ)
      → (Calls.read s (some o) joins clauses m ≡ answer_rows s m (called_read o s joins clauses m))
        × (Calls.count s (some o) joins clauses n
            ≡ answer_count s n (called_count o s joins clauses n))
  unfolding Calls.read Connection.read Backend.read Functions.read connected Calls.count
      Connection.count Backend.count Functions.count
  read-answer s o joins clauses m none = (ground arith, refl)
  read-answer s o joins clauses m (some n) = (ground arith, ground arith)
