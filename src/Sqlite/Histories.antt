-- ===== src/Sqlite/Histories.antt =====
-- The theorems on the life of a SQLite backend, and on calls that come to it through an object, at
-- concrete histories.
use dbo.Prelude.{
  ◌≡◌, refl, true, false, none, some, List, [], ◌∷◌, ok, done, ◌&&◌, not, is_ok, if◌then◌else◌,
  ◌==◌,
}
use dbo.Prelude.Text.{codes, same_text, atoi}
use dbo.Prelude.Int.{pos}
use dbo.Value.{type_of}
use dbo.Value.Convert.{to_int32}
use dbo.Configuration.{Configuration, find, find_loop, not_empty, value_of}
use dbo.Backend.Functions.{Handle}
use dbo.Backend.{Backend}
use dbo.Connection.{Connection}
use dbo.Connection
use dbo.Backend
use dbo.Backend.Functions
use dbo.Sqlite.Operations
use dbo.Sqlite.Bind.{bind_clause}
use dbo.Object.Calls.{Object, Connections, seen}
use dbo.Object.Calls
use dbo.Object.Dispatch.{Route, deletes, leave}
use dbo.Sqlite.Session
use dbo.Sqlite.Results
use dbo.Sqlite.Results.{Cursor}
use dbo.Sqlite.Cursors.{statements}
use dbo.Sqlite.Life.{
  Library, zero_data, disconnect, initialize, connect, configure, open_file, number,
}
use dbo.Sqlite.Events.{initializes, connects}
use dbo.Sqlite.Living.{Reach, start, next, reads, Reach-live, disconnect-ok}
use dbo.Sqlite.Through.{sqlite_handle, Carried, write-Carried}
use dbo.Sqlite.Transactions.{transact, rollback}
use dbo.Sqlite.Runs.{Journal, cursor, engine, backend, contact, rev_is_seven, deleted_journal}

-- SQLite that opens and closes whatever it is asked to.
abbrev library : Library Journal
library = record {
  initializes = true;
  shuts_down = true;
  opens = λ file. (some [], true);
  handles_busy = λ db. true;
  closes = λ db n. true;
}

abbrev configuration : List Configuration
configuration = record { name = some (codes "file"); value = some (codes "t.db") } ∷ []

abbrev connected : Session.Backend Journal
connected = record {
  initialized = true;
  db = some [];
  transaction = false;
  timeout = pos 30;
  usleep = pos 200000;
  live = 0;
}

reached : Reach engine library connected []
unfolding initialize connect configure open_file number find find_loop not_empty value_of atoi
    same_text
reached =
    next (connects (some configuration)) ok
      (next {s' = record (zero_data true) { initialized = true }} initializes ok (start false) refl)
      refl

-- A read after that, whose result list is open.
reached_reading : Reach engine library (record connected { live = 1 }) (cursor ∷ [])
unfolding Results.read type_of to_int32 bind_clause
reached_reading =
    reads (some contact) none rev_is_seven (true ∷ true ∷ []) [] (some cursor) reached refl

Reach-live_example : (record connected { live = 1 }).live ≡ statements (cursor ∷ [])
Reach-live_example = Reach-live engine library reached_reading

disconnect-ok_example :
    (s' : Session.Backend Journal) × (disconnect engine library (some connected)
      ≡ done (ok, some s'))
    × (s'.db ≡ none)
    × (s'.initialized ≡ true)
    × (s'.transaction
        ≡ (connected.transaction && not (is_ok ((transact engine rollback (some connected)).0))))
disconnect-ok_example =
    disconnect-ok engine library connected [] [] reached refl refl refl λ d. refl

abbrev person : Object Unit
person = record {
  connection = some 1;
  table = contact.table;
  primary_key_name = contact.primary_key_name;
  object_field_list = contact.object_field_list;
  backend_meta_data_list = none;
}

abbrev path : Session.Backend Journal → Route (Session.Backend Journal) Cursor
path s = record {
  address = 1;
  connection = record {
    configuration_list = none;
    backend = some (record { name = none; handle = some (sqlite_handle engine library s) });
  };
  backend = record { name = none; handle = some (sqlite_handle engine library s) };
  handle = sqlite_handle engine library s;
}

abbrev connections : Session.Backend Journal → Connections (Session.Backend Journal) Cursor
connections s p = if p == 1 then some ((path s).connection) else none

write-Carried_example :
    (s' : Session.Backend Journal) × (leave
        (connections (backend []))
        (path (backend []))
        (some (backend deleted_journal))
      ≡ leave (connections (backend [])) (path (backend [])) (some s'))
    × Carried engine library person (deletes rev_is_seven) (backend []) s'
unfolding Calls.delete Connection.delete Backend.delete Functions.delete Operations.delete type_of
    to_int32 same_text bind_clause Calls.connected
write-Carried_example =
    write-Carried engine library (connections (backend [])) person (deletes rev_is_seven)
      (path (backend [])) (backend []) _ refl refl refl
