-- ===== src/Lib.antt =====
-- libdbo: a C library that stores objects in databases through exchangeable backends.
--
-- An application describes an object (its table, its fields), gives values in a value set, asks for
-- rows with a list of clauses and a list of joins, and calls the object; the object passes the call
-- on through its connection and a backend handle to a backend, which talks to a database. The
-- backend for SQLite prints a statement into a buffer, prepares it, binds the values at its question
-- marks, steps it and finalizes it. The backend for MySQL does the same with the binds of a MySQL
-- statement.
--
-- The files, with the code of the repository that each is about:
--
--   Prelude       tests, lists, signed integers, C strings, `Run` (a result, an error or undefined
--                 behaviour); no code
--   ValueType     src/libdbo/type.h, src/libdbo/enum.h: the types of values, enumeration sets
--   Value         src/libdbo_value.c. A value is the record `Value` of struct libdbo_value; Convert
--                 holds libdbo_value_from_* and libdbo_value_to_*, Compare libdbo_value_cmp, Enum the
--                 enumeration functions, Sets the value sets. Storage, Copying, Order, Members, Blocks
--                 and SetCopying hold proofs, Examples runs of them.
--   Clause        src/libdbo_clause.c: a clause and its setters; Clause/Tree is a clause list with the
--                 lists nested in it, as the code that walks it sees it
--   Object        src/libdbo_object.c, src/libdbo/object.h: object fields, and what a backend reads
--                 of an object; Calls holds objects with their setters and their calls, Dispatch
--                 what such a call comes to
--   Configuration src/libdbo_configuration.c; Finding is about its search
--   Connection    src/libdbo_connection.c; Setup is about libdbo_connection_setup
--   Backend       src/libdbo_backend.c: a backend with its name. Functions is the table of a
--                 backend's functions, Setters its setters, Factory the factory, MetaData the meta
--                 data; Making and MetaCopying hold proofs
--   Result        src/libdbo_result.c: results; Lists is result lists, Fetching and Walking hold
--                 proofs about them
--   Pool          src/libdbo_mm.c: the memory pools; Bounds, Objects and Ownership hold proofs
--   Join          src/libdbo_join.c: a join, its setters and its test
--   Chain         the intrusive lists of all of these on a heap, and the function
--                 libdbo_*_list_add and _list_free; Chain/Adding and Chain/Freeing hold proofs,
--                 Chain/Examples applies them
--   Sqlite        src/libdbo_backend_sqlite.c:
--     Sql           the buffer, and __db_backend_sqlite_build_clause
--     Bind          __db_backend_sqlite_bind_clause, and the binding of a value set
--     Revision      the revision field and its clause
--     Statements    the texts of INSERT, UPDATE, DELETE, SELECT and COUNT
--     Session       the backend's state; prepare, step, finalize
--     Operations    libdbo_backend_sqlite_create, _update, _delete
--     Columns       the columns of a row into values
--     Results       libdbo_backend_sqlite_read, _next, _count
--     Transactions  libdbo_backend_sqlite_transaction_begin, _commit, _rollback, and their theorem
--     Life          libdbo_backend_sqlite_initialize, _shutdown, _connect, _disconnect, _free
--     NewHandle     libdbo_backend_sqlite_new_handle
--     Where, Marks, Prints, Texts, Selecting, Values, Execute, Deleting, Updating, Inserting,
--     Succeeding, Keeping, Leaving, Cursors, Events, Living, Through, Opening, Counting, Reading,
--     Rows and Next hold proofs, Examples, Runs and Histories apply them.
--   Mysql         src/libdbo_backend_mysql.c. Its texts and its search for the revision are the same
--                 code as in the SQLite backend, and Sqlite.Sql, Statements and Revision are used.
--     Bind          the input binds, __db_backend_mysql_bind_clause, _bind_value, _bind_value_set
--     Session       the backend's state; prepare, execute, finish
--     Operations    libdbo_backend_mysql_create, _update, _delete, _transaction_*
--     Life          libdbo_backend_mysql_initialize, _shutdown, _connect, _disconnect, _free
--     Gaps, Adding, Performing, Revising and Closing hold proofs, Examples applies them.
--
-- How the code is rendered. A function that may fail gives a status with the new state, or `Run`;
-- the use of a pointer that may be NULL and is not tested, `%s` of NULL and the overflow of a signed
-- integer are `crashes` or `undefined`. A pointer argument is an Option; an object that a function
-- changes is passed in and out. Numbers of a fixed width are written with their wrap-around. Whether
-- an allocation succeeds is an argument, `Memory`, one answer for each call. What SQLite does is an
-- argument, `Engine`, by database, text and bound values; what MySQL does is one too, `Server`.
-- Nothing is assumed of them.
--
-- A connection is shared by objects, so that an object has its address, and the connections by
-- address are passed in and out. What the functions in the handle of a backend do is an argument
-- where the code calls them; Sqlite.NewHandle gives those of the SQLite backend. The pools take what
-- malloc, sysconf and the lock answer as an argument, `System`.
--
-- Recursion is structural everywhere but in Chain.free_nodes, which has fuel because a chain of
-- pointers may be a cycle (one round more than there are nodes is enough), and in
-- Result.Lists.fetch_loop and Result.Walking.walk, which have it because a source of results need
-- not end; where it does, one round more than there are results is enough. The loop over a value
-- set runs for the size of the set.
--
-- Not modelled: of libdbo_backend_mysql.c the output binds, and with them read, next and count,
-- and libdbo_backend_mysql_new_handle; libdbo_backend_couchdb.c, which does with HTTP and JSON
-- what the SQLite backend does with SQL; of the SQLite backend the busy handler; copying a list of
-- object fields; the assertions of USE_LIBDBO_MM_CHECKS in libdbo_mm.c, and elsewhere the freeing
-- of memory, but for the loop over the nodes of a list; logging; the Perl generators in tools.
pub mod Prelude
pub mod ValueType
pub mod Value
pub mod Chain
pub mod Clause
pub mod Object
pub mod Sqlite
pub mod Join
pub mod Configuration
pub mod Backend
pub mod Connection
pub mod Result
pub mod Pool
pub mod Mysql
