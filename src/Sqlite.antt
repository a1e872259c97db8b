-- ===== src/Sqlite.antt =====
-- src/libdbo_backend_sqlite.c. The SQL texts are built in Sqlite/Sql, values are bound in
-- Sqlite/Bind.
pub mod Sql
pub mod Where
pub mod Bind
pub mod Marks
pub mod Session
pub mod Prints
pub mod Execute
pub mod Revision
pub mod Statements
pub mod Operations
pub mod Texts
pub mod Deleting
pub mod Values
pub mod Updating
pub mod Transactions
pub mod Life
pub mod Cursors
pub mod Events
pub mod Living
pub mod NewHandle
pub mod Leaving
pub mod Through
pub mod Keeping
pub mod Inserting
pub mod Columns
pub mod Reading
pub mod Rows
pub mod Results
pub mod Selecting
pub mod Opening
pub mod Counting
pub mod Succeeding
pub mod Next
mod Examples
mod Runs
mod Histories
