-- ===== src/Mysql.antt =====
-- src/libdbo_backend_mysql.c, but for the statements that give rows: Bind holds the input binds of a
-- statement, Session the statements, Operations create, update, delete and the transactions, Life
-- the connection. __db_backend_mysql_build_clause is the same code as that of the SQLite backend,
-- Sqlite.Sql.build_clause.
pub mod Bind
pub mod Gaps
pub mod Session
pub mod Operations
pub mod Adding
pub mod Performing
pub mod Revising
pub mod Life
pub mod Closing
mod Examples
