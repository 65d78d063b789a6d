-- ===== src/Sql.antt =====
-- src/sql.cpp: an encrypted SQLite database, its statements and the columns of a row.
pub mod Sqlite
pub mod Query
pub mod Column
pub mod Database
