-- ===== src/Sql/Database.antt =====
-- src/sql.cpp: `SqlDatabase::SqlDatabaseImpl`.
pub mod Exits
use klib.Base.{
  ℕ, ◌≡◌, refl, Bool, true, false, not, Option, none, some, List, [], ◌∷◌, ◌++◌, arith, Bytes,
  codes, length, c_str, ◌==◌, if◌then◌else◌, is_empty,
}
use klib.Base.Int.{int32, ℤ, pos, ◌==ℤ◌}
use klib.Exception.{
  Error, runtime_error, invalid_argument, Result, ok, throw, terminated, M, ◌>>=◌, ◌>>◌, return,
  raise, throw_if, scope_exit,
}
use klib.Sql.Sqlite.{Sqlite, sqlite_ok, sqlite_open_readonly, sqlite_open_readwrite_create}
use klib.Sql.Query.{ColumnImpl, Conn, query_on, prepare, bind_text, next, get_column, destroy}
use klib.Sql.Column.{as_int32, as_int64}

pub data OpenMode : Type 0 where
  read_only : OpenMode
  read_write : OpenMode

unfoldable pub open_flag : OpenMode → ℕ
open_flag read_only = sqlite_open_readonly
open_flag read_write = sqlite_open_readwrite_create

module _ (q : Sqlite) where
  abbrev pub Io : Type 0 → Type 0
  Io A = M q.World A

  abbrev pub run : {A : Type 0} → (q.World → A × q.World) → Io A
  run f w = (ok (f w).0, (f w).1)

  -- `sqlite3_open_v2` failed: its message, then the handle is closed, then the exception.
  unfoldable pub open_failed : ℕ → Io ℕ
  open_failed db w =
      let msg = q.errmsg db w in
      (do
        rc ← run (q.close_v2 db)
        throw_if (not (rc == sqlite_ok)) (runtime_error (q.errstr rc) [])
        raise (runtime_error msg []))
        w

  -- `sqlite3_key`, then `CHECK_SQLITE2`
  unfoldable pub set_key : ℕ → Bytes → Io ℕ
  set_key db password = do
    rc ← run (q.key db password (int32 (length password)))
    λ w. throw_if (not (rc == sqlite_ok)) (runtime_error (q.errmsg db w) []) w
    return db

  unfoldable pub opened : Bytes → ℕ → ℕ → Io ℕ
  unfolding open_failed set_key
  opened password rc db = if rc == sqlite_ok then set_key db password else open_failed db

  -- The constructor gives the handle `db_`.
  unfoldable pub open_database : Bytes → OpenMode → Bytes → Io ℕ
  unfolding open_flag opened
  open_database db_name open_mode password = do
    throw_if (is_empty password) (invalid_argument (codes "The password is empty") [])
    (rc, db) ← run (q.open_v2 (c_str db_name) (open_flag open_mode))
    opened password rc db

  unfoldable pub close_database : ℕ → Io (Unit {0})
  close_database db = do rc ← run (q.close_v2 db); return tt

  unfoldable pub exec : ℕ → Bytes → Io ℤ
  exec db sql = do
    (rc, err_msg) ← run (q.exec db (c_str sql))
    throw_if (not (rc == sqlite_ok)) (runtime_error err_msg [])
    λ w. (ok (q.changes db w), w)

  abbrev pub drop_result : {A : Type 0} → Io A → Io (Unit {0})
  drop_result m = do a ← m; return tt

  unfoldable pub transaction : ℕ → Io (Unit {0})
  unfolding exec
  transaction db = drop_result (exec db (codes "BEGIN"))

  unfoldable pub commit : ℕ → Io (Unit {0})
  unfolding exec
  commit db = drop_result (exec db (codes "COMMIT"))

  unfoldable pub rollback : ℕ → Io (Unit {0})
  unfolding exec
  rollback db = drop_result (exec db (codes "ROLLBACK"))

  unfoldable pub vacuum : ℕ → Io (Unit {0})
  unfolding exec
  vacuum db = drop_result (exec db (codes "VACUUM"))

  abbrev pub leave_query : {A : Type 0} → Result A × Conn q → Result A × q.World
  leave_query (r, c) = (r, c.world)

  -- A block with a local `SqlQuery query(db)`, destroyed when the block returns or throws.
  unfoldable pub with_query : {A : Type 0} → ℕ → M (Conn q) A → Io A
  unfolding query_on destroy
  with_query db body w =
      leave_query (scope_exit (destroy q) body (record { query = query_on db; world = w }))

  abbrev pub read : {A : Type 0} → (ColumnImpl → q.World → Result A) → ColumnImpl → M (Conn q) A
  read f col c = (f col c.world, c)

  -- `boost::ignore_unused(query.next())`
  abbrev pub skip_next : M (Conn q) (Unit {0})
  skip_next = do more ← next q; return tt

  unfoldable pub table_exists : ℕ → Bytes → Io Bool
  unfolding with_query prepare bind_text next get_column as_int32 ◌==ℤ◌
  table_exists db table_name = with_query db (do
    prepare q (codes "SELECT count(*) FROM sqlite_master WHERE type='table' AND name=?")
    bind_text q (pos 1) table_name
    skip_next
    col ← get_column q (pos 0)
    n ← read (as_int32 q) col
    return (n ==ℤ pos 1))

  unfoldable pub drop_table : ℕ → Bytes → Io (Unit {0})
  unfolding exec ◌==ℤ◌
  drop_table db table_name = do
    n ← exec db (codes "DROP TABLE " ++ table_name)
    throw_if (not (n ==ℤ pos 1)) (runtime_error (codes "Drop table failed") [])

  unfoldable pub drop_table_if_exists : ℕ → Bytes → Io Bool
  unfolding exec ◌==ℤ◌
  drop_table_if_exists db table_name = do
    n ← exec db (codes "DROP TABLE IF EXISTS " ++ table_name)
    return (not (n ==ℤ pos 0))

  unfoldable pub table_line_count : ℕ → Bytes → Io ℤ
  unfolding with_query prepare next get_column as_int64
  table_line_count db table_name = with_query db (do
    prepare q (codes "SELECT count(*) FROM " ++ table_name)
    skip_next
    col ← get_column q (pos 0)
    read (as_int64 q) col)
