-- ===== src/Sql/Query.antt =====
-- src/sql.cpp: `SqlQuery::SqlQueryImpl`, a prepared statement of a database.
pub mod Handles
use klib.Base.{
  ℕ, zero, suc, ◌≡◌, refl, Bool, true, false, not, Option, none, some, List, [], ◌∷◌, arith, Bytes,
  codes, length, ltb, leb, ◌==◌, if◌then◌else◌,
}
use klib.Base.Int.{int32, ℤ, pos, negsuc}
use klib.Exception.{
  Error, runtime_error, logic_error, invalid_argument, out_of_range, Result, ok, throw, terminated,
  M, ◌>>=◌, ◌>>◌, return, raise, throw_if,
}
use klib.Archive.Zstd.{Zstd, compress_data}
use klib.Sql.Sqlite.{
  Sqlite, Value, int_value, int64_value, double_value, text_value, blob_value, sqlite_ok,
  sqlite_row, sqlite_done,
}

-- The members of the class.
pub record SqlQueryImpl : Type 0 where
  pub db : ℕ
  pub stmt : Option ℕ
  pub column_count : ℤ

-- `a >= b` on int32_t
unfoldable pub at_least : ℤ → ℤ → Bool
at_least (pos a) (pos b) = leb b a
at_least (pos a) (negsuc b) = true
at_least (negsuc a) (pos b) = false
at_least (negsuc a) (negsuc b) = leb a b

-- `SqlQueryImpl(db)`
unfoldable pub query_on : ℕ → SqlQueryImpl
query_on db = record { db = db; stmt = none; column_count = pos 0 }

-- A query object beside the library's state.
pub record Conn (q : Sqlite) : Type 0 where
  pub query : SqlQueryImpl
  pub world : q.World

-- A `Column`: the statement of the query at the time of the call, and the index.
pub record ColumnImpl : Type 0 where
  pub stmt : Option ℕ
  pub index : ℤ

module _ (q : Sqlite) where
  abbrev pub Do : Type 0 → Type 0
  Do A = M (Conn q) A

  abbrev pub call : {A : Type 0} → (q.World → A × q.World) → Do A
  call f c = (ok (f c.world).0, record c { world = (f c.world).1 })

  -- `CHECK_SQLITE2(rc, db_)`
  unfoldable pub check_sqlite2 : ℕ → Do (Unit {0})
  check_sqlite2 rc c =
      if rc == sqlite_ok
      then (ok tt, c)
      else (throw (runtime_error (q.errmsg c.query.db c.world) []), c)

  abbrev pub set_stmt : Option ℕ → Do (Unit {0})
  set_stmt s c = (ok tt, record c { query = record (c.query) { stmt = s } })

  unfoldable pub finalize : Do (Unit {0})
  unfolding check_sqlite2
  finalize c = (do rc ← call (q.finalize c.query.stmt); check_sqlite2 rc; set_stmt none) c

  abbrev pub set_column_count : Do (Unit {0})
  set_column_count c = (
    ok tt,
    record c { query = record (c.query) { column_count = q.column_count c.query.stmt c.world } },
  )

  -- After `sqlite3_prepare_v2`, which has stored its statement.
  unfoldable pub prepared : ℕ → Do (Unit {0})
  unfolding finalize
  prepared rc =
      if rc == sqlite_ok
      then set_column_count
      else (do finalize; λ c. (throw (runtime_error (q.errmsg c.query.db c.world) []), c))

  unfoldable pub prepare : Bytes → Do (Unit {0})
  unfolding finalize prepared
  prepare sql = do
    finalize
    (rc, stmt) ← λ c. call (q.prepare_v2 c.query.db sql (int32 (length sql))) c
    set_stmt stmt
    prepared rc

  unfoldable pub bind_value : ℤ → Value q.Double → Do (Unit {0})
  unfolding check_sqlite2
  bind_value index value = do rc ← λ c. call (q.bind c.query.stmt index value) c; check_sqlite2 rc

  unfoldable pub bind_int32 : ℤ → ℤ → Do (Unit {0})
  unfolding bind_value
  bind_int32 index value = bind_value index (int_value value)

  unfoldable pub bind_int64 : ℤ → ℤ → Do (Unit {0})
  unfolding bind_value
  bind_int64 index value = bind_value index (int64_value value)

  unfoldable pub bind_double : ℤ → q.Double → Do (Unit {0})
  unfolding bind_value
  bind_double index value = bind_value index (double_value value)

  unfoldable pub bind_text : ℤ → Bytes → Do (Unit {0})
  unfolding bind_value
  bind_text index value = bind_value index (text_value value (int32 (length value)))

  -- A blob is stored compressed.
  unfoldable pub bind_blob : Zstd → ℤ → Bytes → Do (Unit {0})
  unfolding bind_value compress_data
  bind_blob z index value = do
    compressed_data ← λ c. (compress_data z value none, c)
    bind_value index (blob_value compressed_data (int32 (length compressed_data)))

  abbrev pub not_prepared : {A : Type 0} → Do A
  not_prepared = raise (logic_error (codes "Call prepare first") [])

  unfoldable pub exec_stmt : ℕ → Do ℤ
  unfolding check_sqlite2
  exec_stmt stmt = do
    rc ← call (q.step stmt)
    λ c. throw_if (not (rc == sqlite_done)) (runtime_error (q.errmsg c.query.db c.world) []) c
    rc' ← call (q.reset stmt)
    check_sqlite2 rc'
    λ c. (ok (q.changes c.query.db c.world), c)

  abbrev pub with_stmt : {A : Type 0} → Option ℕ → (ℕ → Do A) → Do A
  with_stmt none f = not_prepared
  with_stmt (some stmt) f = f stmt

  unfoldable pub exec : Do ℤ
  unfolding exec_stmt
  exec c = with_stmt c.query.stmt exec_stmt c

  unfoldable pub after_step : ℕ → ℕ → Do Bool
  unfolding check_sqlite2
  after_step stmt rc =
      if rc == sqlite_row
      then return true
      else (do rc' ← call (q.reset stmt); check_sqlite2 rc'; return false)

  unfoldable pub next_stmt : ℕ → Do Bool
  unfolding after_step
  next_stmt stmt = do rc ← call (q.step stmt); after_step stmt rc

  unfoldable pub next : Do Bool
  unfolding next_stmt
  next c = with_stmt c.query.stmt next_stmt c

  abbrev pub index_error : Error
  index_error = out_of_range (codes "Column index out of range") []

  unfoldable pub get_column_name : ℤ → Do Bytes
  unfolding at_least
  get_column_name index c =
      if at_least index c.query.column_count
      then (throw index_error, c)
      else (ok (q.column_name c.query.stmt index c.world), c)

  unfoldable pub get_column : ℤ → Do ColumnImpl
  unfolding at_least
  get_column index c =
      if at_least index c.query.column_count
      then (throw index_error, c)
      else (ok (record { stmt = c.query.stmt; index = index }), c)

  -- `catch (...)` of the destructor: `error` of include/klib/log.h ends the process.
  abbrev pub exit_on_throw : Result (Unit {0}) × Conn q → Result (Unit {0}) × Conn q
  exit_on_throw (ok _, c) = (ok tt, c)
  exit_on_throw (throw e, c) = (terminated, c)
  exit_on_throw (terminated, c) = (terminated, c)

  -- `~SqlQueryImpl()`
  unfoldable pub destroy : Do (Unit {0})
  unfolding finalize
  destroy c = exit_on_throw (finalize c)
