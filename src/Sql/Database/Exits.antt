-- ===== src/Sql/Database/Exits.antt =====
-- What becomes of a block of src/sql.cpp with a local `SqlQuery` in which a statement fails.
use klib.Base.{ℕ, ◌≡◌, ◌≢◌, some, [], arith}
use klib.Exception.{runtime_error, ok, throw, terminated, M, ◌>>◌}
use klib.Sql.Sqlite.{Sqlite, sqlite_ok, sqlite_row, sqlite_done}
use klib.Sql.Query.{Conn, query_on, exec, next}
use klib.Sql.Database.{with_query}

-- What sqlite3.h promises of a statement whose last `sqlite3_step` failed: `sqlite3_finalize` and
-- `sqlite3_reset` report the failure, and behind a reset there is none left to report.
pub record ReportsFailure (q : Sqlite) : Type 0 where
  pub finalize_reports :
      (h : ℕ) (w : q.World)
      → (q.step h w).0 ≢ sqlite_row
      → (q.step h w).0 ≢ sqlite_done
      → (q.finalize (some h) (q.step h w).1).0 ≢ sqlite_ok
  pub reset_reports :
      (h : ℕ) (w : q.World)
      → (q.step h w).0 ≢ sqlite_row
      → (q.step h w).0 ≢ sqlite_done
      → (q.reset h (q.step h w).1).0 ≢ sqlite_ok
  pub reset_clears : (h : ℕ) (w : q.World) → (q.finalize (some h) (q.reset h w).1).0 ≡ sqlite_ok

module _ (q : Sqlite) (R : ReportsFailure q) where
  -- With a SQLite that does what `ReportsFailure` says: in a block with a local query, where the code
  -- in front has left a statement whose `sqlite3_step` fails, `exec` ends the process: it throws, and
  -- the destructor of the query meets the failure again. `next` resets the statement first, so that
  -- the caller of the block gets the exception with the message.
  pub with_query-exec-next :
      (db : ℕ) (before : M (Conn q) (Unit {0})) (w : q.World) (c : Conn q) (h : ℕ)
      → before (record { query = query_on db; world = w }) ≡ (ok tt, c)
      → c.query.stmt ≡ some h
      → (q.step h c.world).0 ≢ sqlite_row
      → (q.step h c.world).0 ≢ sqlite_done
      → ((with_query q db (before >> exec q) w).0 ≡ terminated)
        × ((with_query q db (before >> next q) w).0
            ≡ throw (runtime_error (q.errmsg c.query.db (q.reset h (q.step h c.world).1).1) []))
  unfolding with_query exec next
  with_query-exec-next db before w c h ready e row done = (
    rw (ready, e) (ground (arith, R.finalize_reports h c.world)),
    rw (ready, e)
        (ground (arith, R.reset_reports h c.world, R.reset_clears h (q.step h c.world).1)),
  )
