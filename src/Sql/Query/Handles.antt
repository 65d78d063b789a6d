-- ===== src/Sql/Query/Handles.antt =====
-- Which statement a query of src/sql.cpp holds after each operation, and whether it is alive.
use klib.Base.{
  ℕ, ◌≡◌, ◌≢◌, inl, inr, Option, none, some, [], arith, Bytes, length, ◌==◌, if◌then◌else◌,
  Option-cases,
}
use klib.Base.Int.{ℤ, int32}
use klib.Exception.{runtime_error, ok, throw}
use klib.Sql.Sqlite.{Sqlite, Value, sqlite_ok}
use klib.Sql.Query.{Conn, finalize, prepare, bind_value, exec, next}

-- What sqlite3.h promises of statements, for a predicate `Live` of the statements that are allocated.
-- `sqlite3_finalize` frees the statement whatever it returns; a null pointer is harmless.
pub record IsSqlite (q : Sqlite) (Live : q.World → ℕ → Type 0) : Type 0 where
  pub finalize_null : (w : q.World) → q.finalize none w ≡ (sqlite_ok, w)
  pub finalize_frees : (h : ℕ) (w : q.World) → ¬ Live (q.finalize (some h) w).1 h
  pub prepare_live :
      (db : ℕ) (sql : Bytes) (n : ℤ) (w : q.World) (h : ℕ)
      → (q.prepare_v2 db sql n w).0.0 ≡ sqlite_ok
      → (q.prepare_v2 db sql n w).0.1 ≡ some h
      → Live (q.prepare_v2 db sql n w).1 h
  pub prepare_null :
      (db : ℕ) (sql : Bytes) (n : ℤ) (w : q.World)
      → (q.prepare_v2 db sql n w).0.0 ≢ sqlite_ok
      → (q.prepare_v2 db sql n w).0.1 ≡ none
  pub bind_live :
      (s : Option ℕ) (i : ℤ) (v : Value q.Double) (w : q.World) (h : ℕ)
      → Live w h
      → Live (q.bind s i v w).1 h
  pub step_live : (s : ℕ) (w : q.World) (h : ℕ) → Live w h → Live (q.step s w).1 h
  pub reset_live : (s : ℕ) (w : q.World) (h : ℕ) → Live w h → Live (q.reset s w).1 h

module _ (q : Sqlite) where
  -- If `sqlite3_finalize` reports success, `finalize` returns and the query holds no statement.
  -- If it reports an error, `finalize` throws its message and the query keeps the handle.
  pub finalize-stmt :
      (c : Conn q)
      → let (rc, freed) = q.finalize c.query.stmt c.world in
        finalize q c ≡ (
          if rc == sqlite_ok
          then (ok tt, record { query = record (c.query) { stmt = none }; world = freed })
          else (throw (runtime_error (q.errmsg c.query.db freed) []), record c { world = freed }))
  unfolding finalize
  finalize-stmt c = ground arith

module _ (q : Sqlite) (Live : q.World → ℕ → Type 0) (L : IsSqlite q Live) where
  -- The query's statement is null or allocated.
  abbrev pub IsSafe : Conn q → Type 0
  IsSafe c = (h : ℕ) → c.query.stmt ≡ some h → Live c.world h

  none-IsSafe : (c : Conn q) → c.query.stmt ≡ none → IsSafe c
  none-IsSafe c n h e = absurd (cc)

  finalize-IsSafe : (c : Conn q) → (finalize q c).0 ≡ ok tt → IsSafe (finalize q c).1
  unfolding finalize
  finalize-IsSafe c r h e = ground arith

  bind_value-IsSafe :
      (c : Conn q) (i : ℤ) (v : Value q.Double) → IsSafe c → IsSafe (bind_value q i v c).1
  unfolding bind_value
  bind_value-IsSafe c i v s h e = ground (arith, L.bind_live c.query.stmt i v c.world h, s h)

  exec-IsSafe : (c : Conn q) → IsSafe c → IsSafe (exec q c).1
  unfolding exec
  exec-IsSafe c s h e = elim (Option-cases c.query.stmt) [
    | inl n ↦ ground (arith, s h)
    | inr (k, n) ↦
        ground (arith, s h, L.step_live k c.world h, L.reset_live k (q.step k c.world).1 h)
  ]

  next-IsSafe : (c : Conn q) → IsSafe c → IsSafe (next q c).1
  unfolding next
  next-IsSafe c s h e = elim (Option-cases c.query.stmt) [
    | inl n ↦ ground (arith, s h)
    | inr (k, n) ↦
        ground (arith, s h, L.step_live k c.world h, L.reset_live k (q.step k c.world).1 h)
  ]

  prepare-IsSafe :
      (sql : Bytes) (c : Conn q) → (prepare q sql c).0 ≡ ok tt → IsSafe (prepare q sql c).1
  unfolding prepare
  prepare-IsSafe sql c r h e =
      let freed = (q.finalize c.query.stmt c.world).1 in
      ground (arith, L.prepare_live c.query.db sql (int32 (length sql)) freed h)

  -- With a SQLite that does what `IsSqlite` says: where the old statement is finalized without an
  -- error and the new text is refused, `prepare` throws the message and the query holds no
  -- statement; the number of columns is still that of the old statement.
  pub prepare_refused :
      (sql : Bytes) (c : Conn q)
      → let freed = (q.finalize c.query.stmt c.world).1 in
        let tried = q.prepare_v2 c.query.db sql (int32 (length sql)) freed in
        (q.finalize c.query.stmt c.world).0 ≡ sqlite_ok
        → tried.0.0 ≢ sqlite_ok
        → prepare q sql c ≡ (
          throw (runtime_error (q.errmsg c.query.db tried.1) []),
          record { query = record (c.query) { stmt = none }; world = tried.1 },
        )
  unfolding prepare
  prepare_refused sql c f t =
      let freed = (q.finalize c.query.stmt c.world).1 in
      let tried = q.prepare_v2 c.query.db sql (int32 (length sql)) freed in
      ground
        (arith, L.prepare_null c.query.db sql (int32 (length sql)) freed, L.finalize_null tried.1)

  -- What a program may do with a query whose `finalize` and `prepare` have not thrown so far.
  pub data Step : Conn q → Conn q → Type 0 where
    finalized : (c : Conn q) → (finalize q c).0 ≡ ok tt → Step c (finalize q c).1
    prepared_sql :
        (sql : Bytes) (c : Conn q) → (prepare q sql c).0 ≡ ok tt → Step c (prepare q sql c).1
    bound : (i : ℤ) (v : Value q.Double) (c : Conn q) → Step c (bind_value q i v c).1
    executed : (c : Conn q) → Step c (exec q c).1
    stepped : (c : Conn q) → Step c (next q c).1

  pub data Reach (c : Conn q) : Conn q → Type 0 where
    here : Reach c c
    then_step : {d e : Conn q} → Reach c d → Step d e → Reach c e

  Step-IsSafe : {c d : Conn q} → Step c d → IsSafe c → IsSafe d
  Step-IsSafe (finalized c r) s = finalize-IsSafe c r
  Step-IsSafe (prepared_sql sql c r) s = prepare-IsSafe sql c r
  Step-IsSafe (bound i v c) s = bind_value-IsSafe c i v s
  Step-IsSafe (executed c) s = exec-IsSafe c s
  Step-IsSafe (stepped c) s = next-IsSafe c s

  -- With a SQLite that does what `IsSqlite` says: a query that starts with no statement holds
  -- null or an allocated statement as long as `finalize` and `prepare` return; binding, `exec`
  -- and `next` may throw on the way.
  pub Reach-IsSafe : {c d : Conn q} → Reach c d → c.query.stmt ≡ none → IsSafe d
  Reach-IsSafe {c} here n = none-IsSafe c n
  Reach-IsSafe (then_step r st) n = Step-IsSafe st (Reach-IsSafe r n)
