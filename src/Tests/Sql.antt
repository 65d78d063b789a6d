-- ===== src/Tests/Sql.antt =====
-- src/sql.cpp with a SQLite of one statement.
use klib.Base.{
  ℕ, ◌≡◌, ◌≢◌, refl, Bool, true, false, Option, none, some, [], ◌∷◌, arith, Bytes, codes, is_empty,
  ◌==◌, if◌then◌else◌,
}
use klib.Base.Int.{ℤ, pos, ◌==ℤ◌}
use klib.Base.Buffer.{resize, overwrite}
use klib.Exception.{runtime_error, ok, throw, terminated, ◌>>◌}
use klib.Archive.Zstd.{compress_data}
use klib.Tests.Archive.{stored, stored-IsZstd}
use klib.Sql.Sqlite.{Sqlite, text_value, blob_value}
use klib.Sql.Query.{Conn, ColumnImpl, query_on, prepare, bind_value, bind_blob, exec, next}
use klib.Sql.Query.Handles.{
  IsSqlite, prepared_sql, bound, stepped, Reach, here, then_step, prepare_refused, Reach-IsSafe,
}
use klib.Sql.Column.{as_blob, as_blob-bind_blob}
use klib.Sql.Database.Exits.{ReportsFailure, with_query-exec-next}
use klib.Sql.Database.{with_query}

-- The statement that is allocated, whether its evaluation failed, and the rows of the last change.
pub record Files : Type 0 where
  pub live : Option ℕ
  pub failed : Bool
  pub changed : ℤ

abbrev free : Option ℕ → Files → ℕ × Files
free none w = (0, w)
free (some h) w = (if w.failed then 1 else 0, record w { live = none; failed = false })

abbrev compile : Bytes → Files → (ℕ × Option ℕ) × Files
compile [] w = ((1, none), w)
compile (c ∷ sql) w = ((0, some 1), record w { live = some 1 })

abbrev unlock : Bytes → Files → ℕ × Files
unlock [] w = (26, w)
unlock (c ∷ password) w = (if c == b'k' then 0 else 26, w)

-- Opening the file with no name fails. A column holds the bytes 1 and 0.
abbrev toy : Sqlite
toy = record {
  World = Files;
  Double = ℕ;
  open_v2 = λ name flags w. ((if is_empty name then 14 else 0, 7), w);
  close_v2 = λ db w. (0, w);
  key = λ db password n w. unlock password w;
  errmsg = λ db w. codes "error";
  errstr = λ rc. codes "error";
  prepare_v2 = λ db sql n w. compile sql w;
  finalize = free;
  bind = λ s i v w. (0, w);
  step = λ s w. (101, w);
  reset = λ s w. (0, w);
  changes = λ db w. w.changed;
  exec = λ db sql w. ((0, []), w);
  column_count = λ s w. pos 1;
  column_name = λ s i w. [];
  column_type = λ s i w. if i ==ℤ pos 0 then 4 else 3;
  column_int = λ s i w. pos 0;
  column_int64 = λ s i w. pos 0;
  column_double = λ s i w. 0;
  column_text = λ s i w. 1 ∷ 0 ∷ [];
  column_blob = λ s i w. 1 ∷ 0 ∷ [];
}

abbrev Live : Files → ℕ → Type 0
Live w h = w.live ≡ some h

toy_prepare_live :
    (sql : Bytes) (w : Files) (h : ℕ)
    → (compile sql w).0.0 ≡ 0
    → (compile sql w).0.1 ≡ some h
    → Live (compile sql w).1 h
toy_prepare_live [] w h p q = absurd (omega arith)
toy_prepare_live (c ∷ sql) w h p q = q

toy_prepare_null : (sql : Bytes) (w : Files) → (compile sql w).0.0 ≢ 0 → (compile sql w).0.1 ≡ none
toy_prepare_null [] w p = refl
toy_prepare_null (c ∷ sql) w p = absurd (p refl)

toy-IsSqlite : IsSqlite toy Live
toy-IsSqlite = record {
  finalize_null = λ w. refl;
  finalize_frees = λ h w e. absurd (cc);
  prepare_live = λ db sql n. toy_prepare_live sql;
  prepare_null = λ db sql n. toy_prepare_null sql;
  bind_live = λ s i v w h l. l;
  step_live = λ s w h l. l;
  reset_live = λ s w h l. l;
}

abbrev files : Bool → Files
files b = record { live = some 1; failed = b; changed = pos 3 }

abbrev holding : Bool → Conn toy
holding b = record {
  query = record { db = 7; stmt = some 1; column_count = pos 1 };
  world = files b;
}

abbrev fresh : Conn toy
fresh = record {
  query = query_on 7;
  world = record { live = none; failed = false; changed = pos 0 };
}

abbrev selected : Conn toy
selected = (prepare toy (codes "SELECT 1") fresh).1

selected_ok : (prepare toy (codes "SELECT 1") fresh).0 ≡ ok tt
unfolding prepare query_on
selected_ok = refl

fresh_stmt : fresh.query.stmt ≡ none
unfolding query_on
fresh_stmt = refl

-- Preparing, binding a parameter and running a step.
run_once :
    Reach toy Live toy-IsSqlite fresh
      (next toy (bind_value toy (pos 1) (text_value [] (pos 0)) selected).1).1
run_once =
    then_step
      (then_step (then_step here (prepared_sql (codes "SELECT 1") fresh selected_ok))
        (bound (pos 1) (text_value [] (pos 0)) selected))
      (stepped (bind_value toy (pos 1) (text_value [] (pos 0)) selected).1)

abbrev ran : Conn toy
ran = (next toy (bind_value toy (pos 1) (text_value [] (pos 0)) selected).1).1

ran_stmt : ran.query.stmt ≡ some 1
unfolding prepare query_on bind_value next
ran_stmt = refl

Reach-IsSafe_example : Live ran.world 1
Reach-IsSafe_example = Reach-IsSafe toy Live toy-IsSqlite run_once fresh_stmt 1 ran_stmt

prepare_refused_example : prepare toy [] (holding false) ≡ (
  throw (runtime_error (codes "error") []),
  record {
    query = record { db = 7; stmt = none; column_count = pos 1 };
    world = record { live = none; failed = false; changed = pos 3 };
  },
)
prepare_refused_example =
    prepare_refused toy Live toy-IsSqlite [] (holding false) refl (omega arith)

abbrev column : ℕ → ColumnImpl
column i = record { stmt = some 1; index = pos i }

stored_compress : compress_data stored (1 ∷ 0 ∷ []) none ≡ ok (1 ∷ 0 ∷ [])
unfolding compress_data resize overwrite
stored_compress = refl

blob_column : toy.column_type (some 1) (pos 0) (files false) ≡ 4
unfolding ◌==ℤ◌
blob_column = refl

as_blob-bind_blob_example :
    (bind_blob toy stored (pos 1) (1 ∷ 0 ∷ []) (holding false)
      ≡ bind_value toy (pos 1) (blob_value (1 ∷ 0 ∷ []) (pos 2)) (holding false))
    × (as_blob toy stored (column 0) (files false) ≡ ok (1 ∷ 0 ∷ []))
as_blob-bind_blob_example =
    as_blob-bind_blob toy stored stored-IsZstd (pos 1) (1 ∷ 0 ∷ []) (1 ∷ 0 ∷ []) (holding false)
      (column 0) (files false) (omega arith) (omega arith) stored_compress (omega arith) blob_column
      refl

-- The same with a statement whose evaluation fails.
abbrev failing : Sqlite
failing = record toy {
  step = λ s w. (19, record w { failed = true });
  reset = λ s w. (if w.failed then 19 else 0, record w { failed = false });
}

failing-ReportsFailure : ReportsFailure failing
failing-ReportsFailure = record {
  finalize_reports = λ h w row done. omega arith;
  reset_reports = λ h w row done. omega arith;
  reset_clears = λ h w. refl;
}

abbrev started : Conn failing
started = record { query = query_on 7; world = fresh.world }

abbrev inserting : Conn failing
inserting = (prepare failing (codes "INSERT") started).1

inserting_ready : prepare failing (codes "INSERT") started ≡ (ok tt, inserting)
unfolding prepare query_on
inserting_ready = refl

inserting_stmt : inserting.query.stmt ≡ some 1
unfolding prepare query_on
inserting_stmt = refl

with_query-exec-next_example :
    ((with_query failing 7 (prepare failing (codes "INSERT") >> exec failing) fresh.world).0
      ≡ terminated)
    × ((with_query failing 7 (prepare failing (codes "INSERT") >> next failing) fresh.world).0
        ≡ throw (runtime_error (codes "error") []))
with_query-exec-next_example =
    with_query-exec-next failing failing-ReportsFailure 7 (prepare failing (codes "INSERT"))
      fresh.world inserting 1 inserting_ready inserting_stmt (omega arith) (omega arith)
