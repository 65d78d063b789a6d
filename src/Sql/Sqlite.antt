-- ===== src/Sql/Sqlite.antt =====
-- The functions of sqlite3.h (SQLCipher) that src/sql.cpp calls, over an unknown state of the library
-- and of the files. A handle is a number; a null pointer is `none`.
use klib.Base.{ℕ, Option, Bytes}
use klib.Base.Int.{ℤ}

-- The values of the five `sqlite3_bind_*` functions; `D` is `double`. A text and a blob
-- come with their length, an `int`, as the text of a statement and a key do.
pub data Value (D : Type 0) : Type 0 where
  int_value : ℤ → Value D
  int64_value : ℤ → Value D
  double_value : D → Value D
  text_value : Bytes → ℤ → Value D
  blob_value : Bytes → ℤ → Value D

pub record Sqlite : Type 1 where
  pub World : Type 0
  pub Double : Type 0
  pub open_v2 : Bytes → ℕ → World → (ℕ × ℕ) × World
  pub close_v2 : ℕ → World → ℕ × World
  pub key : ℕ → Bytes → ℤ → World → ℕ × World
  pub errmsg : ℕ → World → Bytes
  pub errstr : ℕ → Bytes
  pub prepare_v2 : ℕ → Bytes → ℤ → World → (ℕ × Option ℕ) × World
  pub finalize : Option ℕ → World → ℕ × World
  pub bind : Option ℕ → ℤ → Value Double → World → ℕ × World
  pub step : ℕ → World → ℕ × World
  pub reset : ℕ → World → ℕ × World
  pub changes : ℕ → World → ℤ
  pub exec : ℕ → Bytes → World → (ℕ × Bytes) × World
  pub column_count : Option ℕ → World → ℤ
  pub column_name : Option ℕ → ℤ → World → Bytes
  pub column_type : Option ℕ → ℤ → World → ℕ
  pub column_int : Option ℕ → ℤ → World → ℤ
  pub column_int64 : Option ℕ → ℤ → World → ℤ
  pub column_double : Option ℕ → ℤ → World → Double
  pub column_text : Option ℕ → ℤ → World → Bytes
  pub column_blob : Option ℕ → ℤ → World → Bytes

-- Constants of sqlite3.h.
abbrev pub sqlite_ok : ℕ
sqlite_ok = 0

abbrev pub sqlite_row : ℕ
sqlite_row = 100

abbrev pub sqlite_done : ℕ
sqlite_done = 101

abbrev pub sqlite_integer : ℕ
sqlite_integer = 1

abbrev pub sqlite_float : ℕ
sqlite_float = 2

abbrev pub sqlite_text : ℕ
sqlite_text = 3

abbrev pub sqlite_blob : ℕ
sqlite_blob = 4

abbrev pub sqlite_null : ℕ
sqlite_null = 5

abbrev pub sqlite_open_readonly : ℕ
sqlite_open_readonly = 1

-- `SQLITE_OPEN_READWRITE | SQLITE_OPEN_CREATE`
abbrev pub sqlite_open_readwrite_create : ℕ
sqlite_open_readwrite_create = 6
