-- ===== src/Sql/Column.antt =====
-- src/sql.cpp: `Column::ColumnImpl`, one column of the current row.
use klib.Base.{
  ℕ, ◌≡◌, ◌≢◌, ◌↔◌, ap, All, All-of_c_str, c_str-eq_self, ◌^◌, ◌<◌, refl, Bool, not, none, [],
  arith, Bytes, codes, c_str, ◌==◌, if◌then◌else◌, length,
}
use klib.Base.Int.{int32-eq-pos, pos, ℤ}
use klib.Exception.{invalid_argument, Result, ok, throw}
use klib.Archive.Zstd.{Zstd, IsZstd, decompress_data, compress_data, decompress_data-compress_data}
use klib.Sql.Sqlite.{
  Sqlite, sqlite_integer, sqlite_float, sqlite_text, sqlite_blob, sqlite_null, blob_value,
}
use klib.Sql.Query.{ColumnImpl, Conn, bind_value, bind_blob}

module _ (q : Sqlite) where
  unfoldable pub get_type : ColumnImpl → q.World → ℕ
  get_type c = q.column_type c.stmt c.index

  unfoldable pub is_null : ColumnImpl → q.World → Bool
  unfolding get_type
  is_null c w = get_type c w == sqlite_null

  unfoldable pub is_integer : ColumnImpl → q.World → Bool
  unfolding get_type
  is_integer c w = get_type c w == sqlite_integer

  unfoldable pub is_float : ColumnImpl → q.World → Bool
  unfolding get_type
  is_float c w = get_type c w == sqlite_float

  unfoldable pub is_text : ColumnImpl → q.World → Bool
  unfolding get_type
  is_text c w = get_type c w == sqlite_text

  unfoldable pub is_blob : ColumnImpl → q.World → Bool
  unfolding get_type
  is_blob c w = get_type c w == sqlite_blob

  unfoldable pub as_int32 : ColumnImpl → q.World → Result ℤ
  unfolding is_integer
  as_int32 c w =
      if not (is_integer c w)
      then throw (invalid_argument (codes "Not a integer") [])
      else ok (q.column_int c.stmt c.index w)

  unfoldable pub as_int64 : ColumnImpl → q.World → Result ℤ
  unfolding is_integer
  as_int64 c w =
      if not (is_integer c w)
      then throw (invalid_argument (codes "Not a integer") [])
      else ok (q.column_int64 c.stmt c.index w)

  unfoldable pub as_double : ColumnImpl → q.World → Result q.Double
  unfolding is_float
  as_double c w =
      if not (is_float c w)
      then throw (invalid_argument (codes "Not a float") [])
      else ok (q.column_double c.stmt c.index w)

  -- The string is made from the pointer alone.
  unfoldable pub as_text : ColumnImpl → q.World → Result Bytes
  unfolding is_text
  as_text c w =
      if not (is_text c w)
      then throw (invalid_argument (codes "Not a text") [])
      else ok (c_str (q.column_text c.stmt c.index w))

  unfoldable pub as_blob : Zstd → ColumnImpl → q.World → Result Bytes
  unfolding is_blob decompress_data
  as_blob z c w =
      if not (is_blob c w)
      then throw (invalid_argument (codes "Not a blob") [])
      else decompress_data z (q.column_blob c.stmt c.index w)

  -- With a Zstandard that does what `IsZstd` says: if a blob below 2 ^ 63 bytes, for which Zstandard asks
  -- for a buffer below that too, is compressed to `d` below 2 ^ 31 bytes, `bind` hands `d` with its
  -- length to SQLite, and wherever a column of type blob holds `d`, `as_blob` returns the blob.
  pub as_blob-bind_blob :
      (z : Zstd)
      → IsZstd z
      → (i : ℤ) (value d : Bytes) (c : Conn q) (col : ColumnImpl) (w : q.World)
      → length value < 2 ^ 63
      → z.compress_bound (length value) < 2 ^ 63
      → compress_data z value none ≡ ok d
      → length d < 2 ^ 31
      → q.column_type col.stmt col.index w ≡ sqlite_blob
      → q.column_blob col.stmt col.index w ≡ d
      → (bind_blob q z i value c ≡ bind_value q i (blob_value d (pos (length d))) c)
        × (as_blob z col w ≡ ok value)
  unfolding bind_blob as_blob
  as_blob-bind_blob z L i value d c col w small room made short t b =
      let (d', made', back) = decompress_data-compress_data z L value none small room in
      let same : d ≡ d' = ground arith in
      (rw (made, int32-eq-pos (length d) short) refl, rw (t, b, same) back)

  -- In a column of type text, `as_text` returns the stored text whole exactly if it has no NUL
  -- byte.
  pub as_text-eq-stored :
      (col : ColumnImpl) (w : q.World)
      → q.column_type col.stmt col.index w ≡ sqlite_text
      → (as_text col w ≡ ok (q.column_text col.stmt col.index w))
        ↔ All (λ c. c ≢ 0) (q.column_text col.stmt col.index w)
  unfolding as_text
  as_text-eq-stored col w t =
      let s = q.column_text col.stmt col.index w in
      rw t ((λ e. All-of_c_str s (ground arith)), λ h. ap ok (c_str-eq_self s h))
