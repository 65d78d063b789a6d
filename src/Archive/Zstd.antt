-- ===== src/Archive/Zstd.antt =====
-- src/archive.cpp: `compress_data` and `decompress_data`. Zstandard is a parameter.
use klib.Base.{
  ℕ, ◌-◌, ◌^◌, ◌<◌, ◌≡◌, refl, Bool, false, [], Option, none, some, arith, Bytes, codes, length,
  leb, ◌==◌, if◌then◌else◌, ap,
}
use klib.Base.Int.{ℤ, negsuc}
use klib.Base.Buffer.{resize, overwrite, resize-overwrite, overwrite_whole}
use klib.Exception.{runtime_error, length_error, Result, ok, throw}

-- The functions of zstd.h. One that fills a buffer gives the bytes that it writes and its result, a
-- length or an error code.
pub record Zstd : Type 0 where
  pub compress_bound : ℕ → ℕ
  pub compress : ℕ → Bytes → ℤ → Bytes × ℕ
  pub decompress : ℕ → Bytes → Bytes × ℕ
  pub get_frame_content_size : Bytes → ℕ
  pub is_error : ℕ → Bool
  pub get_error_name : ℕ → Bytes

-- `ZSTD_CONTENTSIZE_UNKNOWN` and `ZSTD_CONTENTSIZE_ERROR`
abbrev pub contentsize_unknown : ℕ
contentsize_unknown = 2 ^ 64 - 1

abbrev pub contentsize_error : ℕ
contentsize_error = 2 ^ 64 - 2

-- What the manual promises: a frame that was made in a buffer of the bound's size records the size
-- of the data, and is decompressed to the data in a buffer of that size.
pub record IsZstd (z : Zstd) : Type 0 where
  pub compress_length :
      (s : Bytes) (level : ℤ)
      → length s < 2 ^ 63
      → (z.compress (z.compress_bound (length s)) s level).1
        ≡ length (z.compress (z.compress_bound (length s)) s level).0
  pub compress_ok :
      (s : Bytes) (level : ℤ)
      → length s < 2 ^ 63
      → z.is_error (length (z.compress (z.compress_bound (length s)) s level).0) ≡ false
  pub frame_size :
      (s : Bytes) (level : ℤ)
      → length s < 2 ^ 63
      → z.get_frame_content_size (z.compress (z.compress_bound (length s)) s level).0 ≡ length s
  pub decompress_lem :
      (s : Bytes) (level : ℤ)
      → length s < 2 ^ 63
      → z.decompress (length s) (z.compress (z.compress_bound (length s)) s level).0 ≡ (s, length s)
  pub length_ok : (s : Bytes) → length s < 2 ^ 63 → z.is_error (length s) ≡ false

-- `level ? *level : -4`
abbrev pub level_or : Option ℤ → ℤ
level_or none = negsuc 3
level_or (some l) = l

module _ (z : Zstd) where
  unfoldable pub compress_data : Bytes → Option ℤ → Result Bytes
  compress_data s level =
      let max_size = z.compress_bound (length s) in
      if leb (2 ^ 63) max_size
      then throw length_error
      else (let (out, len) = z.compress max_size s (level_or level) in
          if z.is_error len
          then throw (runtime_error (z.get_error_name len) [])
          else ok (resize len (overwrite out (resize max_size []))))

  unfoldable pub decompress_data : Bytes → Result Bytes
  decompress_data s =
      let len = z.get_frame_content_size s in
      if len == contentsize_error
      then throw (runtime_error (codes "Not compressed by zstd") [])
      else if len == contentsize_unknown
      then throw (runtime_error (codes "Original size unknown") [])
      else if leb (2 ^ 63) len
      then throw length_error
      else (let (out, rc) = z.decompress len s in
          if z.is_error rc
          then throw (runtime_error (z.get_error_name rc) [])
          else ok (overwrite out (resize len [])))

not_long : (n : ℕ) → n < 2 ^ 63 → leb (2 ^ 63) n ≡ false
not_long n h = ground arith

module _ (z : Zstd) (L : IsZstd z) (s : Bytes) (level : ℤ) (small : length s < 2 ^ 63)
    (room : z.compress_bound (length s) < 2 ^ 63) where
  abbrev frame : Bytes
  frame = (z.compress (z.compress_bound (length s)) s level).0

  compress_data-some : compress_data z s (some level) ≡ ok frame
  unfolding compress_data
  compress_data-some =
      rw
        (
          not_long (z.compress_bound (length s)) room,
          L.compress_length s level small,
          L.compress_ok s level small,
        )
        (ap ok (resize-overwrite frame _))

  compress_data-none : level ≡ negsuc 3 → compress_data z s none ≡ ok frame
  unfolding compress_data
  compress_data-none e = rw (← e) (
      rw
        (
          not_long (z.compress_bound (length s)) room,
          L.compress_length s level small,
          L.compress_ok s level small,
        )
        (ap ok (resize-overwrite frame _)))

  decompress_data-frame : decompress_data z frame ≡ ok s
  unfolding decompress_data
  decompress_data-frame =
      rw
        (
          L.frame_size s level small,
          not_long (length s) small,
          L.decompress_lem s level small,
          L.length_ok s small,
          overwrite_whole,
        )
        (ground arith)

-- With a Zstandard that does what `IsZstd` says: data below 2 ^ 63 bytes, for which the buffer that
-- Zstandard asks for is below that too, is compressed without an
-- error and comes back whole from `decompress_data`, whatever the level.
pub decompress_data-compress_data :
    (z : Zstd)
    → IsZstd z
    → (s : Bytes) (level : Option ℤ) → length s < 2 ^ 63
    → z.compress_bound (length s) < 2 ^ 63
    → (d : Bytes) × (compress_data z s level ≡ ok d) × (decompress_data z d ≡ ok s)
decompress_data-compress_data z L s (some l) small room = (
  frame z L s l small room,
  compress_data-some z L s l small room,
  decompress_data-frame z L s l small room,
)
decompress_data-compress_data z L s none small room = (
  frame z L s _ small room,
  compress_data-none z L s _ small room refl,
  decompress_data-frame z L s _ small room,
)
