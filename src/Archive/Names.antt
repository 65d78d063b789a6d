-- ===== src/Archive/Names.antt =====
-- src/archive.cpp: `compressed_file_name`.
use klib.Base.{
  ◌≡◌, ◌≢◌, ap, ◌∙◌, Option, none, some, [], ◌∷◌, ◌++◌, arith, Bytes, codes, ◌==◌, if◌then◌else◌,
  All, Bool-cases, inl, inr, append-nil, append_assoc,
}
use klib.Exception.{invalid_argument, Result, ok, throw}
use klib.Archive.Format.{Format, zip, the7_zip, tar, Filter, plain, deflate, gzip, lzma}

-- `std::filesystem::path(path).filename()`: what stands behind the last slash.
unfoldable pub filename : Bytes → Bytes → Bytes
filename [] name = name
filename (c ∷ s) name = filename s (if c == b'/' then [] else name ++ c ∷ [])

unfoldable pub suffix : Format → Filter → Option Bytes
suffix zip filter = some (codes ".zip")
suffix the7_zip filter = some (codes ".7z")
suffix tar plain = some (codes ".tar")
suffix tar gzip = some (codes ".tar.gz")
suffix tar lzma = some (codes ".tar.xz")
suffix tar deflate = none

abbrev pub with_suffix : Bytes → Option Bytes → Result Bytes
with_suffix name none = throw (invalid_argument (codes "Unknown format or filter") [])
with_suffix name (some s) = ok (name ++ s)

unfoldable pub compressed_file_name : Bytes → Format → Filter → Result Bytes
unfolding filename suffix
compressed_file_name path format filter = with_suffix (filename path []) (suffix format filter)

filename_plain : (s name : Bytes) → All (λ c. c ≢ b'/') s → filename s name ≡ name ++ s
unfolding filename
filename_plain [] name _ = rw append-nil
filename_plain (c ∷ s) name (h, hs) = elim (Bool-cases (c == b'/')) [
  | inl y ↦ absurd (h (ground arith))
  | inr n ↦ rw n (filename_plain s (name ++ c ∷ []) hs ∙ append_assoc name (c ∷ []) s)
]

filename-append :
    (dir s name : Bytes) → All (λ c. c ≢ b'/') s → filename (dir ++ (b'/' ∷ s)) name ≡ s
unfolding filename
filename-append [] s name h = filename_plain s [] h
filename-append (c ∷ dir) s name h = filename-append dir s _ h

-- The default name of the archive of `dir/name` is `name` with the suffix of the format, whatever the
-- directory; only a TAR archive with the filter Deflate has none.
pub compressed_file_name-append :
    (dir name : Bytes) (format : Format) (filter : Filter)
    → All (λ c. c ≢ b'/') name
    → (compressed_file_name (dir ++ (b'/' ∷ name)) format filter
        ≡ with_suffix name (suffix format filter))
      × (compressed_file_name name format filter ≡ with_suffix name (suffix format filter))
unfolding compressed_file_name
compressed_file_name-append dir name format filter h = (
  ap (λ n. with_suffix n (suffix format filter)) (filename-append dir name [] h),
  ap (λ n. with_suffix n (suffix format filter)) (filename_plain name [] h),
)
