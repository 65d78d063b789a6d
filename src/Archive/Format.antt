-- ===== src/Archive/Format.antt =====
-- src/archive.cpp: the formats and filters, and how an archive object is set up for them.
use klib.Base.{ℕ, ◌≡◌, refl, false, Option, none, some, [], Bytes, codes}
use klib.Base.Int.{ℤ, pos, is_negative}
use klib.Exception.{
  Error, runtime_error, invalid_argument, Result, ok, throw, M, ◌>>=◌, ◌>>◌, return, raise,
  throw_if,
}
use klib.Archive.Libarchive.{Libarchive, Call}

pub data Format : Type 0 where
  zip : Format
  the7_zip : Format
  tar : Format

pub data Filter : Type 0 where
  plain : Filter
  deflate : Filter
  gzip : Filter
  lzma : Filter

module _ (l : Libarchive) where
  abbrev pub Do : Type 0 → Type 0
  Do A = M l.World A

  abbrev pub lift : {A : Type 0} → (l.World → A × l.World) → Do A
  lift f w = (ok (f w).0, (f w).1)

  -- `CHECK_LIBARCHIVE(rc, archive)`: only a negative status is an error, a warning too.
  abbrev pub check_libarchive : ℕ → ℤ → Do (Unit {0})
  check_libarchive archive rc w =
      throw_if (is_negative rc) (runtime_error (l.error_string archive w) []) w

  -- `rc = archive_…(archive, …); CHECK_LIBARCHIVE(rc, archive);`
  unfoldable pub do_call : ℕ → Call → Do (Unit {0})
  unfolding is_negative
  do_call archive what = do rc ← lift (l.call archive what); check_libarchive archive rc

  unfoldable pub set_format_compression_level : ℕ → ℤ → Do (Unit {0})
  set_format_compression_level archive level =
      do_call archive (Call.format_option [] (codes "compression-level") (l.print level))

  unfoldable pub set_filter_compression_level : ℕ → ℤ → Do (Unit {0})
  set_filter_compression_level archive level =
      do_call archive (Call.filter_option [] (codes "compression-level") (l.print level))

  -- `level ? *level : 6`
  abbrev pub level_or : Option ℤ → ℤ
  level_or none = pos 6
  level_or (some n) = n

  abbrev pub zip_filter_error : Error
  zip_filter_error =
      invalid_argument
        (codes "Filter other than Deflate should not be used in the ZIP archive format") []

  abbrev pub the7_zip_filter_error : Error
  the7_zip_filter_error =
      invalid_argument
        (codes "Filter other than Deflate should not be used in the 7-Zip archive format") []

  -- The three branches on the format, behind the call that sets it.
  unfoldable pub zip_filter : ℕ → Filter → Option ℤ → Do (Unit {0})
  zip_filter archive plain level = do_call archive Call.zip_store
  zip_filter archive deflate level = do
    do_call archive Call.zip_deflate
    set_format_compression_level archive (level_or level)
  zip_filter archive gzip level = raise zip_filter_error
  zip_filter archive lzma level = raise zip_filter_error

  abbrev set_7zip : ℕ → Bytes → Do (Unit {0})
  set_7zip archive method =
      do_call archive (Call.format_option (codes "7zip") (codes "compression") method)

  unfoldable pub the7_zip_filter : ℕ → Filter → Option ℤ → Do (Unit {0})
  the7_zip_filter archive plain level = set_7zip archive (codes "store")
  the7_zip_filter archive deflate level = do
    set_7zip archive (codes "deflate")
    set_format_compression_level archive (level_or level)
  the7_zip_filter archive lzma level = do
    set_7zip archive (codes "LZMA2")
    set_format_compression_level archive (level_or level)
  the7_zip_filter archive gzip level = raise the7_zip_filter_error

  unfoldable pub tar_filter : ℕ → Filter → Option ℤ → Do (Unit {0})
  tar_filter archive plain level = do_call archive Call.filter_none
  tar_filter archive gzip level = do
    do_call archive Call.filter_gzip
    set_filter_compression_level archive (level_or level)
  tar_filter archive lzma level = do
    do_call archive Call.filter_xz
    set_filter_compression_level archive (level_or level)
    do_call archive
        (Call.filter_option (codes "xz") (codes "threads") (l.print (pos l.hardware_concurrency)))
  tar_filter archive deflate level = return tt

  unfoldable pub init_write_format_filter : ℕ → Format → Filter → Option ℤ → Do (Unit {0})
  init_write_format_filter archive zip filter level = do
    do_call archive Call.format_zip
    zip_filter archive filter level
  init_write_format_filter archive the7_zip filter level = do
    do_call archive Call.format_7zip
    the7_zip_filter archive filter level
  init_write_format_filter archive tar filter level = do
    do_call archive Call.format_pax_restricted
    tar_filter archive filter level

  unfoldable pub init_read_format_filter : ℕ → Do (Unit {0})
  init_read_format_filter archive = do
    do_call archive Call.support_zip
    do_call archive Call.support_7zip
    do_call archive Call.support_tar
    do_call archive Call.support_gnutar
    do_call archive Call.support_filter_none
    do_call archive Call.support_filter_gzip
    do_call archive Call.support_filter_xz

  -- What the set-up does at each pair where libarchive accepts every call: it refuses Gzip and LZMA in a
  -- ZIP archive and Gzip in a 7-Zip archive.
  abbrev pub set_up_result : Format → Filter → Result (Unit {0})
  set_up_result zip gzip = throw zip_filter_error
  set_up_result zip lzma = throw zip_filter_error
  set_up_result the7_zip gzip = throw the7_zip_filter_error
  set_up_result _ _ = ok tt

module _ (l : Libarchive)
    (good : (archive : ℕ) (what : Call) (w : l.World)
      → is_negative (l.call archive what w).0 ≡ false) where
  pub do_call-ok :
      (archive : ℕ) (what : Call) (w : l.World)
      → do_call l archive what w ≡ (ok tt, (l.call archive what w).1)
  unfolding do_call
  do_call-ok archive what w = rw (good archive what w) refl

  zip_filter-result :
      (archive : ℕ) (filter : Filter) (level : Option ℤ) (w : l.World)
      → (zip_filter l archive filter level w).0 ≡ set_up_result l zip filter
  unfolding zip_filter set_format_compression_level
  zip_filter-result archive plain level w = simp do_call-ok
  zip_filter-result archive deflate level w = simp do_call-ok
  zip_filter-result archive gzip level w = refl
  zip_filter-result archive lzma level w = refl

  the7_zip_filter-result :
      (archive : ℕ) (filter : Filter) (level : Option ℤ) (w : l.World)
      → (the7_zip_filter l archive filter level w).0 ≡ set_up_result l the7_zip filter
  unfolding the7_zip_filter set_format_compression_level
  the7_zip_filter-result archive plain level w = simp do_call-ok
  the7_zip_filter-result archive deflate level w = simp do_call-ok
  the7_zip_filter-result archive gzip level w = refl
  the7_zip_filter-result archive lzma level w = simp do_call-ok

  tar_filter-result :
      (archive : ℕ) (filter : Filter) (level : Option ℤ) (w : l.World)
      → (tar_filter l archive filter level w).0 ≡ set_up_result l tar filter
  unfolding tar_filter set_filter_compression_level
  tar_filter-result archive plain level w = simp do_call-ok
  tar_filter-result archive deflate level w = refl
  tar_filter-result archive gzip level w = simp do_call-ok
  tar_filter-result archive lzma level w = simp do_call-ok

  -- Where libarchive accepts every call, setting up the writer throws for Gzip and LZMA in a ZIP archive
  -- and for Gzip in a 7-Zip archive, and succeeds for every other pair: also for LZMA in a 7-Zip
  -- archive and for Deflate in a TAR archive.
  pub init_write_format_filter-result :
      (archive : ℕ) (format : Format) (filter : Filter) (level : Option ℤ) (w : l.World)
      → (init_write_format_filter l archive format filter level w).0 ≡ set_up_result l format filter
  unfolding init_write_format_filter
  init_write_format_filter-result archive zip filter level w =
      rw do_call-ok (zip_filter-result archive filter level _)
  init_write_format_filter-result archive the7_zip filter level w =
      rw do_call-ok (the7_zip_filter-result archive filter level _)
  init_write_format_filter-result archive tar filter level w =
      rw do_call-ok (tar_filter-result archive filter level _)

  -- A TAR archive with the filter Deflate is set up by the format alone: its data is not compressed.
  pub init_write_format_filter-tar_deflate :
      (archive : ℕ) (level : Option ℤ) (w : l.World)
      → init_write_format_filter l archive tar deflate level w
        ≡ (ok tt, (l.call archive Call.format_pax_restricted w).1)
  unfolding init_write_format_filter tar_filter
  init_write_format_filter-tar_deflate archive level w = rw do_call-ok refl
