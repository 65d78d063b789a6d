-- ===== src/Archive/Entries/Written.antt =====
-- src/archive.cpp: the archive objects of `compress`.
use klib.Base.{
  ℕ, zero, suc, Bool, true, false, ◌||◌, Option, none, some, List, [], ◌∷◌, Bytes, if◌then◌else◌,
  c_str,
}
use klib.Base.Int.{narrow, ℤ, pos, ◌==ℤ◌}
use klib.Util.Files.{read_file}
use klib.Archive.Names.{compressed_file_name}
use klib.Archive.Libarchive.{Libarchive, Call}
use klib.Archive.Format.{
  Format, zip, the7_zip, tar, Filter, plain, deflate, gzip, lzma, Do, set_format_compression_level,
  set_filter_compression_level, zip_filter, the7_zip_filter, tar_filter, init_write_format_filter,
  init_read_format_filter,
}
use klib.Archive.Entries.{
  Loop, continue, add_file, add_content, add_entry, add_entries, add_path, add_paths, set_password,
  compress_paths, compress_from, archive_name, compress,
}
use klib.Archive.Entries.Frames.{
  IsLibarchive, Frames, bind, done, raised, checked, got, given, status, lifted, called, disked,
  Makes, scoped, in_directory-Frames,
}

module _ {l : Libarchive} {is_open : l.World → ℕ → Bool} (L : IsLibarchive l is_open) where
  pub if_frames :
      {A : Type 0} (b : Bool) (m n : Do l A)
      → Frames l is_open m
      → Frames l is_open n
      → Frames l is_open (if b then m else n)
  if_frames true m n p q = p
  if_frames false m n p q = q

  pub continue-Frames :
      {A : Type 0} (o : Option (Unit {0})) (m : Loop l A)
      → Frames l is_open m
      → Frames l is_open (continue l o m)
  continue-Frames none m p = done none
  continue-Frames (some _) m p = p

  formatted : (a : ℕ) (level : ℤ) → Frames l is_open (set_format_compression_level l a level)
  unfolding set_format_compression_level
  formatted a level = called L a _

  filtered : (a : ℕ) (level : ℤ) → Frames l is_open (set_filter_compression_level l a level)
  unfolding set_filter_compression_level
  filtered a level = called L a _

  zip_filter-Frames :
      (a : ℕ) (filter : Filter) (level : Option ℤ) → Frames l is_open (zip_filter l a filter level)
  unfolding zip_filter
  zip_filter-Frames a plain level = called L a _
  zip_filter-Frames a deflate level = bind (called L a _) (λ _. formatted a _)
  zip_filter-Frames a gzip level = raised _
  zip_filter-Frames a lzma level = raised _

  the7_zip_filter-Frames :
      (a : ℕ) (filter : Filter) (level : Option ℤ)
      → Frames l is_open (the7_zip_filter l a filter level)
  unfolding the7_zip_filter
  the7_zip_filter-Frames a plain level = called L a _
  the7_zip_filter-Frames a deflate level = bind (called L a _) (λ _. formatted a _)
  the7_zip_filter-Frames a lzma level = bind (called L a _) (λ _. formatted a _)
  the7_zip_filter-Frames a gzip level = raised _

  tar_filter-Frames :
      (a : ℕ) (filter : Filter) (level : Option ℤ) → Frames l is_open (tar_filter l a filter level)
  unfolding tar_filter
  tar_filter-Frames a plain level = called L a _
  tar_filter-Frames a gzip level = bind (called L a _) (λ _. filtered a _)
  tar_filter-Frames a lzma level =
      bind (called L a _) (λ _. bind (filtered a _) (λ _. called L a _))
  tar_filter-Frames a deflate level = done tt

  write_format-Frames :
      (a : ℕ) (format : Format) (filter : Filter) (level : Option ℤ)
      → Frames l is_open (init_write_format_filter l a format filter level)
  unfolding init_write_format_filter
  write_format-Frames a zip filter level =
      bind (called L a _) (λ _. zip_filter-Frames a filter level)
  write_format-Frames a the7_zip filter level =
      bind (called L a _) (λ _. the7_zip_filter-Frames a filter level)
  write_format-Frames a tar filter level =
      bind (called L a _) (λ _. tar_filter-Frames a filter level)

  pub read_format-Frames : (a : ℕ) → Frames l is_open (init_read_format_filter l a)
  unfolding init_read_format_filter
  read_format-Frames a = bind (called L a _) (λ _. bind (called L a _) (λ _.
      bind (called L a _) (λ _.
        bind (called L a _)
          (λ _. bind (called L a _) (λ _. bind (called L a _) (λ _. called L a _))))))

  write_new-Makes : Makes {l = l} {is_open = is_open} L l.write_new
  write_new-Makes w = (L.write_new_fresh w, L.write_new_open w)

  pub read_new-Makes : Makes {l = l} {is_open = is_open} L l.read_new
  read_new-Makes w = (L.read_new_fresh w, L.read_new_open w)

  reader_new-Makes : Makes {l = l} {is_open = is_open} L l.disk_reader_new
  reader_new-Makes w = (L.disk_reader_fresh w, L.disk_reader_open w)

  pub writer_new-Makes : Makes {l = l} {is_open = is_open} L l.disk_writer_new
  writer_new-Makes w = (L.disk_writer_fresh w, L.disk_writer_open w)

  add_content-Frames :
      (archive : ℕ) (path : Bytes) (regular : Bool)
      → Frames l is_open (add_content l archive path regular)
  unfolding add_content add_file
  add_content-Frames archive path true = bind {A = Bytes} (disked L (read_file path true)) (λ buff.
      bind
        (lifted (l.call archive (Call.write_data buff))
          (L.call_open archive (Call.write_data buff)))
        (λ rc. status archive (narrow rc)))
  add_content-Frames archive path false = done tt

  add_entry-Frames : (archive disk entry : ℕ) → Frames l is_open (add_entry l archive disk entry)
  unfolding add_entry
  add_entry-Frames archive disk entry = bind (called L disk Call.descend) (λ _.
      bind (called L archive (Call.write_header entry)) (λ _.
        bind (got (l.entry_sourcepath entry)) (λ path.
          bind (got (l.is_regular_file path))
            (λ regular. add_content-Frames archive path regular))))

  add_entries-Frames : (fuel archive disk : ℕ) → Frames l is_open (add_entries l fuel archive disk)
  unfolding add_entries
  add_entries-Frames zero archive disk = done none
  add_entries-Frames (suc fuel) archive disk =
      bind (lifted (l.next_header disk) (L.next_open disk)) (λ x.
        if_frames (x.0 ==ℤ pos 1) _ _ (done (some tt)) (
          bind (status disk x.0) (λ _.
            bind (add_entry-Frames archive disk x.1) (λ _. add_entries-Frames fuel archive disk))))

  add_path-Frames :
      (fuel archive : ℕ) (path : Bytes) → Frames l is_open (add_path l fuel archive path)
  unfolding add_path
  add_path-Frames fuel archive path = scoped L l.disk_reader_new _ reader_new-Makes (λ disk.
      bind (called L disk Call.disk_lookup) (λ _.
        bind (called L disk (Call.disk_open (c_str path)))
          (λ _. add_entries-Frames fuel archive disk)))

  add_paths-Frames :
      (fuel archive : ℕ) (paths : List Bytes) → Frames l is_open (add_paths l fuel archive paths)
  unfolding add_paths
  add_paths-Frames fuel archive [] = done (some tt)
  add_paths-Frames fuel archive (path ∷ paths) = bind (add_path-Frames fuel archive path) (λ o.
      continue-Frames o (add_paths l fuel archive paths) (add_paths-Frames fuel archive paths))

  set_password-Frames :
      (archive : ℕ) (password : Bytes) → Frames l is_open (set_password l archive password)
  unfolding set_password
  set_password-Frames archive [] = done tt
  set_password-Frames archive (c ∷ password) = bind (called L archive _) (λ _. called L archive _)

  compress_paths-Frames :
      (fuel : ℕ) (paths : List Bytes) (out_name : Bytes) (format : Format) (filter : Filter)
      (level : Option ℤ) (password : Bytes)
      → Frames l is_open (compress_paths l fuel paths out_name format filter level password)
  unfolding compress_paths
  compress_paths-Frames fuel paths out_name format filter level password =
      scoped L l.write_new _ write_new-Makes (λ archive.
        bind (write_format-Frames archive format filter level) (λ _.
          bind (set_password-Frames archive password) (λ _.
            bind (called L archive (Call.open_write (c_str out_name)))
              (λ _. add_paths-Frames fuel archive paths))))

  compress_from-Frames :
      (fuel : ℕ) (path name : Bytes) (format : Format) (filter : Filter) (level : Option ℤ)
      (password : Bytes) (one : Bool)
      → Frames l is_open (compress_from l fuel path name format filter level password one)
  unfolding compress_from
  compress_from-Frames fuel path name format filter level password true =
      compress_paths-Frames fuel (path ∷ []) name format filter level password
  compress_from-Frames fuel path name format filter level password false =
      in_directory-Frames L path _ (
        bind (got l.list_directory)
          (λ paths. compress_paths-Frames fuel paths name format filter level password))

  archive_name-Frames :
      (path : Bytes) (format : Format) (filter : Filter) (out_name : Bytes)
      → Frames l is_open (archive_name l path format filter out_name)
  unfolding archive_name
  archive_name-Frames path format filter [] = given (compressed_file_name path format filter)
  archive_name-Frames path format filter (c ∷ out_name) = done (c ∷ out_name)

  pub compress-Frames :
      (fuel : ℕ) (path : Bytes) (format : Format) (filter : Filter) (out_name : Bytes) (flag : Bool)
      (level : Option ℤ) (password : Bytes)
      → Frames l is_open (compress l fuel path format filter out_name flag level password)
  unfolding compress
  compress-Frames fuel path format filter out_name flag level password = bind (checked _ _) (λ _.
      bind (archive_name-Frames path format filter out_name) (λ name. bind (got _) (λ full.
        bind (got (l.is_regular_file path)) (λ regular.
          compress_from-Frames fuel path full format filter level password (flag || regular)))))
