-- ===== src/Archive/Entries.antt =====
-- src/archive.cpp: `compress`, `decompress` and `outermost_folder_name`, with their loops over entries. A
-- loop whose fuel runs out gives `none`.
pub mod Frames
pub mod Written
pub mod Closed
pub mod Extraction
pub mod Listing
use klib.Base.{
  ℕ, zero, suc, ◌≡◌, Bool, true, false, not, ◌&&◌, ◌||◌, Option, none, some, List, [], ◌∷◌, ◌++◌,
  Bytes, codes, c_str, is_empty, bytes_eq, ◌==◌, if◌then◌else◌,
}
use klib.Base.Int.{narrow, ℤ, pos, negsuc, ◌==ℤ◌}
use klib.Exception.{
  Error, invalid_argument, Result, ok, throw, terminated, M, ◌>>=◌, ◌>>◌, return, throw_if,
  scope_exit,
}
use klib.Util.Files.{Disk, read_file, change_working_dir, restore}
use klib.Archive.Libarchive.{Libarchive, Call}
use klib.Archive.Format.{
  Format, zip, the7_zip, tar, Filter, deflate, gzip, Do, lift, check_libarchive, do_call,
  init_write_format_filter, init_read_format_filter,
}
use klib.Archive.Names.{compressed_file_name}
use klib.Archive.Folder.{get_top_level_dir}
use klib.Archive.Transfer.{copy_data}

-- `std::filesystem::path`'s `/`: an absolute path replaces the directory.
unfoldable pub join_path : Bytes → Bytes → Bytes
join_path dir [] = dir ++ codes "/"
join_path dir (c ∷ name) = if c == b'/' then c ∷ name else dir ++ (b'/' ∷ c ∷ name)

unfoldable pub is_zip : Format → Bool
is_zip zip = true
is_zip the7_zip = false
is_zip tar = false

-- A `flat_hash_map<string, bool>`, whose `emplace` keeps the value of a key that is there.
unfoldable pub emplace_folder : Bytes → Bool → List (Bytes × Bool) → List (Bytes × Bool)
emplace_folder k v [] = (k, v) ∷ []
emplace_folder k v ((j, w) ∷ m) =
    let rest = emplace_folder k v m in if bytes_eq j k then (j, w) ∷ m else (j, w) ∷ rest

-- The only folder, if the map has one entry and it is a folder.
unfoldable pub only_folder : List (Bytes × Bool) → Option Bytes
only_folder [] = none
only_folder ((name, is_folder) ∷ []) = if is_folder then some name else none
only_folder (x ∷ y ∷ m) = none

module _ (l : Libarchive) where
  abbrev pub Loop : Type 0 → Type 0
  Loop A = Do l (Option A)

  abbrev pub gets : {A : Type 0} → (l.World → A) → Do l A
  gets f w = (ok (f w), w)

  abbrev pub act : (l.World → l.World) → Do l (Unit {0})
  act f w = (ok tt, f w)

  abbrev pub of_result : {A : Type 0} → Result A → Do l A
  of_result r w = (r, w)

  abbrev pub on_disk : {A : Type 0} → M Disk A → Do l A
  on_disk m w = let (r, d) = m (l.disk w) in (r, l.set_disk d w)

  -- What follows a loop, unless its fuel ran out.
  abbrev pub continue : {A : Type 0} → Option (Unit {0}) → Loop A → Loop A
  continue none rest = return none
  continue (some _) rest = rest

  -- A `SCOPE_EXIT` that closes and frees an archive object.
  unfoldable pub with_archive : {A : Type 0} → (l.World → ℕ × l.World) → (ℕ → Do l A) → Do l A
  with_archive make body = do
    archive ← lift l make
    scope_exit (act (l.close_free archive)) (body archive)

  -- A scope with a `ChangeWorkingDir`.
  unfoldable pub in_directory : {A : Type 0} → Bytes → Do l A → Do l A
  in_directory path body = do
    backup ← on_disk (change_working_dir path)
    scope_exit (on_disk (restore backup)) body

  -- The number of bytes that `archive_write_data` gives is stored in an `std::int32_t`.
  unfoldable pub add_file : ℕ → Bytes → Do l (Unit {0})
  add_file archive source_path = do
    buff ← on_disk (read_file source_path true)
    rc ← lift l (l.call archive (Call.write_data buff))
    check_libarchive l archive (narrow rc)

  unfoldable pub add_content : ℕ → Bytes → Bool → Do l (Unit {0})
  add_content archive source_path regular =
      if regular then add_file archive source_path else return tt

  unfoldable pub add_entry : ℕ → ℕ → ℕ → Do l (Unit {0})
  add_entry archive disk entry = do
    do_call l disk Call.descend
    do_call l archive (Call.write_header entry)
    source_path ← gets (l.entry_sourcepath entry)
    regular ← gets (l.is_regular_file source_path)
    add_content archive source_path regular

  -- The inner loop of `compress`; `ARCHIVE_EOF` is 1.
  unfoldable pub add_entries : ℕ → ℕ → ℕ → Loop (Unit {0})
  add_entries zero archive disk = return none
  add_entries (suc fuel) archive disk =
      let rest = add_entries fuel archive disk in
      (do
        (rc, entry) ← lift l (l.next_header disk)
        let next = (do check_libarchive l disk rc; add_entry archive disk entry; rest)
        if rc ==ℤ pos 1 then return (some tt) else next)

  unfoldable pub add_path : ℕ → ℕ → Bytes → Loop (Unit {0})
  add_path fuel archive path = with_archive l.disk_reader_new (λ disk. do
    do_call l disk Call.disk_lookup
    do_call l disk (Call.disk_open (c_str path))
    add_entries fuel archive disk)

  unfoldable pub add_paths : ℕ → ℕ → List Bytes → Loop (Unit {0})
  add_paths fuel archive [] = return (some tt)
  add_paths fuel archive (path ∷ paths) =
      let rest = add_paths fuel archive paths in
      (do done ← add_path fuel archive path; continue done rest)

  unfoldable pub set_password : ℕ → Bytes → Do l (Unit {0})
  set_password archive [] = return tt
  set_password archive (c ∷ password) = do
    do_call l archive (Call.format_option (codes "zip") (codes "encryption") (codes "aes256"))
    do_call l archive (Call.set_passphrase (c_str (c ∷ password)))

  unfoldable pub compress_paths :
      ℕ → List Bytes → Bytes → Format → Filter → Option ℤ → Bytes → Loop (Unit {0})
  compress_paths fuel paths out_name format filter level password =
      with_archive l.write_new (λ archive. do
        init_write_format_filter l archive format filter level
        set_password archive password
        do_call l archive (Call.open_write (c_str out_name))
        add_paths fuel archive paths)

  unfoldable pub compress_from :
      ℕ → Bytes → Bytes → Format → Filter → Option ℤ → Bytes → Bool → Loop (Unit {0})
  compress_from fuel path name format filter level password one =
      if one
      then compress_paths fuel (path ∷ []) name format filter level password
      else in_directory path (do
        paths ← gets l.list_directory
        compress_paths fuel paths name format filter level password)

  unfoldable pub archive_name : Bytes → Format → Filter → Bytes → Do l Bytes
  archive_name path format filter [] = of_result (compressed_file_name path format filter)
  archive_name path format filter (c ∷ out_name) = return (c ∷ out_name)

  unfoldable pub compress :
      ℕ → Bytes → Format → Filter → Bytes → Bool → Option ℤ → Bytes → Loop (Unit {0})
  compress fuel path format filter out_name flag level password = do
    throw_if (not (is_empty password) && not (is_zip format))
        (invalid_argument (codes "This format does not support encryption") [])
    name ← archive_name path format filter out_name
    full_name ← gets (λ w. join_path (l.disk w).current_path name)
    regular ← gets (l.is_regular_file path)
    compress_from fuel path full_name format filter level password (flag || regular)

  unfoldable pub compress_zip : ℕ → Bytes → Bytes → Bool → Loop (Unit {0})
  compress_zip fuel path out_name flag = compress fuel path zip deflate out_name flag none []

  unfoldable pub compress_7zip : ℕ → Bytes → Bytes → Bool → Loop (Unit {0})
  compress_7zip fuel path out_name flag = compress fuel path the7_zip deflate out_name flag none []

  unfoldable pub compress_tar_gz : ℕ → Bytes → Bytes → Bool → Loop (Unit {0})
  compress_tar_gz fuel path out_name flag = compress fuel path tar gzip out_name flag none []

  -- `archive_entry_size(entry) > 0`
  unfoldable pub is_positive : ℤ → Bool
  is_positive (pos zero) = false
  is_positive (pos (suc n)) = true
  is_positive (negsuc n) = false

  unfoldable pub copy_content : ℕ → ℕ → ℕ → ℤ → Loop (Unit {0})
  copy_content fuel archive extract size =
      if is_positive size then copy_data l fuel archive extract else return (some tt)

  unfoldable pub extract_entry : ℕ → ℕ → ℕ → ℕ → Loop (Unit {0})
  extract_entry fuel archive extract entry = do
    do_call l extract (Call.write_header entry)
    size ← gets (l.entry_size entry)
    copied ← copy_content fuel archive extract size
    continue copied (do do_call l extract Call.finish_entry; return (some tt))

  unfoldable pub extract_entries : ℕ → ℕ → ℕ → Loop (Unit {0})
  extract_entries zero archive extract = return none
  extract_entries (suc fuel) archive extract =
      let rest = extract_entries fuel archive extract in
      (do
        (rc, entry) ← lift l (l.next_header archive)
        let next = (do
          check_libarchive l archive rc
          done ← extract_entry fuel archive extract entry
          continue done rest)
        if rc ==ℤ pos 1 then return (some tt) else next)

  unfoldable pub give_passphrase : ℕ → Bytes → Do l (Unit {0})
  give_passphrase archive [] = return tt
  give_passphrase archive (c ∷ password) =
      do_call l archive (Call.add_passphrase (c_str (c ∷ password)))

  -- `ARCHIVE_EXTRACT_TIME | ARCHIVE_EXTRACT_PERM | ARCHIVE_EXTRACT_ACL | ARCHIVE_EXTRACT_FFLAGS`
  abbrev pub extract_flags : ℕ
  extract_flags = 0x66

  unfoldable pub decompress : ℕ → Bytes → Bytes → Bytes → Loop (Unit {0})
  decompress fuel file_name out_dir password = with_archive l.read_new (λ archive. do
    init_read_format_filter l archive
    give_passphrase archive password
    do_call l archive (Call.open_read (c_str file_name) 10240)
    with_archive l.disk_writer_new (λ extract. do
      do_call l extract (Call.disk_options extract_flags)
      do_call l extract Call.disk_lookup
      in_directory out_dir (extract_entries fuel archive extract)))

  abbrev pub with_top : {A : Type 0} → Option Bytes → (Bytes → Loop A) → Loop A
  with_top none f = return none
  with_top (some top) f = f top

  -- The loop over the entries, with the map so far.
  unfoldable pub collect : ℕ → ℕ → List (Bytes × Bool) → Loop (List (Bytes × Bool))
  collect zero archive m = return none
  collect (suc fuel) archive m =
      let rest = λ (m' : List (Bytes × Bool)). collect fuel archive m' in
      (do
        (rc, entry) ← lift l (l.next_header archive)
        let next = (do
          check_libarchive l archive rc
          path ← gets (l.entry_pathname entry)
          is_dir ← gets (l.entry_is_dir entry)
          with_top (get_top_level_dir fuel path)
              (λ top. rest (emplace_folder top (if bytes_eq path top then is_dir else true) m)))
        if rc ==ℤ pos 1 then return (some m) else next)

  abbrev pub found : Option (List (Bytes × Bool)) → Option (Option Bytes)
  found none = none
  found (some m) = some (only_folder m)

  unfoldable pub outermost_folder_name : ℕ → Bytes → Loop (Option Bytes)
  outermost_folder_name fuel file_name = with_archive l.read_new (λ archive. do
    init_read_format_filter l archive
    do_call l archive (Call.open_read (c_str file_name) 10240)
    m ← collect fuel archive []
    return (found m))
