-- ===== src/Archive/Entries/Closed.antt =====
-- src/archive.cpp closes every archive object it opens.
use klib.Base.{
  ℕ, zero, suc, Bool, true, Option, none, some, List, [], ◌∷◌, Bytes, if◌then◌else◌, bytes_eq,
}
use klib.Base.Int.{ℤ, pos, ◌==ℤ◌}
use klib.Exception.Triple.{Ends}
use klib.Archive.Libarchive.{Libarchive, Call}
use klib.Archive.Format.{Format, Filter}
use klib.Archive.Transfer.{copy_data}
use klib.Archive.Folder.{get_top_level_dir}
use klib.Archive.Entries.{
  extract_flags, Loop, compress, is_positive, copy_content, extract_entry, extract_entries,
  give_passphrase, decompress, with_top, collect, found, outermost_folder_name, emplace_folder,
}
use klib.Archive.Entries.Frames.{
  IsLibarchive, Open, Frames, bind, done, got, status, lifted, called, scoped, in_directory-Frames,
}
use klib.Archive.Entries.Written.{
  if_frames, continue-Frames, read_format-Frames, read_new-Makes, writer_new-Makes, compress-Frames,
}

module _ {l : Libarchive} {is_open : l.World → ℕ → Bool} (L : IsLibarchive l is_open) where
  copy_data-Frames :
      (fuel archive extract : ℕ) → Frames l is_open (copy_data l fuel archive extract)
  unfolding copy_data
  copy_data-Frames zero archive extract = done none
  copy_data-Frames (suc fuel) archive extract =
      bind (lifted (l.read_block archive) (L.block_open archive)) (λ x.
        if_frames L (x.0 ==ℤ pos 1) _ _ (done (some tt)) (
          bind (status archive x.0) (λ _.
            bind (called L extract (Call.write_block x.1 x.2))
              (λ _. copy_data-Frames fuel archive extract))))

  copy_content-Frames :
      (fuel archive extract : ℕ) (size : ℤ)
      → Frames l is_open (copy_content l fuel archive extract size)
  unfolding copy_content
  copy_content-Frames fuel archive extract size =
      if_frames L (is_positive l size) _ _ (copy_data-Frames fuel archive extract) (done (some tt))

  extract_entry-Frames :
      (fuel archive extract entry : ℕ)
      → Frames l is_open (extract_entry l fuel archive extract entry)
  unfolding extract_entry
  extract_entry-Frames fuel archive extract entry =
      bind (called L extract (Call.write_header entry)) (λ _.
        bind (got (l.entry_size entry)) (λ size.
          bind (copy_content-Frames fuel archive extract size) (λ o.
            continue-Frames L o _
              (bind (called L extract Call.finish_entry) (λ _. done (some tt))))))

  extract_entries-Frames :
      (fuel archive extract : ℕ) → Frames l is_open (extract_entries l fuel archive extract)
  unfolding extract_entries
  extract_entries-Frames zero archive extract = done none
  extract_entries-Frames (suc fuel) archive extract =
      bind (lifted (l.next_header archive) (L.next_open archive)) (λ x.
        if_frames L (x.0 ==ℤ pos 1) _ _ (done (some tt)) (
          bind (status archive x.0) (λ _. bind (extract_entry-Frames fuel archive extract x.1) (λ o.
            continue-Frames L o (extract_entries l fuel archive extract)
              (extract_entries-Frames fuel archive extract)))))

  give_passphrase-Frames :
      (archive : ℕ) (password : Bytes) → Frames l is_open (give_passphrase l archive password)
  unfolding give_passphrase
  give_passphrase-Frames archive [] = done tt
  give_passphrase-Frames archive (c ∷ password) = called L archive _

  decompress-Frames :
      (fuel : ℕ) (file_name out_dir password : Bytes)
      → Frames l is_open (decompress l fuel file_name out_dir password)
  unfolding decompress
  decompress-Frames fuel file_name out_dir password =
      scoped L l.read_new _ (read_new-Makes L) (λ archive. bind (read_format-Frames L archive) (λ _.
        bind (give_passphrase-Frames archive password) (λ _. bind (called L archive _) (λ _.
          scoped L l.disk_writer_new _ (writer_new-Makes L) (λ extract.
            bind (called L extract (Call.disk_options (extract_flags l))) (λ _.
              bind (called L extract Call.disk_lookup) (λ _.
                in_directory-Frames L out_dir _ (extract_entries-Frames fuel archive extract))))))))

  collect-Frames :
      (fuel archive : ℕ) (m : List (Bytes × Bool)) → Frames l is_open (collect l fuel archive m)
  unfolding collect
  collect-Frames zero archive m = done none
  collect-Frames (suc fuel) archive m =
      bind (lifted (l.next_header archive) (L.next_open archive)) (λ x.
        if_frames L (x.0 ==ℤ pos 1) _ _ (done (some m)) (
          bind (status archive x.0) (λ _. bind (got (l.entry_pathname x.1)) (λ path.
            bind (got (l.entry_is_dir x.1)) (λ is_dir.
              with_top-Frames (get_top_level_dir fuel path) _ (λ top.
                collect-Frames fuel archive
                  (emplace_folder top (if bytes_eq path top then is_dir else true) m)))))))
    where
      with_top-Frames :
          {A : Type 0} (o : Option Bytes) (f : Bytes → Loop l A)
          → ((top : Bytes) → Frames l is_open (f top))
          → Frames l is_open (with_top l o f)
      with_top-Frames none f p = done none
      with_top-Frames (some top) f p = p top

  outermost_folder_name-Frames :
      (fuel : ℕ) (file_name : Bytes) → Frames l is_open (outermost_folder_name l fuel file_name)
  unfolding outermost_folder_name
  outermost_folder_name-Frames fuel file_name = scoped L l.read_new _ (read_new-Makes L) (λ archive.
      bind (read_format-Frames L archive) (λ _.
        bind (called L archive _)
          (λ _. bind (collect-Frames fuel archive []) (λ m. done (found l m)))))

  -- If libarchive opens and closes no archive object but where it is told to, then with any fuel, whether it
  -- returns or throws, each of `compress`, `decompress` and `outermost_folder_name` leaves open
  -- exactly the archive objects that were open before.
  pub compress-Open :
      (S : ℕ → Bool) (w : l.World) (fuel : ℕ) (path : Bytes) (format : Format) (filter : Filter)
      (out_name : Bytes) (flag : Bool) (level : Option ℤ) (out_dir password : Bytes)
      → Open l is_open S w
      → Ends
          (λ _. Open l is_open S)
          (Open l is_open S)
          (compress l fuel path format filter out_name flag level password w)
        × Ends
            (λ _. Open l is_open S)
            (Open l is_open S)
            (decompress l fuel path out_dir password w)
        × Ends (λ _. Open l is_open S) (Open l is_open S) (outermost_folder_name l fuel path w)
  compress-Open S w fuel path format filter out_name flag level out_dir password p = (
    (compress-Frames L fuel path format filter out_name flag level password).keeps S w p,
    (decompress-Frames fuel path out_dir password).keeps S w p,
    (outermost_folder_name-Frames fuel path).keeps S w p,
  )
