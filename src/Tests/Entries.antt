-- ===== src/Tests/Entries.antt =====
-- src/archive.cpp with a libarchive that keeps the list of its open objects, and a disk that holds one file.
use klib.Base.{
  length, ℕ, suc, ◌+◌, ◌<◌, ◌≡◌, refl, Bool, true, false, none, some, List, [], ◌∷◌, arith, codes,
  ◌==◌, if◌then◌else◌,
}
use klib.Base.Int.{pos, ◌==ℤ◌}
use klib.Exception.{ok}
use klib.Exception.Triple.{Ends}
use klib.Util.Files.{File, Disk}
use klib.Archive.Libarchive.{Libarchive}
use klib.Archive.Format.{
  zip, deflate, init_write_format_filter, do_call, zip_filter, set_format_compression_level,
}
use klib.Archive.Entries.{
  compress, archive_name, compress_from, compress_paths, with_archive, set_password, add_paths,
  add_path, add_entries, decompress, outermost_folder_name,
}
use klib.Archive.Entries.Frames.{IsLibarchive, Open}
use klib.Archive.Entries.Closed.{compress-Open}

unfoldable above : List ℕ → ℕ
above [] = 1
above (a ∷ w) = suc (a + above w)

unfoldable is_open : List ℕ → ℕ → Bool
is_open [] h = false
is_open (a ∷ w) h = let rest = is_open w h in if a == h then true else rest

unfoldable close : ℕ → List ℕ → List ℕ
close a [] = []
close a (b ∷ w) = let rest = close a w in if a == b then rest else b ∷ rest

above-is_open : (w : List ℕ) (h : ℕ) → above w < suc h → is_open w h ≡ false
unfolding above is_open
above-is_open [] h p = refl
above-is_open (a ∷ w) h p = ground (arith, above-is_open w h)

close-is_open :
    (a : ℕ) (w : List ℕ) (h : ℕ) → is_open (close a w) h ≡ (if a == h then false else is_open w h)
unfolding is_open close
close-is_open a [] h = ground arith
close-is_open a (b ∷ w) h = ground (arith, close-is_open a w h)

abbrev one_file : Disk
one_file = record {
  file_of = λ at p. length p;
  content = λ f. File.absent;
  writable = λ f. false;
  stored = λ f s. s;
  is_directory = λ at p. true;
  creatable = λ at p. false;
  enter = λ at p. some p;
  current_path = codes "/home";
}

abbrev handles : Libarchive
handles = record {
  World = List ℕ;
  write_new = λ w. (above w, above w ∷ w);
  read_new = λ w. (above w, above w ∷ w);
  disk_reader_new = λ w. (above w, above w ∷ w);
  disk_writer_new = λ w. (above w, above w ∷ w);
  close_free = close;
  call = λ a what w. (pos 0, w);
  error_string = λ a w. [];
  next_header = λ a w. ((pos 1, 0), w);
  read_block = λ a w. ((pos 1, [], pos 0), w);
  entry_pathname = λ e w. [];
  entry_sourcepath = λ e w. [];
  entry_size = λ e w. pos 0;
  entry_is_dir = λ e w. false;
  is_regular_file = λ p w. true;
  disk = λ w. one_file;
  set_disk = λ d w. w;
  list_directory = λ w. [];
  hardware_concurrency = 4;
  print = λ n. [];
}

above_fresh : (w : List ℕ) → is_open w (above w) ≡ false
above_fresh w = above-is_open w (above w) (omega arith)

is_open_new :
    (w : List ℕ) (h : ℕ) → is_open (above w ∷ w) h ≡ (if above w == h then true else is_open w h)
unfolding is_open
is_open_new w h = refl

handles-IsLibarchive : IsLibarchive handles is_open
handles-IsLibarchive = record {
  write_new_fresh = above_fresh;
  write_new_open = is_open_new;
  read_new_fresh = above_fresh;
  read_new_open = is_open_new;
  disk_reader_fresh = above_fresh;
  disk_reader_open = is_open_new;
  disk_writer_fresh = above_fresh;
  disk_writer_open = is_open_new;
  close_open = close-is_open;
  call_open = λ a c w h. refl;
  next_open = λ a w h. refl;
  block_open = λ a w h. refl;
  disk_open = λ d w h. refl;
}

compress_zip_ends :
    (compress handles 9 (codes "a") zip deflate (codes "b.zip") true none [] []).0 ≡ ok (some tt)
unfolding compress archive_name compress_from compress_paths with_archive init_write_format_filter
    do_call zip_filter set_format_compression_level set_password add_paths add_path add_entries
    ◌==ℤ◌
compress_zip_ends = refl

abbrev three : ℕ → Bool
three = is_open (3 ∷ [])

compress-Open_example :
    Ends
      (λ _. Open handles is_open three)
      (Open handles is_open three)
      (compress handles 9 (codes "a") zip deflate (codes "b.zip") true none [] (3 ∷ []))
    × Ends
        (λ _. Open handles is_open three)
        (Open handles is_open three)
        (decompress handles 9 (codes "a") (codes "out") [] (3 ∷ []))
    × Ends
        (λ _. Open handles is_open three)
        (Open handles is_open three)
        (outermost_folder_name handles 9 (codes "a") (3 ∷ []))
compress-Open_example =
    compress-Open handles-IsLibarchive three (3 ∷ []) 9 (codes "a") zip deflate (codes "b.zip") true
      none (codes "out") [] (λ h. refl)
