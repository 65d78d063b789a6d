-- ===== src/Tests/Archive.antt =====
-- src/archive.cpp with a Zstandard that stores, and a libarchive that accepts every call.
use klib.Base.{
  ℕ, true, ◌^◌, ◌≡◌, refl, false, none, some, List, [], ◌∷◌, arith, Bytes, length, leb, codes,
}
use klib.Base.Int.{pos, is_negative}
use klib.Exception.{ok}
use klib.Util.Files.{File, Disk}
use klib.Archive.Zstd.{Zstd, IsZstd, compress_data, decompress_data, decompress_data-compress_data}
use klib.Archive.Libarchive.{Libarchive, Call}
use klib.Archive.Format.{
  zip, gzip, init_write_format_filter, set_up_result, init_write_format_filter-result,
}
use klib.Archive.Folder.{get_top_level_dir, get_top_level_dir_absolute}

abbrev pub stored : Zstd
stored = record {
  compress_bound = λ n. n;
  compress = λ cap s level. (s, length s);
  decompress = λ cap s. (s, length s);
  get_frame_content_size = length;
  is_error = λ n. leb (2 ^ 63) n;
  get_error_name = λ n. [];
}

pub stored-IsZstd : IsZstd stored
stored-IsZstd = record {
  compress_length = λ s level small. refl;
  compress_ok = λ s level small. ground arith;
  frame_size = λ s level small. refl;
  decompress_lem = λ s level small. refl;
  length_ok = λ s small. ground arith;
}

decompress_data-compress_data_example :
    (d : Bytes) × (compress_data stored (1 ∷ 0 ∷ []) none ≡ ok d)
    × (decompress_data stored d ≡ ok (1 ∷ 0 ∷ []))
decompress_data-compress_data_example =
    decompress_data-compress_data stored stored-IsZstd (1 ∷ 0 ∷ []) none (omega arith) (omega arith)

abbrev no_disk : Disk
no_disk = record {
  file_of = λ at p. length p;
  content = λ f. File.absent;
  writable = λ f. false;
  stored = λ f s. s;
  is_directory = λ at p. true;
  creatable = λ at p. false;
  enter = λ at p. some p;
  current_path = codes "/home";
}

-- The state is the list of the calls, the last one first.
abbrev recorder : Libarchive
recorder = record {
  World = List Call;
  write_new = λ w. (1, w);
  read_new = λ w. (1, w);
  disk_reader_new = λ w. (1, w);
  disk_writer_new = λ w. (1, w);
  close_free = λ a w. w;
  call = λ a what w. (pos 0, what ∷ w);
  error_string = λ a w. [];
  next_header = λ a w. ((pos 1, 0), w);
  read_block = λ a w. ((pos 1, [], pos 0), w);
  entry_pathname = λ e w. [];
  entry_sourcepath = λ e w. [];
  entry_size = λ e w. pos 0;
  entry_is_dir = λ e w. false;
  is_regular_file = λ p w. false;
  disk = λ w. no_disk;
  set_disk = λ d w. w;
  list_directory = λ w. [];
  hardware_concurrency = 4;
  print = λ n. [];
}

accepts :
    (archive : ℕ) (what : Call) (w : List Call)
    → is_negative (recorder.call archive what w).0 ≡ false
unfolding is_negative
accepts archive what w = refl

init_write_format_filter-result_example :
    (init_write_format_filter recorder 1 zip gzip none []).0 ≡ set_up_result recorder zip gzip
init_write_format_filter-result_example =
    init_write_format_filter-result recorder accepts 1 zip gzip none []

get_top_level_dir_absolute_example : get_top_level_dir 100 (codes "/etc") ≡ none
get_top_level_dir_absolute_example = get_top_level_dir_absolute 100 (codes "etc")
