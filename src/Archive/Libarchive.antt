-- ===== src/Archive/Libarchive.antt =====
-- The functions of libarchive that src/archive.cpp calls, over an unknown state of the library and of
-- the disk. An archive object is a number.
use klib.Base.{ℕ, Bool, List, Bytes}
use klib.Base.Int.{ℤ}
use klib.Util.Files.{Disk}

-- The calls on an archive object that take no more than texts and give a status.
pub data Call : Type 0 where
  format_zip format_7zip format_pax_restricted zip_store zip_deflate : Call
  filter_none filter_gzip filter_xz : Call
  format_option : Bytes → Bytes → Bytes → Call
  filter_option : Bytes → Bytes → Bytes → Call
  set_passphrase add_passphrase : Bytes → Call
  open_write : Bytes → Call
  open_read : Bytes → ℕ → Call
  support_zip support_7zip support_tar support_gnutar : Call
  support_filter_none support_filter_gzip support_filter_xz : Call
  disk_lookup descend finish_entry : Call
  disk_open : Bytes → Call
  disk_options : ℕ → Call
  write_header : ℕ → Call
  write_data : Bytes → Call
  write_block : Bytes → ℤ → Call

-- The state holds the disk, on which the code reads files and changes directory; `list_directory` gives
-- the names in the current directory, in the order of `std::filesystem::directory_iterator`.
-- `next_header` gives a status and an entry; `read_block` a status, a block and its offset.
pub record Libarchive : Type 1 where
  pub World : Type 0
  pub write_new : World → ℕ × World
  pub read_new : World → ℕ × World
  pub disk_reader_new : World → ℕ × World
  pub disk_writer_new : World → ℕ × World
  pub close_free : ℕ → World → World
  pub call : ℕ → Call → World → ℤ × World
  pub error_string : ℕ → World → Bytes
  pub next_header : ℕ → World → (ℤ × ℕ) × World
  pub read_block : ℕ → World → (ℤ × Bytes × ℤ) × World
  pub entry_pathname : ℕ → World → Bytes
  pub entry_sourcepath : ℕ → World → Bytes
  pub entry_size : ℕ → World → ℤ
  pub entry_is_dir : ℕ → World → Bool
  pub is_regular_file : Bytes → World → Bool
  pub disk : World → Disk
  pub set_disk : Disk → World → World
  pub list_directory : World → List Bytes
  pub hardware_concurrency : ℕ
  pub print : ℤ → Bytes
