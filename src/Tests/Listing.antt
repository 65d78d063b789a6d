-- ===== src/Tests/Listing.antt =====
-- src/archive.cpp with an archive of a folder and a file of one block in it.
use klib.Base.{
  length, ℕ, ◌-◌, ◌≡◌, ◌↔◌, refl, inr, arith, true, false, Option, some, [], ◌∷◌, Bytes, codes, leb,
  ◌==◌, if◌then◌else◌, bytes_eq,
}
use klib.Base.Int.{pos, is_negative, ◌==ℤ◌}
use klib.Exception.{ok}
use klib.Util.Files.{File, Disk}
use klib.Archive.Libarchive.{Libarchive, Call}
use klib.Archive.Format.{do_call, init_read_format_filter}
use klib.Archive.Transfer.{Copies}
use klib.Archive.Entries.{extract_entries, outermost_folder_name, is_positive}
use klib.Archive.Entries.Listing.{Top, Inside, Lists, outermost_folder_name-Inside}
use klib.Archive.Entries.Extraction.{Content, Extracts, extract_entries-Extracts}

abbrev empty_disk : Disk
empty_disk = record {
  file_of = λ at p. length p;
  content = λ f. File.absent;
  writable = λ f. false;
  stored = λ f s. s;
  is_directory = λ at p. true;
  creatable = λ at p. false;
  enter = λ at p. some p;
  current_path = codes "/home";
}

-- 4: the folder is next; 3: the file; 2: its block; 1: the end of its data; 0: the end.
abbrev reader : Libarchive
reader = record {
  World = ℕ;
  write_new = λ w. (1, w);
  read_new = λ w. (1, w);
  disk_reader_new = λ w. (1, w);
  disk_writer_new = λ w. (2, w);
  close_free = λ a w. w;
  call = λ a what w. (pos 0, w);
  error_string = λ a w. [];
  next_header = λ a w. (if leb 3 w then (pos 0, w) else (pos 1, 0), if leb 3 w then w - 1 else w);
  read_block = λ a w. (if w == 2 then (pos 0, codes "x", pos 0) else (pos 1, [], pos 0), w - 1);
  entry_pathname = λ e w. if e == 4 then codes "a/" else codes "a/b";
  entry_sourcepath = λ e w. [];
  entry_size = λ e w. if e == 4 then pos 0 else pos 1;
  entry_is_dir = λ e w. e == 4;
  is_regular_file = λ p w. false;
  disk = λ w. empty_disk;
  set_disk = λ d w. w;
  list_directory = λ w. [];
  hardware_concurrency = 4;
  print = λ n. [];
}

abbrev a : Bytes
a = codes "a"

a-Top : Top 3 (codes "a/") a
a-Top = ((λ e. omega arith, tt), cc, inr ([], refl, omega arith))

b-Top : Top 3 (codes "a/b") a
b-Top = ((λ e. omega arith, tt), cc, inr (codes "b", refl, omega arith))

two_entries : Lists reader 1 3 4 ((a, true) ∷ (a, true) ∷ []) 2
unfolding is_negative ◌==ℤ◌ bytes_eq
two_entries =
    Lists.entry a true refl refl a-Top refl
      (Lists.entry a true refl refl b-Top refl (Lists.at_eof refl))

configured : init_read_format_filter reader 1 4 ≡ (ok tt, 4)
unfolding init_read_format_filter do_call is_negative
configured = refl

read_opened : do_call reader 1 (Call.open_read (codes "f") 10240) 4 ≡ (ok tt, 4)
unfolding do_call is_negative
read_opened = refl

outermost_folder_name-Inside_example :
    (o : Option Bytes) × (outermost_folder_name reader 6 (codes "f") 4 ≡ (ok (some o), 2))
    × ((f : Bytes) → (o ≡ some f) ↔ Inside f ((a, true) ∷ (a, true) ∷ []))
outermost_folder_name-Inside_example =
    outermost_folder_name-Inside reader (codes "f") 6 3 4 4 4 2 ((a, true) ∷ (a, true) ∷ [])
      configured read_opened two_entries (omega arith)

all_written : Extracts reader 1 2 3 4 2 0
unfolding is_negative ◌==ℤ◌ is_positive
all_written = Extracts.entry refl refl refl (Content.empty refl) refl (
    Extracts.entry refl refl refl
      (Content.blocks refl (Copies.block refl refl refl (Copies.at_eof refl)) (omega arith)) refl
      (Extracts.at_eof refl))

extract_entries-Extracts_example : extract_entries reader 6 1 2 4 ≡ (ok (some tt), 0)
extract_entries-Extracts_example = extract_entries-Extracts reader 1 2 3 6 all_written (omega arith)
