-- ===== src/Archive/Entries/Extraction.antt =====
-- src/archive.cpp: the loop of `decompress` ends on an archive that can be read to its end.
use klib.Base.{ℕ, zero, suc, ◌+◌, ◌<◌, ◌≡◌, refl, arith, true, false, some}
use klib.Base.Int.{ℤ, pos, is_negative, ◌==ℤ◌}
use klib.Exception.{ok}
use klib.Archive.Libarchive.{Libarchive, Call}
use klib.Archive.Format.{do_call}
use klib.Archive.Transfer.{Copies, copy_data-Copies}
use klib.Archive.Entries.{is_positive, copy_content, extract_entry, extract_entries}

module _ (l : Libarchive) (archive extract : ℕ) where
  abbrev header_status : l.World → ℤ
  header_status w = (l.next_header archive w).0.0

  -- The state behind the header of the next entry, read and written to disk.
  abbrev pub header_written : l.World → ℤ × l.World
  header_written w =
      l.call extract (Call.write_header (l.next_header archive w).0.1) (l.next_header archive w).1

  abbrev size_of : l.World → ℤ
  size_of w = l.entry_size (l.next_header archive w).0.1 (header_written w).1

  -- The content of an entry: none, or blocks that are copied, no more than `N`.
  pub data Content (N : ℕ) (size : ℤ) : l.World → l.World → Type 0 where
    empty : {w : l.World} → is_positive l size ≡ false → Content N size w w
    blocks :
        {w w' : l.World} {n : ℕ}
        → is_positive l size ≡ true
        → Copies l archive extract w n w'
        → n < N
        → Content N size w w'

  -- A reader that gives `n` entries and then the end, where every entry is written without an error, header,
  -- content and end, in order: the state before and the state behind it all.
  pub data Extracts (N : ℕ) : l.World → ℕ → l.World → Type 0 where
    at_eof :
        {w : l.World}
        → header_status w ==ℤ pos 1 ≡ true
        → Extracts N w 0 (l.next_header archive w).1
    entry :
        {w v w' : l.World} {n : ℕ}
        → header_status w ==ℤ pos 1 ≡ false
        → is_negative (header_status w) ≡ false
        → is_negative (header_written w).0 ≡ false
        → Content N (size_of w) (header_written w).1 v
        → is_negative (l.call extract Call.finish_entry v).0 ≡ false
        → Extracts N (l.call extract Call.finish_entry v).1 n w'
        → Extracts N w (suc n) w'

  copy_content-Content :
      (N fuel : ℕ) (size : ℤ) {w v : l.World}
      → Content N size w v
      → N < fuel
      → copy_content l fuel archive extract size w ≡ (ok (some tt), v)
  unfolding copy_content
  copy_content-Content N fuel size (empty e) f = rw e refl
  copy_content-Content N fuel size (blocks e h b) f =
      rw e (copy_data-Copies l archive extract fuel h (omega arith))

  -- If a reader gives `n` entries and then the end, each entry has fewer than `N` blocks, and every header,
  -- block and end of an entry is read and written without an error, then with any fuel above `n + N` the
  -- loop of `decompress` ends, returns, and leaves the state behind the last read.
  pub extract_entries-Extracts :
      (N fuel : ℕ) {w w' : l.World} {n : ℕ}
      → Extracts N w n w'
      → n + N < fuel
      → extract_entries l fuel archive extract w ≡ (ok (some tt), w')
  unfolding extract_entries extract_entry do_call
  extract_entries-Extracts N zero h f = absurd (omega arith)
  extract_entries-Extracts N (suc fuel) (at_eof e) f = rw e refl
  extract_entries-Extracts N (suc fuel) {w} (entry go_on read_ok header_ok content end_ok h) f =
      rw
        (
          go_on,
          read_ok,
          header_ok,
          copy_content-Content N fuel (size_of w) content (omega arith),
          end_ok,
        )
        (extract_entries-Extracts N fuel h (omega arith))
