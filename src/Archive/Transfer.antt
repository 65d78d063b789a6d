-- ===== src/Archive/Transfer.antt =====
-- src/archive.cpp: `copy_data`, the loop that copies the data of an entry.
use klib.Base.{ℕ, zero, suc, ◌<◌, arith, ◌≡◌, refl, true, false, Option, none, some, if◌then◌else◌}
use klib.Base.Int.{ℤ, pos, is_negative, ◌==ℤ◌}
use klib.Exception.{ok, ◌>>=◌, ◌>>◌, return}
use klib.Archive.Libarchive.{Libarchive, Call}
use klib.Archive.Format.{Do, lift, check_libarchive, do_call}

module _ (l : Libarchive) where
  -- A round either ends the loop (`ARCHIVE_EOF` is 1), writes the block and goes on, or throws. `none`
  -- when the fuel runs out.
  unfoldable pub copy_data : ℕ → ℕ → ℕ → Do l (Option (Unit {0}))
  unfolding do_call ◌==ℤ◌
  copy_data zero archive_read archive_write = return none
  copy_data (suc fuel) archive_read archive_write =
      let rest = copy_data fuel archive_read archive_write in
      (do
        (rc, buff, offset) ← lift l (l.read_block archive_read)
        let next = (do
          check_libarchive l archive_read rc
          do_call l archive_write (Call.write_block buff offset)
          rest)
        if rc ==ℤ pos 1 then return (some tt) else next)

  abbrev pub read_status : ℕ → l.World → ℤ
  read_status archive_read w = (l.read_block archive_read w).0.0

  -- Reading a block and writing it.
  abbrev pub write_read : ℕ → ℕ → l.World → ℤ × l.World
  write_read archive_read archive_write w =
      let ((rc, buff, offset), w') = l.read_block archive_read w in
      l.call archive_write (Call.write_block buff offset) w'

  -- A reader that gives `n` blocks and then the end of the data, where every block is written without an
  -- error, in order: the state before and the state behind it all.
  pub data Copies (archive_read archive_write : ℕ) : l.World → ℕ → l.World → Type 0 where
    at_eof :
        {w : l.World}
        → read_status archive_read w ==ℤ pos 1 ≡ true
        → Copies archive_read archive_write w 0 (l.read_block archive_read w).1
    block :
        {w w' : l.World} {n : ℕ}
        → read_status archive_read w ==ℤ pos 1 ≡ false
        → is_negative (read_status archive_read w) ≡ false
        → is_negative (write_read archive_read archive_write w).0 ≡ false
        → Copies archive_read archive_write (write_read archive_read archive_write w).1 n w'
        → Copies archive_read archive_write w (suc n) w'

  -- If a reader gives `n` blocks and then the end, and every block is written without an error, the loop
  -- ends with any fuel above `n`, returns, and leaves the state behind the last read.
  pub copy_data-Copies :
      (archive_read archive_write fuel : ℕ) {w w' : l.World} {n : ℕ}
      → Copies archive_read archive_write w n w'
      → n < fuel
      → copy_data fuel archive_read archive_write w ≡ (ok (some tt), w')
  unfolding copy_data do_call
  copy_data-Copies r a zero h lt = absurd (omega arith)
  copy_data-Copies r a (suc fuel) (at_eof e) lt = rw e refl
  copy_data-Copies r a (suc fuel) (block go_on read_ok write_ok h) lt =
      rw (go_on, read_ok, write_ok) (copy_data-Copies r a fuel h (omega arith))
