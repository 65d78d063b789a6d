-- ===== src/Archive/Entries/Frames.antt =====
-- Which archive objects of src/archive.cpp are open.
use klib.Base.{ℕ, ◌≡◌, ◌∙◌, Bool, true, false, [], arith, Bytes, ◌==◌, if◌then◌else◌}
use klib.Base.Int.{ℤ, is_negative}
use klib.Exception.{
  Error, runtime_error, Result, ok, throw, terminated, M, ◌>>=◌, return, raise, throw_if,
  scope_exit,
}
use klib.Exception.Triple.{Ends, Keeps, Triple-scope_exit, Triple-throw_if, Keeps-bind}
use klib.Util.Files.{Disk, change_working_dir, restore}
use klib.Archive.Libarchive.{Libarchive, Call}
use klib.Archive.Format.{Do, lift, check_libarchive, do_call}
use klib.Archive.Entries.{gets, act, of_result, on_disk, with_archive, in_directory}

-- What libarchive promises of the objects that are open: one of the four functions opens a new one, freeing
-- closes it, and nothing else opens or closes one.
pub record IsLibarchive (l : Libarchive) (is_open : l.World → ℕ → Bool) : Type 0 where
  pub write_new_fresh : (w : l.World) → is_open w (l.write_new w).0 ≡ false
  pub write_new_open :
      (w : l.World) (h : ℕ)
      → is_open (l.write_new w).1 h ≡ (if (l.write_new w).0 == h then true else is_open w h)
  pub read_new_fresh : (w : l.World) → is_open w (l.read_new w).0 ≡ false
  pub read_new_open :
      (w : l.World) (h : ℕ)
      → is_open (l.read_new w).1 h ≡ (if (l.read_new w).0 == h then true else is_open w h)
  pub disk_reader_fresh : (w : l.World) → is_open w (l.disk_reader_new w).0 ≡ false
  pub disk_reader_open :
      (w : l.World) (h : ℕ)
      → is_open (l.disk_reader_new w).1 h
        ≡ (if (l.disk_reader_new w).0 == h then true else is_open w h)
  pub disk_writer_fresh : (w : l.World) → is_open w (l.disk_writer_new w).0 ≡ false
  pub disk_writer_open :
      (w : l.World) (h : ℕ)
      → is_open (l.disk_writer_new w).1 h
        ≡ (if (l.disk_writer_new w).0 == h then true else is_open w h)
  pub close_open :
      (a : ℕ) (w : l.World) (h : ℕ)
      → is_open (l.close_free a w) h ≡ (if a == h then false else is_open w h)
  pub call_open :
      (a : ℕ) (c : Call) (w : l.World) (h : ℕ) → is_open (l.call a c w).1 h ≡ is_open w h
  pub next_open : (a : ℕ) (w : l.World) (h : ℕ) → is_open (l.next_header a w).1 h ≡ is_open w h
  pub block_open : (a : ℕ) (w : l.World) (h : ℕ) → is_open (l.read_block a w).1 h ≡ is_open w h
  pub disk_open : (d : Disk) (w : l.World) (h : ℕ) → is_open (l.set_disk d w) h ≡ is_open w h

-- The objects of `S` are open, and no other.
abbrev pub Open : (l : Libarchive) → (l.World → ℕ → Bool) → (ℕ → Bool) → l.World → Type 0
Open l is_open S w = (h : ℕ) → is_open w h ≡ S h

-- Code that leaves the same objects open that it found, on a return and on an exception.
pub record Frames (l : Libarchive) (is_open : l.World → ℕ → Bool) {A : Type 0} (m : Do l A)
    : Type 0 where
  pub keeps : (S : ℕ → Bool) → Keeps (Open l is_open S) m

module _ {l : Libarchive} {is_open : l.World → ℕ → Bool} where
  pub bind :
      {A B : Type 0} {m : Do l A} {f : A → Do l B}
      → Frames l is_open m
      → ((a : A) → Frames l is_open (f a))
      → Frames l is_open (m >>= f)
  bind {m = m} {f = f} p q = record {
    keeps = λ S. Keeps-bind (Open l is_open S) m f (p.keeps S) (λ a. (q a).keeps S);
  }

  pub done : {A : Type 0} (a : A) → Frames l is_open (return {W = l.World} a)
  done a = record { keeps = λ S w p. p }

  pub raised : {A : Type 0} (e : Error) → Frames l is_open (raise {W = l.World} {A = A} e)
  raised e = record { keeps = λ S w p. p }

  pub checked : (bad : Bool) (e : Error) → Frames l is_open (throw_if {W = l.World} bad e)
  checked bad e = record { keeps = λ S. Triple-throw_if (Open l is_open S) bad e }

  pub got : {A : Type 0} (f : l.World → A) → Frames l is_open (gets l f)
  got f = record { keeps = λ S w p. p }

  pub given : {A : Type 0} (r : Result A) → Frames l is_open (of_result l r)
  given (ok a) = record { keeps = λ S w p. p }
  given (throw e) = record { keeps = λ S w p. p }
  given terminated = record { keeps = λ S w p. tt }

  pub status : (a : ℕ) (rc : ℤ) → Frames l is_open (check_libarchive l a rc)
  status a rc = record {
    keeps = λ S w.
        Triple-throw_if (Open l is_open S) (is_negative rc) (runtime_error (l.error_string a w) [])
          w;
  }

  pub lifted :
      {A : Type 0} (f : l.World → A × l.World)
      → ((w : l.World) (h : ℕ) → is_open (f w).1 h ≡ is_open w h)
      → Frames l is_open (lift l f)
  lifted f same = record { keeps = λ S w p h. same w h ∙ p h }

module _ {l : Libarchive} {is_open : l.World → ℕ → Bool} (L : IsLibarchive l is_open) where
  pub called : (a : ℕ) (c : Call) → Frames l is_open (do_call l a c)
  unfolding do_call
  called a c = bind (lifted (l.call a c) (L.call_open a c)) (λ rc. status a rc)

  pub disked : {A : Type 0} (m : M Disk A) → Frames l is_open (on_disk l m)
  disked {A = A} m = record { keeps = λ S w p. go S w p (m (l.disk w)) }
    where
      go :
          (S : ℕ → Bool) (w : l.World)
          → Open l is_open S w
          → (r : Result A × Disk)
          → Ends (λ _. Open l is_open S) (Open l is_open S) (r.0, l.set_disk r.1 w)
      go S w p (ok a, d) = λ h. L.disk_open d w h ∙ p h
      go S w p (throw e, d) = λ h. L.disk_open d w h ∙ p h
      go S w p (terminated, d) = tt

  pub guarded :
      {A : Type 0} (action : Do l (Unit {0})) (m : Do l A)
      → Frames l is_open action
      → Frames l is_open m
      → Frames l is_open (scope_exit action m)
  guarded action m q p = record {
    keeps = λ S.
        Triple-scope_exit (Open l is_open S) (Open l is_open S) (Open l is_open S) action m
          (p.keeps S) (q.keeps S);
  }

  -- What one of the four functions that make an object does.
  abbrev pub Makes : (l.World → ℕ × l.World) → Type 0
  Makes make =
      (w : l.World)
      → (is_open w (make w).0 ≡ false)
        × ((h : ℕ) → is_open (make w).1 h ≡ (if (make w).0 == h then true else is_open w h))

  pub scoped :
      {A : Type 0} (make : l.World → ℕ × l.World) (body : ℕ → Do l A)
      → Makes make
      → ((a : ℕ) → Frames l is_open (body a))
      → Frames l is_open (with_archive l make body)
  unfolding with_archive
  scoped make body makes p = record {
    keeps = λ S w q.
        let a = (make w).0 in
        let T = λ (h : ℕ). if a == h then true else S h in
        let (fresh, opened) = makes w in
        Triple-scope_exit (Open l is_open T) (Open l is_open T) (Open l is_open S)
          (act l (l.close_free a)) (body a) ((p a).keeps T)
          (λ w' r h. ground (arith, L.close_open a w' h, r h, q h, q a)) (make w).1
          (λ h. ground (arith, opened h, q h));
  }

  pub in_directory-Frames :
      {A : Type 0} (path : Bytes) (body : Do l A)
      → Frames l is_open body
      → Frames l is_open (in_directory l path body)
  unfolding in_directory
  in_directory-Frames path body p =
      bind {A = Bytes} (disked (change_working_dir path))
        (λ backup. guarded (on_disk l (restore backup)) body (disked (restore backup)) p)
