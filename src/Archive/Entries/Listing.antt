-- ===== src/Archive/Entries/Listing.antt =====
-- src/archive.cpp: what `outermost_folder_name` finds in an archive that can be read to its end.
use klib.Base.{
  ℕ, zero, suc, ◌+◌, ◌≤◌, ◌<◌, ◌≡◌, ◌≢◌, ◌↔◌, ◌⊎◌, inl, inr, refl, sym, ap, ◌∙◌, arith, Bool, true,
  false, Option, none, some, List, [], ◌∷◌, ◌++◌, Bytes, length, All, bytes_eq, bytes_eq_refl,
  bytes_eq_sound, Bool-cases, if◌then◌else◌, c_str,
}
use klib.Base.Int.{ℤ, pos, is_negative, ◌==ℤ◌}
use klib.Exception.{ok}
use klib.Archive.Libarchive.{Libarchive, Call}
use klib.Archive.Format.{do_call, init_read_format_filter}
use klib.Archive.Folder.{IsName, get_top_level_dir, get_top_level_dir-name, top_of_name}
use klib.Archive.Entries.{emplace_folder, only_folder, collect, with_archive, outermost_folder_name}

-- A path is its top component, or begins with it and a slash; `N` bounds the search for it.
abbrev pub Top : ℕ → Bytes → Bytes → Type 0
Top N path top =
    IsName top
    × (top ≢ [])
    × (((path ≡ top) × (1 ≤ N))
        ⊎ ((rest : Bytes) × (path ≡ top ++ (b'/' ∷ rest)) × (length rest + 2 ≤ N)))

get_top_level_dir-Top :
    (N fuel : ℕ) (path top : Bytes)
    → Top N path top
    → N ≤ fuel
    → get_top_level_dir fuel path ≡ some top
get_top_level_dir-Top N fuel path [] (n, ne, w) f = absurd (ne refl)
get_top_level_dir-Top N fuel path (c ∷ name) (n, ne, inl (e, b)) f =
    rw e (top_of_name c name fuel n (omega arith))
get_top_level_dir-Top N fuel path (c ∷ name) (n, ne, inr (rest, e, b)) f =
    rw e (get_top_level_dir-name c name rest fuel n (omega arith))

-- The first entry is a folder or lies in one, and each entry has that folder for its top.
abbrev pub Inside : Bytes → List (Bytes × Bool) → Type 0
Inside f [] = ⊥
Inside f ((top, is_folder) ∷ tops) =
    (top ≡ f) × (is_folder ≡ true) × All (λ (e : Bytes × Bool). e.0 ≡ f) tops

emplace_all : List (Bytes × Bool) → List (Bytes × Bool) → List (Bytes × Bool)
emplace_all [] m = m
emplace_all ((top, is_folder) ∷ tops) m = emplace_all tops (emplace_folder top is_folder m)

abbrev Two : List (Bytes × Bool) → Type 0
Two [] = ⊥
Two (x ∷ []) = ⊥
Two (x ∷ y ∷ m) = Unit {0}

emplace_folder-Two :
    (k : Bytes) (v : Bool) (m : List (Bytes × Bool)) → Two m → Two (emplace_folder k v m)
unfolding emplace_folder
emplace_folder-Two k v [] h = h
emplace_folder-Two k v (x ∷ []) h = absurd h
emplace_folder-Two k v ((i, a) ∷ (j, b) ∷ m) h = elim (Bool-cases (bytes_eq i k)) [
  | inl y ↦ rw y tt
  | inr n ↦ rw n (elim (Bool-cases (bytes_eq j k)) [ inl y ↦ rw y tt | inr n' ↦ rw n' tt ])
]

only_folder-Two : (tops m : List (Bytes × Bool)) → Two m → only_folder (emplace_all tops m) ≡ none
unfolding emplace_all only_folder
only_folder-Two [] [] h = absurd h
only_folder-Two [] (x ∷ []) h = absurd h
only_folder-Two [] (x ∷ y ∷ m) h = refl
only_folder-Two ((top, v) ∷ tops) m h =
    only_folder-Two tops (emplace_folder top v m) (emplace_folder-Two top v m h)

-- From a map of one entry: it stays alone exactly when the other entries have the same top.
only_folder-one :
    (tops : List (Bytes × Bool)) (top f : Bytes) (is_folder : Bool)
    → (only_folder (emplace_all tops ((top, is_folder) ∷ [])) ≡ some f)
      ↔ Inside f ((top, is_folder) ∷ tops)
unfolding emplace_all only_folder emplace_folder
only_folder-one [] top f true = (λ e. (cc, refl, tt), λ h. ap some h.0)
only_folder-one [] top f false = (λ e. absurd (cc), λ h. absurd (cc h.1))
only_folder-one ((k, v) ∷ tops) top f is_folder = elim (Bool-cases (bytes_eq top k)) [
  | inl y ↦
      let same = bytes_eq_sound top k y in
      let (there, back) = only_folder-one tops top f is_folder in
      rw y (
        λ e. let (a, b, c) = there e in (a, b, (sym same ∙ a, c)),
        λ (a, b, (d, c)). back (a, b, c),
      )
  | inr n ↦ rw n (
    λ e.
        let bad : none ≡ some f =
          sym (only_folder-Two tops ((top, is_folder) ∷ (k, v) ∷ []) tt) ∙ e in
        absurd (cc),
    λ (a, b, (d, c)).
        let bad : true ≡ false = sym (bytes_eq_refl top) ∙ ap (bytes_eq top) (a ∙ sym d) ∙ n in
        absurd (cc),
  )
]

only_folder-Inside :
    (tops : List (Bytes × Bool)) (f : Bytes)
    → (only_folder (emplace_all tops []) ≡ some f) ↔ Inside f tops
unfolding emplace_all only_folder emplace_folder
only_folder-Inside [] f = (λ e. absurd (cc), λ h. absurd h)
only_folder-Inside ((top, is_folder) ∷ tops) f = only_folder-one tops top f is_folder

module _ (l : Libarchive) (archive : ℕ) where
  abbrev header_status : l.World → ℤ
  header_status w = (l.next_header archive w).0.0

  abbrev pub after_header : l.World → l.World
  after_header w = (l.next_header archive w).1

  abbrev header_entry : l.World → ℕ
  header_entry w = (l.next_header archive w).0.1

  -- The archive can be read to its end from a state: the tops of its entries, each with whether the entry is
  -- that folder itself or lies in it, and the state behind the last read.
  pub data Lists (N : ℕ) : l.World → List (Bytes × Bool) → l.World → Type 0 where
    at_eof : {w : l.World} → header_status w ==ℤ pos 1 ≡ true → Lists N w [] (after_header w)
    entry :
        {w w' : l.World} {tops : List (Bytes × Bool)} (top : Bytes) (is_folder : Bool)
        → header_status w ==ℤ pos 1 ≡ false
        → is_negative (header_status w) ≡ false
        → Top N (l.entry_pathname (header_entry w) (after_header w)) top
        → is_folder ≡ (
            if bytes_eq (l.entry_pathname (header_entry w) (after_header w)) top
            then l.entry_is_dir (header_entry w) (after_header w)
            else true)
        → Lists N (after_header w) tops w'
        → Lists N w ((top, is_folder) ∷ tops) w'

  collect-Lists :
      (N fuel : ℕ) (m : List (Bytes × Bool)) {w w' : l.World} {tops : List (Bytes × Bool)}
      → Lists N w tops w'
      → length tops + N < fuel
      → collect l fuel archive m w ≡ (ok (some (emplace_all tops m)), w')
  unfolding collect emplace_all
  collect-Lists N zero m h f = absurd (omega arith)
  collect-Lists N (suc fuel) m (at_eof e) f = rw e refl
  collect-Lists N (suc fuel) m {w} (entry {tops = tops} top is_folder go_on read_ok at_top flag h)
        f =
      let path = l.entry_pathname (header_entry w) (after_header w) in
      rw (go_on, read_ok, get_top_level_dir-Top N fuel path top at_top (omega arith), ← flag)
        (collect-Lists N fuel (emplace_folder top is_folder m) h (omega arith))

-- If the archive is opened and can be read to its end, the top of each entry being a component that is the
-- entry's path or stands before a slash in it, then with more fuel than entries and than the search
-- for a top needs, `outermost_folder_name` returns and closes the archive, and it gives a name
-- exactly when every entry has that name for its top and the first entry is that folder or lies in it.
pub outermost_folder_name-Inside :
    (l : Libarchive) (file_name : Bytes) (fuel N : ℕ) (w w1 w2 w' : l.World)
    (tops : List (Bytes × Bool))
    → init_read_format_filter l (l.read_new w).0 (l.read_new w).1 ≡ (ok tt, w1)
    → do_call l (l.read_new w).0 (Call.open_read (c_str file_name) 10240) w1 ≡ (ok tt, w2)
    → Lists l (l.read_new w).0 N w2 tops w'
    → length tops + N < fuel
    → (o : Option Bytes) × (outermost_folder_name l fuel file_name w
        ≡ (ok (some o), l.close_free (l.read_new w).0 w'))
      × ((f : Bytes) → (o ≡ some f) ↔ Inside f tops)
unfolding outermost_folder_name with_archive
outermost_folder_name-Inside l file_name fuel N w w1 w2 w' tops configured opened listed enough = (
  only_folder (emplace_all tops []),
  rw (configured, opened, collect-Lists l (l.read_new w).0 N fuel [] listed enough) refl,
  only_folder-Inside tops,
)
