-- ===== src/Archive/Folder.antt =====
-- src/archive.cpp: `get_top_level_dir`, the first component of an entry's path. `parent_path` is the
-- one of `std::filesystem` on POSIX.
use klib.Base.{
  ℕ, zero, suc, ◌+◌, ◌≤◌, ◌<◌, ◌≡◌, ◌≢◌, refl, ap, ◌∙◌, ◌⊎◌, inl, inr, Option, none, some, [], ◌∷◌,
  ◌++◌, append-nil, arith, Bytes, All, length, ◌==◌, if◌then◌else◌,
}

abbrev cons_last : ℕ → Option Bytes → Option Bytes
cons_last c none = if c == b'/' then some [] else none
cons_last c (some p) = some (c ∷ p)

-- What stands before the last slash.
unfoldable pub before_last : Bytes → Option Bytes
before_last [] = none
before_last (c ∷ s) = cons_last c (before_last s)

abbrev strip_cons : ℕ → Bytes → Bytes
strip_cons c [] = if c == b'/' then [] else c ∷ []
strip_cons c (d ∷ t) = c ∷ d ∷ t

-- A text without the slashes at its end.
unfoldable pub strip : Bytes → Bytes
strip [] = []
strip (c ∷ s) = strip_cons c (strip s)

abbrev root_or : Bytes → Bytes
root_or [] = b'/' ∷ []
root_or (c ∷ s) = c ∷ s

abbrev parent_of : Option Bytes → Bytes
parent_of none = []
parent_of (some p) = root_or (strip p)

-- The parent of `/` is `/`; a path of one component has none.
unfoldable pub parent_path : Bytes → Bytes
unfolding before_last strip
parent_path s = parent_of (before_last s)

abbrev climb : Bytes → Bytes → (Bytes → Option Bytes) → Option Bytes
climb path [] up = some path
climb path (c ∷ parent) up = up (c ∷ parent)

-- `none` when the fuel runs out.
unfoldable pub get_top_level_dir : ℕ → Bytes → Option Bytes
get_top_level_dir zero path = none
get_top_level_dir (suc fuel) path =
    let up = λ (parent : Bytes). get_top_level_dir fuel parent in climb path (parent_path path) up

parent_of_root : (p : Bytes) → (t : Bytes) × (parent_of (some (b'/' ∷ p)) ≡ b'/' ∷ t)
unfolding strip
parent_of_root p = go (strip p)
  where
    go : (r : Bytes) → (t : Bytes) × (root_or (strip_cons b'/' r) ≡ b'/' ∷ t)
    go [] = ([], refl)
    go (c ∷ r) = (c ∷ r, refl)

-- The parent of an absolute path is absolute.
parent_path_root : (s : Bytes) → (t : Bytes) × (parent_path (b'/' ∷ s) ≡ b'/' ∷ t)
unfolding parent_path before_last strip
parent_path_root s = go (before_last s)
  where
    go : (o : Option Bytes) → (t : Bytes) × (parent_of (cons_last b'/' o) ≡ b'/' ∷ t)
    go none = ([], refl)
    go (some p) = parent_of_root p

-- The search for the first component of an absolute path never ends: it gives no result for any fuel.
pub get_top_level_dir_absolute : (fuel : ℕ) (s : Bytes) → get_top_level_dir fuel (b'/' ∷ s) ≡ none
unfolding get_top_level_dir
get_top_level_dir_absolute zero s = refl
get_top_level_dir_absolute (suc fuel) s =
    let (t, e) = parent_path_root s in rw e (get_top_level_dir_absolute fuel t)

abbrev pub IsName : Bytes → Type 0
IsName = All (λ c. c ≢ b'/')

before_last_name : (name : Bytes) → IsName name → before_last name ≡ none
unfolding before_last
before_last_name [] _ = refl
before_last_name (c ∷ name) (h, hs) = rw (before_last_name name hs) (ground arith)

before_last_shrinks : (s p : Bytes) → before_last s ≡ some p → length p < length s
unfolding before_last
before_last_shrinks [] p e = absurd (cc)
before_last_shrinks (c ∷ s) p e = go (before_last s) refl e (λ r. before_last_shrinks s r)
  where
    go :
        (o : Option Bytes)
        → before_last s ≡ o
        → cons_last c o ≡ some p
        → ((r : Bytes) → before_last s ≡ some r → length r < length s)
        → length p < suc (length s)
    go none q e ih = ground arith
    go (some r) q e ih =
        let same : c ∷ r ≡ p = ground arith in omega (arith, ih r q, ap length same)

-- What is left of `/ rest` before the last slash: nothing, or a shorter text of that form.
abbrev Shorter : Bytes → Bytes → Type 0
Shorter rest q = (q ≡ []) ⊎ ((p : Bytes) × (q ≡ b'/' ∷ p) × (length p < length rest))

before_last_slash :
    (name rest : Bytes)
    → (q : Bytes) × (before_last (name ++ (b'/' ∷ rest)) ≡ some (name ++ q)) × Shorter rest q
unfolding before_last
before_last_slash (c ∷ name) rest = let (q, e, h) = before_last_slash name rest in (q, rw e refl, h)
before_last_slash [] rest = go (before_last rest) refl
  where
    go :
        (o : Option Bytes)
        → before_last rest ≡ o
        → (q : Bytes) × (cons_last b'/' (before_last rest) ≡ some q) × Shorter rest q
    go none e = ([], rw e refl, inl refl)
    go (some p) e = (b'/' ∷ p, rw e refl, inr (p, refl, before_last_shrinks rest p e))

length-strip : (s : Bytes) → length (strip s) ≤ length s
unfolding strip
length-strip [] = omega arith
length-strip (c ∷ s) = go (strip s) (length-strip s)
  where
    go : (r : Bytes) → length r ≤ length s → length (strip_cons c r) ≤ suc (length s)
    go [] h = ground arith
    go (d ∷ r) h = omega arith

strip-Shorter : (rest q : Bytes) → Shorter rest q → Shorter rest (strip q)
unfolding strip
strip-Shorter rest q (inl e) = inl (rw e refl)
strip-Shorter rest q (inr (p, e, h)) = rw e (go (strip p) (length-strip p))
  where
    go : (r : Bytes) → length r ≤ length p → Shorter rest (strip_cons b'/' r)
    go [] l = inl refl
    go (d ∷ r) l = inr (d ∷ r, refl, omega arith)

strip-append : (name q : Bytes) → IsName name → strip (name ++ q) ≡ name ++ strip q
unfolding strip
strip-append [] q _ = refl
strip-append (c ∷ name) q (h, hs) = rw (strip-append name q hs) (go (name ++ strip q))
  where
    go : (r : Bytes) → strip_cons c r ≡ c ∷ r
    go [] = ground arith
    go (d ∷ r) = refl

parent_path_name :
    (c : ℕ) (name rest : Bytes)
    → IsName (c ∷ name)
    → (q : Bytes) × (parent_path ((c ∷ name) ++ (b'/' ∷ rest)) ≡ (c ∷ name) ++ q) × Shorter rest q
unfolding parent_path
parent_path_name c name rest h =
    let (q, e, shorter) = before_last_slash (c ∷ name) rest in
    (
      strip q,
      ap parent_of e ∙ ap root_or (strip-append (c ∷ name) q h),
      strip-Shorter rest q shorter,
    )

pub top_of_name :
    (c : ℕ) (name : Bytes) (fuel : ℕ)
    → IsName (c ∷ name)
    → 1 ≤ fuel
    → get_top_level_dir fuel (c ∷ name) ≡ some (c ∷ name)
unfolding get_top_level_dir parent_path
top_of_name c name zero h f = absurd (omega arith)
top_of_name c name (suc fuel) h f = rw (before_last_name (c ∷ name) h) refl

-- For a path that begins with a component and a slash, the search gives that component, whatever
-- follows, as soon as the fuel is the length of what follows and 2 more.
pub get_top_level_dir-name :
    (c : ℕ) (name rest : Bytes) (fuel : ℕ)
    → IsName (c ∷ name)
    → length rest + 2 ≤ fuel
    → get_top_level_dir fuel ((c ∷ name) ++ (b'/' ∷ rest)) ≡ some (c ∷ name)
unfolding get_top_level_dir
get_top_level_dir-name c name rest zero h f = absurd (omega arith)
get_top_level_dir-name c name rest (suc fuel) h f =
    let (q, e, shorter) = parent_path_name c name rest h in
    rw e (elim shorter [
      | inl y ↦ rw (y, append-nil) (top_of_name c name fuel h (omega arith))
      | inr (p, y, l) ↦ rw y (get_top_level_dir-name c name p fuel h (omega arith))
    ])
