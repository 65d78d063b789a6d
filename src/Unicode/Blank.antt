-- ===== src/Unicode/Blank.antt =====
-- What the trim functions of src/unicode.cpp remove, against the whitespace that a text begins and
-- ends with as an inductive relation.
use klib.Base.{
  ℕ, zero, suc, ◌+◌, ◌-◌, ◌^◌, ◌≤◌, ◌<◌, ◌≡◌, ◌≢◌, ◌↔◌, refl, ap, ◌⊎◌, inl, inr, true, false, [],
  ◌∷◌, arith, Bytes, length, drop, length-drop, length-take, Bool-cases,
}
use mathlib.Core.List.{cons-ne-nil}
use klib.Base.Int.{pos, int32-eq-pos}
use klib.Exception.{Result, ok, throw, terminated}
use klib.Unicode.Classes.{is_whitespace}
use klib.Unicode.Trim.{
  Decoded, decoded, invalid, Utf8, IsUtf8, End, left_end, right_end, drop_back, skip,
  trim_left_erase_num, trim_right_erase_num, trim_left_copy, trim_right_copy, trim_copy, trim,
  to_int32,
}

-- `Blank e s n`: the first `n` bytes at that end are whitespace code points, and then the text ends
-- or a code point that is not whitespace follows.
pub data Blank (e : End) : Bytes → ℕ → Type 0 where
  at_end : {s : Bytes} → s ≡ [] → Blank e s 0
  at_text :
      {s : Bytes} (c w : ℕ)
      → s ≢ []
      → e.decode s ≡ decoded c w
      → is_whitespace c ≡ false
      → Blank e s 0
  more :
      {s : Bytes} (c w : ℕ) {n m : ℕ}
      → s ≢ []
      → e.decode s ≡ decoded c w
      → is_whitespace c ≡ true
      → Blank e (e.without w s) n
      → m ≡ w + n
      → Blank e s m

-- Each code point shortens the text by its bytes.
pub record Shrinks (e : End) : Type 0 where
  pub pos : (s : Bytes) (c w : ℕ) → e.decode s ≡ decoded c w → 0 < w
  pub fits : (s : Bytes) (c w : ℕ) → e.decode s ≡ decoded c w → w ≤ length s
  pub length-without : (w : ℕ) (s : Bytes) → length (e.without w s) ≡ length s - w

Decoded-cases :
    (d : Decoded) → ((c : ℕ) × (w : ℕ) × (d ≡ decoded c w)) ⊎ ((what : Bytes) × (d ≡ invalid what))
Decoded-cases (decoded c w) = inl (c, w, refl)
Decoded-cases (invalid what) = inr (what, refl)

module _ (e : End) (S : Shrinks e) where
  Blank-le : {s : Bytes} {n : ℕ} → Blank e s n → n ≤ length s
  Blank-le (at_end p) = omega arith
  Blank-le (at_text c w ne d p) = omega arith
  Blank-le (more {s = s} c w ne d p b q) =
      omega (arith, Blank-le b, S.length-without w s, S.fits s c w d)

  -- What the loop returns is the blank part, for every fuel that is enough.
  skip_complete :
      {s : Bytes} {k : ℕ}
      → Blank e s k
      → (fuel n : ℕ) → length s ≤ fuel
      → skip e fuel s n ≡ ok (n + k)
  unfolding skip
  skip_complete {s = []} (at_end p) fuel n h = ground arith
  skip_complete {s = b ∷ s} (at_end p) fuel n h = cc
  skip_complete {s = []} (at_text c w ne d p) fuel n h = absurd (ne refl)
  skip_complete {s = b ∷ s} (at_text c w ne d p) zero n h = absurd (omega arith)
  skip_complete {s = b ∷ s} (at_text c w ne d p) (suc fuel) n h = ground arith
  skip_complete {s = []} (more c w ne d p r q) fuel n h = absurd (ne refl)
  skip_complete {s = b ∷ s} (more c w ne d p r q) zero n h = absurd (omega arith)
  skip_complete {s = b ∷ s} (more c w {n = k} ne d p r q) (suc fuel) n h =
      let i =
        skip_complete r fuel (n + w)
          (omega (arith, S.length-without w (b ∷ s), S.pos (b ∷ s) c w d)) in
      ground arith

  skip_text :
      (fuel : ℕ) (b : ℕ) (rest : Bytes) (n m c w : ℕ)
      → e.decode (b ∷ rest) ≡ decoded c w
      → skip e (suc fuel) (b ∷ rest) n ≡ ok m
      → ((is_whitespace c ≡ true) × (skip e fuel (e.without w (b ∷ rest)) (n + w) ≡ ok m))
        ⊎ ((is_whitespace c ≡ false) × (m ≡ n))
  unfolding skip
  skip_text fuel b rest n m c w d h = elim (Bool-cases (is_whitespace c)) [
    | inl p ↦ inl (p, ground arith)
    | inr p ↦ inr (p, ground arith)
  ]

  skip_sound :
      (fuel : ℕ) (s : Bytes) (n m : ℕ)
      → length s ≤ fuel
      → skip e fuel s n ≡ ok m
      → (k : ℕ) × Blank e s k × (m ≡ n + k)
  unfolding skip
  skip_sound fuel [] n m fits h = (0, at_end refl, ground arith)
  skip_sound zero (b ∷ rest) n m fits h = absurd (omega arith)
  skip_sound (suc fuel) (b ∷ rest) n m fits h = elim (Decoded-cases (e.decode (b ∷ rest))) [
    | inr (what, d) ↦ absurd (ground arith)
    | inl (c, w, d) ↦ elim (skip_text fuel b rest n m c w d h) [
      | inr (p, same) ↦ (0, at_text c w (cons-ne-nil b rest) d p, omega arith)
      | inl (p, g) ↦
          let (k, r, q) =
            skip_sound fuel (e.without w (b ∷ rest)) (n + w) m
              (omega (arith, S.length-without w (b ∷ rest), S.pos (b ∷ rest) c w d)) g in
          (w + k, more c w (cons-ne-nil b rest) d p r refl, omega arith)
    ]
  ]

  int32-skip :
      (s : Bytes) (n : ℕ)
      → length s < 2 ^ 31
      → Blank e s n
      → to_int32 (skip e (length s) s 0) ≡ ok (pos n)
  int32-skip s n small b =
      rw
        (
          skip_complete b (length s) 0 (omega arith),
          int32-eq-pos (0 + n) (omega (arith, Blank-le b)),
        )
        (ground arith)

  Blank-of_int32 :
      (s : Bytes) (n : ℕ)
      → length s < 2 ^ 31
      → to_int32 (skip e (length s) s 0) ≡ ok (pos n)
      → Blank e s n
  Blank-of_int32 s n small h = go (skip e (length s) s 0) refl h
    where
      go : (r : Result ℕ) → skip e (length s) s 0 ≡ r → to_int32 r ≡ ok (pos n) → Blank e s n
      go (throw x) q g = absurd (cc)
      go terminated q g = absurd (cc)
      go (ok m) q g =
          let (k, b, eq) = skip_sound (length s) s 0 m (omega arith) q in
          let g' = rw (int32-eq-pos m (omega (arith, Blank-le b))) at g in
          let same : k ≡ n = ground arith in rw same at b

  skip-Blank :
      (s : Bytes) (n : ℕ)
      → length s < 2 ^ 31
      → (to_int32 (skip e (length s) s 0) ≡ ok (pos n)) ↔ Blank e s n
  skip-Blank s n small = (Blank-of_int32 s n small, int32-skip s n small)

trim_of_copies :
    (u : Utf8) (s t v : Bytes)
    → trim_left_copy u s ≡ ok t
    → trim_right_copy u t ≡ ok v
    → (trim_copy u s ≡ ok v) × (trim u s ≡ (ok tt, v))
unfolding trim_copy trim
trim_of_copies u s t v p q = (rw p q, rw (p, q))

module _ (u : Utf8) (L : IsUtf8 u) where
  left_end-Shrinks : Shrinks (left_end u)
  left_end-Shrinks = record { pos = L.next_pos; fits = L.next_fits; length-without = length-drop }

  length-drop_back : (w : ℕ) (s : Bytes) → length (drop_back w s) ≡ length s - w
  length-drop_back w s = omega (arith, length-take (length s - w) s)

  right_end-Shrinks : Shrinks (right_end u)
  right_end-Shrinks = record {
    pos = L.prior_pos;
    fits = L.prior_fits;
    length-without = length-drop_back;
  }

  -- With a decoder that does what `IsUtf8` says, and for a text below 2 GiB:
  -- `trim_left_erase_num` returns `n` exactly if the text begins with `n` bytes of whitespace
  -- code points, followed by its end or by a code point that is no whitespace.
  pub trim_left_erase_num-Blank :
      (s : Bytes) (n : ℕ)
      → length s < 2 ^ 31
      → (trim_left_erase_num u s ≡ ok (pos n)) ↔ Blank (left_end u) s n
  unfolding trim_left_erase_num
  trim_left_erase_num-Blank = skip-Blank (left_end u) left_end-Shrinks

  -- With a decoder that does what `IsUtf8` says, and for a text below 2 GiB:
  -- `trim_right_erase_num` returns `n` exactly if the text ends with `n` bytes of whitespace code
  -- points, behind its start or a code point that is no whitespace.
  pub trim_right_erase_num-Blank :
      (s : Bytes) (n : ℕ)
      → length s < 2 ^ 31
      → (trim_right_erase_num u s ≡ ok (pos n)) ↔ Blank (right_end u) s n
  unfolding trim_right_erase_num
  trim_right_erase_num-Blank = skip-Blank (right_end u) right_end-Shrinks

  trim_left_copy-ok :
      (s : Bytes) (n : ℕ)
      → length s < 2 ^ 31
      → Blank (left_end u) s n
      → trim_left_copy u s ≡ ok (drop n s)
  unfolding trim_left_copy
  trim_left_copy-ok s n small b =
      rw ((trim_left_erase_num-Blank s n small).1 b) (ap ok (L.erase_head_lem s n))

  trim_right_copy-ok :
      (s : Bytes) (n : ℕ)
      → length s < 2 ^ 31
      → Blank (right_end u) s n
      → trim_right_copy u s ≡ ok (drop_back n s)
  unfolding trim_right_copy
  trim_right_copy-ok s n small b =
      rw ((trim_right_erase_num-Blank s n small).1 b) (ap ok (L.erase_tail_lem s n))

  -- With a decoder that does what `IsUtf8` says: if a text below 2 GiB begins with `n` bytes of
  -- whitespace and what follows them ends with `m`, then `trim_copy` returns what lies between,
  -- and `trim` leaves just that in its argument.
  pub trim-Blank :
      (s : Bytes) (n m : ℕ)
      → length s < 2 ^ 31
      → Blank (left_end u) s n
      → Blank (right_end u) (drop n s) m
      → (trim_copy u s ≡ ok (drop_back m (drop n s))) × (trim u s ≡ (ok tt, drop_back m (drop n s)))
  trim-Blank s n m small b c =
      trim_of_copies u s (drop n s) (drop_back m (drop n s)) (trim_left_copy-ok s n small b)
        (trim_right_copy-ok (drop n s) m (omega (arith, length-drop n s)) c)
