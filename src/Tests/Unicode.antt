-- ===== src/Tests/Unicode.antt =====
-- src/unicode.cpp with a decoder of ASCII.
use klib.Base.{ℕ, ◌-◌, ◌≤◌, ◌≡◌, ◌↔◌, refl, [], ◌∷◌, arith, Bytes, length, drop, take}
use mathlib.Core.List.{cons-ne-nil}
use klib.Base.Int.{ℤ, pos, negsuc}
use klib.Exception.{ok}
use klib.Unicode.Classes.{is_whitespace}
use klib.Unicode.Trim.{
  Decoded, decoded, invalid, Utf8, IsUtf8, left_end, right_end, trim_left_erase_num, trim_copy,
  trim,
}
use klib.Unicode.Blank.{Blank, at_text, more, trim_left_erase_num-Blank, trim-Blank}

abbrev first : Bytes → Decoded
first [] = invalid []
first (c ∷ s) = decoded c 1

abbrev last : Bytes → Decoded
last [] = invalid []
last (c ∷ []) = decoded c 1
last (c ∷ d ∷ s) = last (d ∷ s)

abbrev cut_head : Bytes → ℤ → Bytes
cut_head s (pos n) = drop n s
cut_head s (negsuc n) = s

abbrev cut_tail : Bytes → ℤ → Bytes
cut_tail s (pos n) = take (length s - n) s
cut_tail s (negsuc n) = s

abbrev ascii : Utf8
ascii = record { next = first; prior = last; erase_head = cut_head; erase_tail = cut_tail }

first_width : (s : Bytes) (c w : ℕ) → first s ≡ decoded c w → (w ≡ 1) × (w ≤ length s)
first_width [] c w e = absurd (cc)
first_width (b ∷ s) c w e = ground arith

last_width : (s : Bytes) (c w : ℕ) → last s ≡ decoded c w → (w ≡ 1) × (w ≤ length s)
last_width [] c w e = absurd (cc)
last_width (b ∷ []) c w e = ground arith
last_width (b ∷ d ∷ s) c w e = ground (arith, last_width (d ∷ s) c w e)

ascii-IsUtf8 : IsUtf8 ascii
ascii-IsUtf8 = record {
  next_pos = λ s c w e. omega (arith, (first_width s c w e).0);
  next_fits = λ s c w e. (first_width s c w e).1;
  prior_pos = λ s c w e. omega (arith, (last_width s c w e).0);
  prior_fits = λ s c w e. (last_width s c w e).1;
  erase_head_lem = λ s n. refl;
  erase_tail_lem = λ s n. refl;
}

-- A space, a tab, `a`, a space.
abbrev padded : Bytes
padded = 0x20 ∷ 0x9 ∷ 0x61 ∷ 0x20 ∷ []

padded_front : Blank (left_end ascii) padded 2
unfolding is_whitespace
padded_front =
    more 0x20 1 (cons-ne-nil _ _) refl refl
      (more 0x9 1 (cons-ne-nil _ _) refl refl (at_text 0x61 1 (cons-ne-nil _ _) refl refl) refl)
      refl

padded_back : Blank (right_end ascii) (drop 2 padded) 1
unfolding is_whitespace
padded_back =
    more 0x20 1 (cons-ne-nil _ _) refl refl (at_text 0x61 1 (cons-ne-nil _ _) refl refl) refl

trim-Blank_example :
    (trim_copy ascii padded ≡ ok (0x61 ∷ [])) × (trim ascii padded ≡ (ok tt, 0x61 ∷ []))
trim-Blank_example = trim-Blank ascii ascii-IsUtf8 padded 2 1 (omega arith) padded_front padded_back

trim_left_erase_num-Blank_example :
    (trim_left_erase_num ascii padded ≡ ok (pos 2)) ↔ Blank (left_end ascii) padded 2
trim_left_erase_num-Blank_example =
    trim_left_erase_num-Blank ascii ascii-IsUtf8 padded 2 (omega arith)
