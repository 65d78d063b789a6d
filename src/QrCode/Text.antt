-- ===== src/QrCode/Text.antt =====
-- src/qr_code.cpp: `qr_code_to_utf8`, which prints two rows of modules in a line of text.
pub mod Lines
use klib.Base.{
  ℕ, zero, suc, ◌+◌, ◌-◌, ◌*◌, ◌/◌, Bool, ◌&&◌, Option, none, some, [], ◌∷◌, ◌++◌, Bytes, ltb, ◌^◌,
  if◌then◌else◌,
}
use klib.Exception.{runtime_error, Result, ok, throw, terminated}
use klib.QrCode.Symbol.{Symbol, is_dark, for_each}

-- The four texts: a space, and U+2584, U+2580, U+2588 in UTF-8.
abbrev pub empty : Bytes
empty = 0x20 ∷ []

abbrev pub low_half : Bytes
low_half = 0xe2 ∷ 0x96 ∷ 0x84 ∷ []

abbrev pub up_half : Bytes
up_half = 0xe2 ∷ 0x96 ∷ 0x80 ∷ []

abbrev pub full : Bytes
full = 0xe2 ∷ 0x96 ∷ 0x88 ∷ []

abbrev pub newline : Bytes
newline = 0xa ∷ []

-- `for (…) result.append(str)`, `n` times
unfoldable pub append_times : ℕ → Bytes → Bytes → Bytes
append_times n str = for_each n 0 (λ x result. result ++ str)

unfoldable pub print_margin : ℕ → ℕ → Bytes → Bytes
print_margin real_width margin =
    for_each (margin / 2) 0 (λ y result. append_times real_width full result ++ newline)

module _ (q : Symbol) (margin : ℕ) where
  -- `y < qr->width - 1 && row2[x] & 1`
  abbrev pub below_is_dark : ℕ → ℕ → Bool
  below_is_dark x y = ltb (suc y) q.width && is_dark q x (suc y)

  unfoldable pub print_cell : ℕ → ℕ → Bytes → Bytes
  print_cell y x result =
      if is_dark q x y
      then (if below_is_dark x y then result ++ empty else result ++ low_half)
      else if below_is_dark x y
      then result ++ up_half
      else result ++ full

  unfoldable pub print_row : ℕ → Bytes → Bytes
  print_row y result =
      let left = append_times margin full result in
      let row = for_each q.width 0 (print_cell y) left in append_times margin full row ++ newline

  -- `for (y = 0; y < qr->width; y += 2)`: no round is left when `y` is the width, so that a fuel of the
  -- width is enough.
  unfoldable pub print_rows : ℕ → ℕ → Bytes → Bytes
  print_rows zero y result = result
  print_rows (suc fuel) y result =
      let rest = print_rows fuel (suc (suc y)) (print_row y result) in
      if ltb y q.width then rest else result

  unfoldable pub print_symbol : Bytes
  print_symbol =
      let real_width = q.width + margin * 2 in
      print_margin real_width margin (print_rows q.width 0 (print_margin real_width margin []))

-- The width with the margins is an `std::int32_t`, whose overflow is undefined.
abbrev pub printed : Bytes → Option Symbol → ℕ → Result Bytes
printed error none margin = throw (runtime_error error [])
printed error (some q) margin =
    if ltb (q.width + margin * 2) (2 ^ 31) then ok (print_symbol q margin) else terminated

-- `qr` is what `QRcode_encodeString` gives for the text, and `error` is `strerror(errno)`.
unfoldable pub qr_code_to_utf8 : Bytes → Option Symbol → ℕ → Result Bytes
qr_code_to_utf8 error qr margin = printed error qr margin
