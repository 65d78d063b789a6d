-- ===== src/QrCode/Text/Lines.antt =====
-- The text of a QR symbol of src/qr_code.cpp as a grid of glyphs.
use klib.Base.{
  ℕ, ◌^◌, zero, suc, ◌+◌, ◌-◌, ◌*◌, ◌/◌, ◌≤◌, ◌<◌, ◌≡◌, refl, sym, ap, ◌∙◌, Bool, true, false, some,
  [], ◌++◌, append-nil, append_assoc, arith, Bytes, ltb, if◌then◌else◌,
}
use klib.Exception.{ok}
use klib.QrCode.Symbol.{Symbol, is_dark, for_each}
use klib.QrCode.Text.{
  empty, low_half, up_half, full, newline, append_times, print_margin, below_is_dark, print_cell,
  print_row, print_rows, print_symbol, qr_code_to_utf8,
}

-- The texts of `k` numbers from `i` on, one behind the other.
unfoldable pub concat_from : ℕ → ℕ → (ℕ → Bytes) → Bytes
concat_from zero i f = []
concat_from (suc k) i f = f i ++ concat_from k (suc i) f

-- The light half of a glyph is filled: the upper half stands for the first row.
abbrev pub glyph : Bool → Bool → Bytes
glyph true true = empty
glyph true false = low_half
glyph false true = up_half
glyph false false = full

module _ (q : Symbol) (margin : ℕ) where
  abbrev pub border : ℕ → Bytes
  border n = concat_from n 0 (λ x. full)

  abbrev pub margin_lines : Bytes
  margin_lines = concat_from (margin / 2) 0 (λ y. border (q.width + margin * 2) ++ newline)

  -- The line of the rows `y` and `y + 1`; a row below the symbol is light.
  abbrev pub row_line : ℕ → Bytes
  row_line y =
      border margin
      ++ (concat_from q.width 0 (λ x. glyph (is_dark q x y) (below_is_dark q margin x y))
          ++ (border margin ++ newline))

  -- The lines from row `y` on.
  unfoldable pub concat_lines : ℕ → ℕ → Bytes
  concat_lines zero y = []
  concat_lines (suc n) y = row_line y ++ concat_lines n (suc (suc y))

for_each-concat :
    (body : ℕ → Bytes → Bytes) (f : ℕ → Bytes)
    → ((i : ℕ) (s : Bytes) → body i s ≡ s ++ f i)
    → (k i : ℕ) (s : Bytes) → for_each k i body s ≡ s ++ concat_from k i f
unfolding for_each concat_from
for_each-concat body f h zero i s = sym (append-nil s)
for_each-concat body f h (suc k) i s =
    for_each-concat body f h k (suc i) (body i s)
    ∙ ap (λ t. t ++ concat_from k (suc i) f) (h i s)
    ∙ append_assoc s (f i) (concat_from k (suc i) f)

append_times-concat :
    (n : ℕ) (str s : Bytes) → append_times n str s ≡ s ++ concat_from n 0 (λ x. str)
unfolding append_times
append_times-concat n str s = for_each-concat _ (λ x. str) (λ i t. refl) n 0 s

print_margin-concat :
    (n margin : ℕ) (s : Bytes)
    → print_margin n margin s
      ≡ s ++ concat_from (margin / 2) 0 (λ y. concat_from n 0 (λ x. full) ++ newline)
unfolding print_margin
print_margin-concat n margin s =
    for_each-concat _ (λ y. concat_from n 0 (λ x. full) ++ newline)
      (λ i t.
        ap (λ r. r ++ newline) (append_times-concat n full t)
        ∙ append_assoc t (concat_from n 0 (λ x. full)) newline)
      (margin / 2) 0 s

module _ (q : Symbol) (margin : ℕ) where
  print_cell-glyph :
      (y x : ℕ) (s : Bytes)
      → print_cell q margin y x s ≡ s ++ glyph (is_dark q x y) (below_is_dark q margin x y)
  unfolding print_cell
  print_cell-glyph y x s = go (is_dark q x y) (below_is_dark q margin x y)
    where
      go :
          (t b : Bool)
          → (if t
              then (if b then s ++ empty else s ++ low_half)
              else if b
              then s ++ up_half
              else s ++ full)
            ≡ s ++ glyph t b
      go true true = refl
      go true false = refl
      go false true = refl
      go false false = refl

  print_row-line : (y : ℕ) (s : Bytes) → print_row q margin y s ≡ s ++ row_line q margin y
  unfolding print_row
  print_row-line y s =
      let side = concat_from margin 0 (λ x. full) in
      let cells = concat_from q.width 0 (λ x. glyph (is_dark q x y) (below_is_dark q margin x y)) in
      ap (λ r. append_times margin full (for_each q.width 0 (print_cell q margin y) r) ++ newline)
        (append_times-concat margin full s)
      ∙ ap (λ r. append_times margin full r ++ newline)
          (for_each-concat _ _ (print_cell-glyph y) q.width 0 (s ++ side))
      ∙ ap (λ r. r ++ newline) (append_times-concat margin full ((s ++ side) ++ cells))
      ∙ simp append_assoc

  -- The number of lines: two rows in each, and one for the last row of an odd number.
  print_rows-concat :
      (fuel y n : ℕ) (s : Bytes)
      → q.width ≤ y + fuel
      → n ≡ (q.width + 1 - y) / 2
      → print_rows q margin fuel y s ≡ s ++ concat_lines q margin n y
  unfolding print_rows concat_lines
  print_rows-concat zero y zero s enough e = sym (append-nil s)
  print_rows-concat zero y (suc n) s enough e = absurd (omega arith)
  print_rows-concat (suc fuel) y zero s enough e =
      let done : ltb y q.width ≡ false = ground arith in rw done (sym (append-nil s))
  print_rows-concat (suc fuel) y (suc n) s enough e =
      let more : ltb y q.width ≡ true = ground arith in
      rw more (
        print_rows-concat fuel (suc (suc y)) n (print_row q margin y s) (omega arith) (omega arith)
        ∙ ap (λ t. t ++ concat_lines q margin n (suc (suc y))) (print_row-line y s)
        ∙ append_assoc s (row_line q margin y) (concat_lines q margin n (suc (suc y))))

  -- If the width with both margins is below 2 ^ 31, the text has `margin / 2` lines of full blocks, one line for each two rows of modules, the last of
  -- them for a single row if their number is odd, and `margin / 2` lines of full blocks. A line
  -- has `margin` full blocks, a glyph for each column, whose halves are filled where the modules are
  -- light, and `margin` full blocks.
  pub qr_code_to_utf8-lines :
      (error : Bytes)
      → q.width + margin * 2 < 2 ^ 31
      → qr_code_to_utf8 error (some q) margin
        ≡ ok (
            margin_lines q margin
            ++ (concat_lines q margin ((q.width + 1) / 2) 0 ++ margin_lines q margin))
  unfolding qr_code_to_utf8 print_symbol
  qr_code_to_utf8-lines error small =
      let fits : ltb (q.width + margin * 2) (2 ^ 31) ≡ true = ground arith in
      let real_width = q.width + margin * 2 in
      let top = margin_lines q margin in
      rw fits (
        ap ok (
          ap (λ s. print_margin real_width margin (print_rows q margin q.width 0 s))
            (print_margin-concat real_width margin [])
          ∙ ap (print_margin real_width margin)
              (print_rows-concat q.width 0 ((q.width + 1) / 2) top (omega arith) (omega arith))
          ∙ print_margin-concat real_width margin
              (top ++ concat_lines q margin ((q.width + 1) / 2) 0)
          ∙ append_assoc top (concat_lines q margin ((q.width + 1) / 2) 0) top))
