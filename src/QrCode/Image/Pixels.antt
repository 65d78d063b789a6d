-- ===== src/QrCode/Image/Pixels.antt =====
-- The pixels of the image that src/qr_code.cpp draws.
use klib.Base.{
  ℕ, ◌^◌, zero, suc, ◌+◌, ◌*◌, ◌≤◌, ◌<◌, ◌≡◌, ◌↔◌, ◌⊎◌, inl, inr, refl, ap, ◌∙◌, Bool, true, false,
  ◌&&◌, ◌||◌, some, [], ◌∷◌, arith, Bytes, get_or, set, replicate, ltb, leb, ◌==◌, if◌then◌else◌,
  Bool-cases,
}
use klib.Exception.{ok}
use klib.QrCode.Symbol.{Symbol, is_dark, for_each}
use klib.QrCode.Image.{Rgb, set_xy, draw_cell, draw_at, draw, image_of, qr_code_to_rbg}

-- Some number from `i` on, of `k`, passes.
unfoldable pub any : ℕ → ℕ → (ℕ → Bool) → Bool
any zero i p = false
any (suc k) i p = p i || any k (suc i) p

any_sound :
    (k i : ℕ) (p : ℕ → Bool) → any k i p ≡ true → (n : ℕ) × (i ≤ n) × (n < i + k) × (p n ≡ true)
unfolding any
any_sound zero i p h = absurd (cc)
any_sound (suc k) i p h = elim (Bool-cases (p i)) [
  | inl y ↦ (i, omega arith, omega arith, y)
  | inr n ↦ let (m, a, b, c) = any_sound k (suc i) p (rw n at h) in (m, omega arith, omega arith, c)
]

any_complete : (k i n : ℕ) (p : ℕ → Bool) → i ≤ n → n < i + k → p n ≡ true → any k i p ≡ true
unfolding any
any_complete zero i n p a b h = absurd (omega arith)
any_complete (suc k) i n p a b h = elim (Bool-cases (p i)) [
  | inl y ↦ rw y refl
  | inr miss ↦ rw miss (any_complete k (suc i) n p (next_le miss) (omega arith) h)
]
  where
    next_le : p i ≡ false → suc i ≤ n
    next_le miss = elim (Bool-cases (i == n)) [
      | inl same ↦ absurd (let e : i ≡ n = ground arith in ground (arith, ap p e))
      | inr other ↦ ground arith
    ]

get_or-set_zero :
    (l : Bytes) (i p : ℕ) → get_or (set l i 0) p 0 ≡ (if p == i then 0 else get_or l p 0)
get_or-set_zero [] i p = ground arith
get_or-set_zero (x ∷ l) zero zero = ground arith
get_or-set_zero (x ∷ l) zero (suc p) = ground arith
get_or-set_zero (x ∷ l) (suc i) zero = ground arith
get_or-set_zero (x ∷ l) (suc i) (suc p) = ground (arith, get_or-set_zero l i p)

get_or-replicate : (n p v : ℕ) → p < n → get_or (replicate n v) p 0 ≡ v
get_or-replicate zero p v h = absurd (omega arith)
get_or-replicate (suc n) zero v h = refl
get_or-replicate (suc n) (suc p) v h = get_or-replicate n p v (omega arith)

-- A number in a row of numbers of `w` digits has one row and one column.
row_unique : (a b c d w : ℕ) → b < w → d < w → a * w + b ≡ c * w + d → (a ≡ c) × (b ≡ d)
row_unique zero b zero d w p q e = omega arith
row_unique zero b (suc c) d w p q e = absurd (grind arith)
row_unique (suc a) b zero d w p q e = absurd (grind arith)
row_unique (suc a) b (suc c) d w p q e =
    let (x, y) = row_unique a b c d w p q (grind arith) in (ap suc x, y)

row_lt : (r c w h : ℕ) → r < h → c < w → r * w + c < h * w
row_lt r c w h p q = grind arith

for_each-any :
    (p : ℕ) (body : ℕ → Bytes → Bytes) (hit : ℕ → Bool)
    → ((i : ℕ) (s : Bytes) → get_or (body i s) p 0 ≡ (if hit i then 0 else get_or s p 0))
    → (k i : ℕ) (s : Bytes)
    → get_or (for_each k i body s) p 0 ≡ (if any k i hit then 0 else get_or s p 0)
unfolding for_each any
for_each-any p body hit h zero i s = refl
for_each-any p body hit h (suc k) i s =
    for_each-any p body hit h k (suc i) (body i s) ∙ ground (arith, h i s)

-- The byte `p` is one of the three of the pixel with this offset.
abbrev pub covers : ℕ → ℕ → Bool
covers offset p = leb (offset * 3) p && ltb p (offset * 3 + 3)

module _ (q : Symbol) (margin zoom : ℕ) where
  abbrev width : ℕ
  width = q.width * zoom + 2 * margin

  abbrev offset_of : ℕ → ℕ → ℕ
  offset_of x y = (y + margin) * width + (x + margin)

  set_xy-covers :
      (x y p : ℕ) (s : Bytes)
      → p < width * width * 3
      → get_or (set_xy margin width width x y s) p 0
        ≡ (if covers (offset_of x y) p then 0 else get_or s p 0)
  unfolding set_xy
  set_xy-covers x y p s small =
      let o = offset_of x y in
      ground (
        arith,
        get_or-set_zero (set (set s (o * 3) 0) (o * 3 + 1) 0) (o * 3 + 2) p,
        get_or-set_zero (set s (o * 3) 0) (o * 3 + 1) p,
        get_or-set_zero s (o * 3) p,
      )

  abbrev hit_pixel : ℕ → ℕ → ℕ → ℕ → ℕ → Bool
  hit_pixel p x y i j = covers (offset_of (x * zoom + i) (y * zoom + j)) p

  abbrev hit_cell : ℕ → ℕ → ℕ → Bool
  hit_cell p x y = any zoom 0 (λ i. any zoom 0 (hit_pixel p x y i))

  draw_cell-any :
      (p x y : ℕ) (s : Bytes)
      → p < width * width * 3
      → get_or (draw_cell margin width width zoom x y s) p 0
        ≡ (if hit_cell p x y then 0 else get_or s p 0)
  unfolding draw_cell
  draw_cell-any p x y s small =
      for_each-any p _ (λ i. any zoom 0 (hit_pixel p x y i))
        (λ i t.
          for_each-any p _ (hit_pixel p x y i)
            (λ j u. set_xy-covers (x * zoom + i) (y * zoom + j) p u small) zoom 0 t)
        zoom 0 s

  abbrev hit_dark : ℕ → ℕ → ℕ → Bool
  hit_dark p y x = is_dark q x y && hit_cell p x y

  draw_at-any :
      (p y x : ℕ) (s : Bytes)
      → p < width * width * 3
      → get_or (draw_at q margin width width zoom y x s) p 0
        ≡ (if hit_dark p y x then 0 else get_or s p 0)
  unfolding draw_at
  draw_at-any p y x s small = elim (Bool-cases (is_dark q x y)) [
    | inl dark ↦ rw dark (draw_cell-any p x y s small)
    | inr light ↦ rw light refl
  ]

  abbrev hit : ℕ → Bool
  hit p = any q.width 0 (λ y. any q.width 0 (hit_dark p y))

  draw-any :
      (p : ℕ) (s : Bytes)
      → p < width * width * 3
      → get_or (draw q margin width width zoom s) p 0 ≡ (if hit p then 0 else get_or s p 0)
  unfolding draw
  draw-any p s small =
      for_each-any p _ (λ y. any q.width 0 (hit_dark p y))
        (λ y t. for_each-any p _ (hit_dark p y) (λ x u. draw_at-any p y x u small) q.width 0 t)
        q.width 0 s

  -- The pixel lies in the square of a dark module.
  abbrev pub IsDarkAt : ℕ → ℕ → Type 0
  IsDarkAt px py =
      (x : ℕ) × (y : ℕ) × (i : ℕ) × (j : ℕ) × (x < q.width)
      × (y < q.width)
      × (i < zoom)
      × (j < zoom)
      × (is_dark q x y ≡ true)
      × (px ≡ margin + (x * zoom + i))
      × (py ≡ margin + (y * zoom + j))

  -- The byte of a channel of a pixel.
  abbrev pub byte_of : ℕ → ℕ → ℕ → ℕ
  byte_of px py channel = (py * width + px) * 3 + channel

  hit-IsDarkAt :
      (px py channel : ℕ)
      → px < width
      → channel < 3
      → hit (byte_of px py channel) ≡ true
      → IsDarkAt px py
  hit-IsDarkAt px py channel in_row small h =
      let p = byte_of px py channel in
      let (y, _, y_lt, h1) = any_sound q.width 0 (λ y. any q.width 0 (hit_dark p y)) h in
      let (x, _, x_lt, h2) = any_sound q.width 0 (hit_dark p y) h1 in
      let dark : is_dark q x y ≡ true = ground arith in
      let cell : hit_cell p x y ≡ true = ground arith in
      let (i, _, i_lt, h3) = any_sound zoom 0 (λ i. any zoom 0 (hit_pixel p x y i)) cell in
      let (j, _, j_lt, h4) = any_sound zoom 0 (hit_pixel p x y i) h3 in
      let same : offset_of (x * zoom + i) (y * zoom + j) ≡ py * width + px = ground arith in
      let column : x * zoom + i < q.width * zoom =
        row_lt x i zoom q.width (omega arith) (omega arith) in
      let (r, c) =
        row_unique (y * zoom + j + margin) (x * zoom + i + margin) py px width (omega arith) in_row
          same in
      (
        x,
        y,
        i,
        j,
        omega arith,
        omega arith,
        omega arith,
        omega arith,
        dark,
        omega arith,
        omega arith,
      )

  IsDarkAt-hit :
      (px py channel : ℕ) → channel < 3 → IsDarkAt px py → hit (byte_of px py channel) ≡ true
  IsDarkAt-hit px py channel small (x, y, i, j, x_lt, y_lt, i_lt, j_lt, dark, c, r) =
      let p = byte_of px py channel in
      let same : offset_of (x * zoom + i) (y * zoom + j) ≡ py * width + px =
        rw (c, r) (omega arith) in
      let h4 : hit_pixel p x y i j ≡ true = ground arith in
      let h3 = any_complete zoom 0 j (hit_pixel p x y i) (omega arith) (omega arith) h4 in
      let cell =
        any_complete zoom 0 i (λ i. any zoom 0 (hit_pixel p x y i)) (omega arith) (omega arith)
          h3 in
      let h2 : hit_dark p y x ≡ true = rw (dark, cell) refl in
      let h1 = any_complete q.width 0 x (hit_dark p y) (omega arith) (omega arith) h2 in
      any_complete q.width 0 y (λ y. any q.width 0 (hit_dark p y)) (omega arith) (omega arith) h1

  byte_of-lt :
      (px py channel : ℕ)
      → px < width
      → py < width
      → channel < 3
      → byte_of px py channel < width * width * 3
  byte_of-lt px py channel a b c = let inside = row_lt py px width width b a in omega arith

  byte_value :
      (px py channel : ℕ)
      → px < width
      → py < width
      → channel < 3
      → get_or (image_of q margin zoom).rgb (byte_of px py channel) 0
        ≡ (if hit (byte_of px py channel) then 0 else 255)
  byte_value px py channel a b c =
      let p = byte_of px py channel in
      let inside = byte_of-lt px py channel a b c in
      draw-any p (replicate (width * width * 3) 255) inside
      ∙ ap (λ v. if hit p then 0 else v) (get_or-replicate (width * width * 3) p 255 inside)

  zero_or :
      (b : Bool) (v : ℕ)
      → v ≡ (if b then 0 else 255)
      → ((v ≡ 0) ↔ (b ≡ true)) × ((v ≡ 0) ⊎ (v ≡ 255))
  zero_or true v e = ((λ _. refl, λ _. e), inl e)
  zero_or false v e = ((λ z. absurd (omega arith), λ t. absurd (cc)), inr e)

  pixel_colour :
      (px py channel : ℕ)
      → px < width
      → py < width
      → channel < 3
      → let v = get_or (image_of q margin zoom).rgb (byte_of px py channel) 0 in
        ((v ≡ 0) ↔ IsDarkAt px py) × ((v ≡ 0) ⊎ (v ≡ 255))
  pixel_colour px py channel a b c =
      let (same, either) = zero_or _ _ (byte_value px py channel a b c) in
      (
        (
          λ z. hit-IsDarkAt px py channel a c (same.0 z),
          λ d. same.1 (IsDarkAt-hit px py channel c d),
        ),
        either,
      )

ltb-true : (m n : ℕ) → m < n → ltb m n ≡ true
ltb-true m n h = ground arith

-- If the number of bytes of the image is below 2 ^ 31, the image is a square of the symbol's width times the zoom with the margin,
-- times the zoom, on every side. Each of the three bytes of each pixel is 0 if the pixel lies in the
-- square of a dark module, and only then; any other byte is 255.
pub qr_code_to_rbg-IsDarkAt :
    (error : Bytes) (q : Symbol) (margin zoom px py channel : ℕ)
    → px < q.width * zoom + 2 * (margin * zoom)
    → py < q.width * zoom + 2 * (margin * zoom)
    → channel < 3
    → (q.width * zoom + 2 * (margin * zoom)) * (q.width * zoom + 2 * (margin * zoom)) * 3 < 2 ^ 31
    → (image : Rgb) × (qr_code_to_rbg error (some q) margin zoom ≡ ok image)
      × (image.width ≡ q.width * zoom + 2 * (margin * zoom))
      × (image.height ≡ image.width)
      × ((get_or image.rgb (byte_of q (margin * zoom) zoom px py channel) 0 ≡ 0)
          ↔ IsDarkAt q (margin * zoom) zoom px py)
      × ((get_or image.rgb (byte_of q (margin * zoom) zoom px py channel) 0 ≡ 0)
          ⊎ (get_or image.rgb (byte_of q (margin * zoom) zoom px py channel) 0 ≡ 255))
unfolding qr_code_to_rbg
qr_code_to_rbg-IsDarkAt error q margin zoom px py channel a b c small =
    let side = q.width * zoom + 2 * (margin * zoom) in
    let fits : ltb (side * side * 3) (2 ^ 31) ≡ true = ltb-true (side * side * 3) (2 ^ 31) small in
    let (colour, either) = pixel_colour q (margin * zoom) zoom px py channel a b c in
    (image_of q (margin * zoom) zoom, rw fits refl, refl, refl, colour, either)
