-- ===== src/QrCode/Image.antt =====
-- src/qr_code.cpp: `qr_code_to_rbg`.
pub mod Pixels
use klib.Base.{
  ℕ, ◌+◌, ◌*◌, Option, none, some, [], Bytes, set, replicate, leb, ltb, ◌^◌, if◌then◌else◌,
}
use klib.Exception.{runtime_error, Result, ok, throw, terminated}
use klib.QrCode.Symbol.{Symbol, is_dark, for_each}

-- include/klib/image.h: `RGB`
pub record Rgb : Type 0 where
  pub rgb : Bytes
  pub width : ℕ
  pub height : ℕ

-- The lambda `set_xy`: a write behind the image is skipped.
unfoldable pub set_xy : ℕ → ℕ → ℕ → ℕ → ℕ → Bytes → Bytes
set_xy margin width height x y rgb =
    let offset = (y + margin) * width + (x + margin) in
    if leb (width * height) offset
    then rgb
    else set (set (set rgb (offset * 3) 0) (offset * 3 + 1) 0) (offset * 3 + 2) 0

-- The two inner loops: a square of `zoom` by `zoom` pixels.
unfoldable pub draw_cell : ℕ → ℕ → ℕ → ℕ → ℕ → ℕ → Bytes → Bytes
draw_cell margin width height zoom x y rgb =
    for_each zoom 0
      (λ i. for_each zoom 0 (λ j. set_xy margin width height (x * zoom + i) (y * zoom + j))) rgb

unfoldable pub draw_at : Symbol → ℕ → ℕ → ℕ → ℕ → ℕ → ℕ → Bytes → Bytes
draw_at q margin width height zoom y x rgb =
    if is_dark q x y then draw_cell margin width height zoom x y rgb else rgb

unfoldable pub draw : Symbol → ℕ → ℕ → ℕ → ℕ → Bytes → Bytes
draw q margin width height zoom rgb =
    for_each q.width 0 (λ y. for_each q.width 0 (draw_at q margin width height zoom y)) rgb

-- With the margin in pixels. `memset` makes the image white.
abbrev pub image_of : Symbol → ℕ → ℕ → Rgb
image_of q margin zoom =
    let width = q.width * zoom + 2 * margin in
    let height = q.width * zoom + 2 * margin in
    record {
      rgb = draw q margin width height zoom (replicate (width * height * 3) 255);
      width = width;
      height = height;
    }

-- The number of bytes is an `std::int32_t`, whose overflow is undefined.
abbrev pub checked : Rgb → Result Rgb
checked image = if ltb (image.width * image.height * 3) (2 ^ 31) then ok image else terminated

abbrev pub drawn : Bytes → Option Symbol → (Symbol → Rgb) → Result Rgb
drawn error none f = throw (runtime_error error [])
drawn error (some q) f = checked (f q)

-- `qr` is what `QRcode_encodeString` gives for the text, and `error` is `strerror(errno)`.
unfoldable pub qr_code_to_rbg : Bytes → Option Symbol → ℕ → ℕ → Result Rgb
qr_code_to_rbg error qr margin zoom = drawn error qr (λ q. image_of q (margin * zoom) zoom)
