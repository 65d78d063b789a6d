-- ===== src/Tests/Mime.antt =====
-- src/mime.cpp with a libmagic that knows PNG.
use klib.Base.{ℕ, suc, ◌-◌, refl, some, none, Option, [], ◌∷◌, codes, arith}
use klib.Base.Int.{pos}
use klib.Mime.{Libmagic, is_png, is_jpeg, is_webp}
use klib.Mime.Detect.{IsLibmagic, Test, is_png-is_jpeg-is_webp}

abbrev close_one : Option ℕ → ℕ → ℕ
close_one none w = w
close_one (some cookie) w = w - 1

-- The state is the number of open cookies.
abbrev png_only : Libmagic
png_only = record {
  World = ℕ;
  magic_open = λ w. (some w, suc w);
  close = close_one;
  load_buffers = λ cookie database w. (pos 0, w);
  buffer = λ cookie file w. (some (codes "image/png"), w);
  error = λ cookie w. codes "error";
  strerror = λ w. codes "error";
  database = codes "db";
}

png_only-IsLibmagic : IsLibmagic png_only (λ w. w) (λ file. codes "image/png")
png_only-IsLibmagic = record {
  open_lem = λ w. refl;
  close_null = λ w. refl;
  close_lem = λ cookie n w h. omega arith;
  load_lem = λ cookie database w. refl;
  buffer_lem = λ cookie file w. refl;
  buffer_type = λ cookie file w. refl;
}

is_png-is_jpeg-is_webp_example :
    Test png_only
      (λ w. w)
      (λ file. codes "image/png")
      png_only-IsLibmagic
      (137 ∷ [])
      (codes "image/png")
      3
      (is_png png_only (137 ∷ []) 3)
    × Test png_only
        (λ w. w)
        (λ file. codes "image/png")
        png_only-IsLibmagic
        (137 ∷ [])
        (codes "image/jpeg")
        3
        (is_jpeg png_only (137 ∷ []) 3)
    × Test png_only
        (λ w. w)
        (λ file. codes "image/png")
        png_only-IsLibmagic
        (137 ∷ [])
        (codes "image/webp")
        3
        (is_webp png_only (137 ∷ []) 3)
is_png-is_jpeg-is_webp_example =
    is_png-is_jpeg-is_webp png_only (λ w. w) (λ file. codes "image/png") png_only-IsLibmagic
      (137 ∷ []) 3
