-- ===== src/Tests/Image.antt =====
-- src/image.cpp with a libvips that counts the images that it holds.
use klib.Base.{ℕ, suc, ◌-◌, refl, true, false, some, [], ◌∷◌, arith}
use klib.Base.Int.{pos, negsuc}
use klib.QrCode.Image.{Rgb}
use klib.Image.{
  Vips, image_to_png, rgb_to_png, image_to_jpeg, rgb_to_jpeg, image_to_webp, rgb_to_webp,
}
use klib.Image.Freed.{IsVips, Same, image_to_png-Held}

-- Saving as PNG fails.
abbrev counting : Vips
counting = record {
  World = ℕ;
  init = λ name w. (false, w);
  from_file = λ path w. (some w, suc w);
  from_memory = λ rgb size width height bands w. (some w, suc w);
  pngsave = λ image path q c w. (negsuc 0, w);
  jpegsave = λ image path q c w. (pos 0, w);
  webpsave = λ image path q c w. (pos 0, w);
  unref = λ image w. w - 1;
  error_buffer = λ w. [];
}

counting-IsVips : IsVips counting (λ w. w)
counting-IsVips = record {
  init_lem = λ name w. refl;
  from_file_lem = λ path w. refl;
  from_memory_lem = λ rgb size width height bands w. refl;
  pngsave_lem = λ image path q c w. refl;
  jpegsave_lem = λ image path q c w. refl;
  webpsave_lem = λ image path q c w. refl;
  unref_lem = λ image n w h. omega (arith, h);
}

abbrev dot : Rgb
dot = record { rgb = 0 ∷ 0 ∷ 0 ∷ []; width = 1; height = 1 }

image_to_png-Held_example :
    Same counting (λ w. w) 5 (image_to_png counting (0x61 ∷ []) (0x62 ∷ []) (pos 80) (pos 6) 5)
    × Same counting (λ w. w) 5 (rgb_to_png counting dot (0x62 ∷ []) (pos 80) (pos 6) 5)
    × Same counting (λ w. w) 5 (image_to_jpeg counting (0x61 ∷ []) (0x62 ∷ []) (pos 80) true 5)
    × Same counting (λ w. w) 5 (rgb_to_jpeg counting dot (0x62 ∷ []) (pos 80) true 5)
    × Same counting (λ w. w) 5 (image_to_webp counting (0x61 ∷ []) (0x62 ∷ []) (pos 80) (pos 6) 5)
    × Same counting (λ w. w) 5 (rgb_to_webp counting dot (0x62 ∷ []) (pos 80) (pos 6) 5)
image_to_png-Held_example =
    image_to_png-Held counting (λ w. w) counting-IsVips 5 (0x61 ∷ []) (0x62 ∷ []) dot (pos 80)
      (pos 6) true
