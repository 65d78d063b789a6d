-- ===== src/Image.antt =====
-- src/image.cpp: images converted by libvips.
pub mod Freed
pub mod Memory
use klib.Base.{
  ℕ, ◌*◌, ◌^◌, ltb, Bool, true, false, not, Option, none, some, [], Bytes, codes, c_str,
  if◌then◌else◌,
}
use klib.Base.Int.{ℤ, pos, ◌==ℤ◌}
use klib.Exception.{
  runtime_error, Result, ok, throw, terminated, M, ◌>>=◌, ◌>>◌, return, raise, throw_if, scope_exit,
}
use klib.QrCode.Image.{Rgb}

-- libvips over an unknown state; an image is a number, and `init` says whether it failed. `jpegsave` takes
-- the quality, and whether the options of the largest compression go with it. `from_memory` takes the
-- bytes, their number, the width, the height and the number of bands.
pub record Vips : Type 1 where
  pub World : Type 0
  pub init : Bytes → World → Bool × World
  pub from_file : Bytes → World → Option ℕ × World
  pub from_memory : Bytes → (size width height bands : ℕ) → World → Option ℕ × World
  pub pngsave : ℕ → Bytes → (quality compression : ℤ) → World → ℤ × World
  pub jpegsave : ℕ → Bytes → (quality : ℤ) → Bool → World → ℤ × World
  pub webpsave : ℕ → Bytes → (quality effort : ℤ) → World → ℤ × World
  pub unref : ℕ → World → World
  pub error_buffer : World → Bytes

module _ (v : Vips) where
  abbrev pub Do : Type 0 → Type 0
  Do A = M v.World A

  abbrev pub lift : {A : Type 0} → (v.World → A × v.World) → Do A
  lift f w = (ok (f w).0, (f w).1)

  -- `CHECK_LIBVIPS(rc)`
  abbrev pub check_libvips : ℤ → Do (Unit {0})
  check_libvips rc w = throw_if (not (rc ==ℤ pos 0)) (runtime_error (v.error_buffer w) []) w

  abbrev pub image_or_throw : Option ℕ → Do ℕ
  image_or_throw none w = (throw (runtime_error (v.error_buffer w) []), w)
  image_or_throw (some image) w = (ok image, w)

  abbrev init_failed : Bool → Do (Unit {0})
  init_failed failed = throw_if failed (runtime_error (codes "VIPS_INIT() failed") [])

  unfoldable pub get_image : Bytes → Do ℕ
  get_image image_path = do
    failed ← lift (v.init (codes "klib"))
    init_failed failed
    image ← lift (v.from_file (c_str image_path))
    image_or_throw image

  -- The number of bytes is an `std::int32_t`, whose overflow is undefined.
  abbrev pub size_fits : Rgb → Do (Unit {0})
  size_fits rgb w =
      if ltb (rgb.width * rgb.height * 3) (2 ^ 31) then (ok tt, w) else (terminated, w)

  -- The overload for an `RGB`.
  unfoldable pub get_rgb_image : Rgb → Do ℕ
  get_rgb_image rgb = do
    failed ← lift (v.init (codes "klib"))
    init_failed failed
    size_fits rgb
    image ← lift (v.from_memory rgb.rgb (rgb.width * rgb.height * 3) rgb.width rgb.height 3)
    image_or_throw image

  unfoldable pub do_to_png : ℕ → Bytes → ℤ → ℤ → Do (Unit {0})
  do_to_png image out_path quality compression_level = do
    rc ← lift (v.pngsave image (c_str out_path) quality compression_level)
    check_libvips rc

  unfoldable pub do_to_jpeg : ℕ → Bytes → ℤ → Bool → Do (Unit {0})
  do_to_jpeg image out_path quality max_compress = do
    rc ← lift (v.jpegsave image (c_str out_path) quality max_compress)
    check_libvips rc

  unfoldable pub do_to_webp : ℕ → Bytes → ℤ → ℤ → Do (Unit {0})
  do_to_webp image out_path quality method = do
    rc ← lift (v.webpsave image (c_str out_path) quality method)
    check_libvips rc

  -- `SCOPE_EXIT { g_object_unref(vips_image); };` behind `get_image`
  unfoldable pub with_image : Do ℕ → (ℕ → Do (Unit {0})) → Do (Unit {0})
  with_image get body = do image ← get; scope_exit (λ w. (ok tt, v.unref image w)) (body image)

  unfoldable pub image_to_png : Bytes → Bytes → ℤ → ℤ → Do (Unit {0})
  image_to_png image_path out_path quality compression_level =
      with_image (get_image image_path)
        (λ image. do_to_png image out_path quality compression_level)

  unfoldable pub rgb_to_png : Rgb → Bytes → ℤ → ℤ → Do (Unit {0})
  rgb_to_png rgb out_path quality compression_level =
      with_image (get_rgb_image rgb) (λ image. do_to_png image out_path quality compression_level)

  unfoldable pub image_to_jpeg : Bytes → Bytes → ℤ → Bool → Do (Unit {0})
  image_to_jpeg image_path out_path quality max_compress =
      with_image (get_image image_path) (λ image. do_to_jpeg image out_path quality max_compress)

  unfoldable pub rgb_to_jpeg : Rgb → Bytes → ℤ → Bool → Do (Unit {0})
  rgb_to_jpeg rgb out_path quality max_compress =
      with_image (get_rgb_image rgb) (λ image. do_to_jpeg image out_path quality max_compress)

  unfoldable pub image_to_webp : Bytes → Bytes → ℤ → ℤ → Do (Unit {0})
  image_to_webp image_path out_path quality method =
      with_image (get_image image_path) (λ image. do_to_webp image out_path quality method)

  unfoldable pub rgb_to_webp : Rgb → Bytes → ℤ → ℤ → Do (Unit {0})
  rgb_to_webp rgb out_path quality method =
      with_image (get_rgb_image rgb) (λ image. do_to_webp image out_path quality method)
