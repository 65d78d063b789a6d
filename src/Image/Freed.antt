-- ===== src/Image/Freed.antt =====
-- The images that src/image.cpp holds.
use klib.Base.{
  ℕ, suc, ◌*◌, ◌≡◌, refl, ap, ◌∙◌, Bool, Bool-cases, inl, inr, ltb, ◌^◌, Option, none, some, [],
  Bytes, c_str, codes, not,
}
use klib.Base.Int.{ℤ, pos, ◌==ℤ◌}
use klib.Exception.{runtime_error, Result, ok, return, throw_if, ◌>>=◌, ◌>>◌}
use klib.Exception.Triple.{
  Ends, Triple, Keeps, Triple-bind, Triple-scope_exit, Triple-throw_if, Keeps-bind,
}
use klib.QrCode.Image.{Rgb}
use klib.Image.{
  Vips, Do, lift, size_fits, check_libvips, image_or_throw, get_image, get_rgb_image, do_to_png,
  do_to_jpeg, do_to_webp, with_image, image_to_png, rgb_to_png, image_to_jpeg, rgb_to_jpeg,
  image_to_webp, rgb_to_webp,
}

-- One more, if there is an image.
abbrev pub count : Option ℕ → ℕ → ℕ
count none n = n
count (some image) n = suc n

-- How many images are held: loading makes one if it gives one, `unref` gives one back, and nothing else does.
pub record IsVips (v : Vips) (held : v.World → ℕ) : Type 0 where
  pub init_lem : (name : Bytes) (w : v.World) → held (v.init name w).1 ≡ held w
  pub from_file_lem :
      (path : Bytes) (w : v.World)
      → held (v.from_file path w).1 ≡ count (v.from_file path w).0 (held w)
  pub from_memory_lem :
      (rgb : Bytes) (size width height bands : ℕ) (w : v.World)
      → held (v.from_memory rgb size width height bands w).1
        ≡ count (v.from_memory rgb size width height bands w).0 (held w)
  pub pngsave_lem :
      (image : ℕ) (path : Bytes) (q c : ℤ) (w : v.World)
      → held (v.pngsave image path q c w).1 ≡ held w
  pub jpegsave_lem :
      (image : ℕ) (path : Bytes) (q : ℤ) (c : Bool) (w : v.World)
      → held (v.jpegsave image path q c w).1 ≡ held w
  pub webpsave_lem :
      (image : ℕ) (path : Bytes) (q c : ℤ) (w : v.World)
      → held (v.webpsave image path q c w).1 ≡ held w
  pub unref_lem : (image n : ℕ) (w : v.World) → held w ≡ suc n → held (v.unref image w) ≡ n

-- A call that began in `w` ends with as many images held.
abbrev pub Same : (v : Vips) → (v.World → ℕ) → v.World → Result (Unit {0}) × v.World → Type 0
Same v held w = Ends (λ _ w'. held w' ≡ held w) (λ w'. held w' ≡ held w)

module _ (v : Vips) (held : v.World → ℕ) (L : IsVips v held) where
  abbrev Held : ℕ → v.World → Type 0
  Held n w = held w ≡ n

  saved :
      (n : ℕ) (save : v.World → ℤ × v.World)
      → ((w : v.World) → held (save w).1 ≡ held w)
      → Keeps (Held n) (lift v save >>= check_libvips v)
  saved n save same =
      Keeps-bind (Held n) (lift v save) (check_libvips v) (λ w p. same w ∙ p)
        (λ rc w.
          Triple-throw_if (Held n) (not (rc ==ℤ pos 0)) (runtime_error (v.error_buffer w) []) w)

  -- Loading holds one image more when it returns, and none when it throws.
  loaded :
      (n : ℕ) (guard : Do v (Unit {0})) (load : v.World → Option ℕ × v.World)
      → Keeps (Held n) guard
      → ((w : v.World) → held (load w).1 ≡ count (load w).0 (held w))
      → Triple
          (Held n)
          (lift v (v.init (codes "klib")) >>= λ failed.
            throw_if failed (runtime_error (codes "VIPS_INIT() failed") [])
            >> (guard >> (lift v load >>= image_or_throw v)))
          (λ _. Held (suc n))
          (Held n)
  loaded n guard load keeps same =
      Triple-bind (Held n) (λ _. Held n) (Held n) (λ _. Held (suc n))
        (lift v (v.init (codes "klib"))) _ (λ w p. L.init_lem (codes "klib") w ∙ p)
        (λ failed.
          Triple-bind (Held n) (λ _. Held n) (Held n) (λ _. Held (suc n))
            (throw_if failed (runtime_error (codes "VIPS_INIT() failed") [])) _
            (Triple-throw_if (Held n) failed (runtime_error (codes "VIPS_INIT() failed") []))
            (λ _.
              Triple-bind (Held n) (λ _. Held n) (Held n) (λ _. Held (suc n)) guard _ keeps
                (λ _ w p. go (load w) (same w ∙ ap (count (load w).0) p))))
    where
      go :
          (r : Option ℕ × v.World)
          → held r.1 ≡ count r.0 n
          → Ends (λ _ w. held w ≡ suc n) (λ w. held w ≡ n) (image_or_throw v r.0 r.1)
      go (none, w) p = p
      go (some image, w) p = p

  kept :
      (n : ℕ) (get : Do v ℕ) (body : ℕ → Do v (Unit {0}))
      → Triple (Held n) get (λ _. Held (suc n)) (Held n)
      → ((image : ℕ) → Keeps (Held (suc n)) (body image))
      → Keeps (Held n) (with_image v get body)
  unfolding with_image
  kept n get body gets saves =
      Triple-bind (Held n) (λ _. Held (suc n)) (Held n) (λ _. Held n) get _ gets
        (λ image.
          Triple-scope_exit (Held (suc n)) (Held (suc n)) (Held n) (λ w. (ok tt, v.unref image w))
            (body image) (saves image) (λ w p. L.unref_lem image n w p))

  get_image-Held :
      (n : ℕ) (path : Bytes) → Triple (Held n) (get_image v path) (λ _. Held (suc n)) (Held n)
  unfolding get_image
  get_image-Held n path =
      loaded n (return tt) (v.from_file (c_str path)) (λ w p. p)
        (λ w. L.from_file_lem (c_str path) w)

  size_fits-Held : (n : ℕ) (rgb : Rgb) → Keeps (Held n) (size_fits v rgb)
  size_fits-Held n rgb w p = elim (Bool-cases (ltb (rgb.width * rgb.height * 3) (2 ^ 31))) [
    | inl y ↦ rw y p
    | inr m ↦ rw m tt
  ]

  get_rgb_image-Held :
      (n : ℕ) (rgb : Rgb) → Triple (Held n) (get_rgb_image v rgb) (λ _. Held (suc n)) (Held n)
  unfolding get_rgb_image
  get_rgb_image-Held n rgb =
      loaded n (size_fits v rgb)
        (v.from_memory rgb.rgb (rgb.width * rgb.height * 3) rgb.width rgb.height 3)
        (size_fits-Held n rgb)
        (λ w. L.from_memory_lem rgb.rgb (rgb.width * rgb.height * 3) rgb.width rgb.height 3 w)

  do_to_png-Held :
      (n image : ℕ) (path : Bytes) (q c : ℤ) → Keeps (Held n) (do_to_png v image path q c)
  unfolding do_to_png
  do_to_png-Held n image path q c =
      saved n (v.pngsave image (c_str path) q c) (L.pngsave_lem image (c_str path) q c)

  do_to_jpeg-Held :
      (n image : ℕ) (path : Bytes) (q : ℤ) (c : Bool) → Keeps (Held n) (do_to_jpeg v image path q c)
  unfolding do_to_jpeg
  do_to_jpeg-Held n image path q c =
      saved n (v.jpegsave image (c_str path) q c) (L.jpegsave_lem image (c_str path) q c)

  do_to_webp-Held :
      (n image : ℕ) (path : Bytes) (q c : ℤ) → Keeps (Held n) (do_to_webp v image path q c)
  unfolding do_to_webp
  do_to_webp-Held n image path q c =
      saved n (v.webpsave image (c_str path) q c) (L.webpsave_lem image (c_str path) q c)

  -- If libvips makes an image only where one is loaded, and gives one back where it is released, then each of
  -- the six conversions, of a file and of pixels to PNG, JPEG and WebP, holds as many images when it ends
  -- as when it began, whether it returns or throws.
  pub image_to_png-Held :
      (w : v.World) (path out_path : Bytes) (rgb : Rgb) (quality level : ℤ) (max_compress : Bool)
      → Same v held w (image_to_png v path out_path quality level w)
        × Same v held w (rgb_to_png v rgb out_path quality level w)
        × Same v held w (image_to_jpeg v path out_path quality max_compress w)
        × Same v held w (rgb_to_jpeg v rgb out_path quality max_compress w)
        × Same v held w (image_to_webp v path out_path quality level w)
        × Same v held w (rgb_to_webp v rgb out_path quality level w)
  unfolding image_to_png rgb_to_png image_to_jpeg rgb_to_jpeg image_to_webp rgb_to_webp
  image_to_png-Held w path out_path rgb quality level max_compress =
      let n = held w in
      let file = get_image-Held n path in
      let pixels = get_rgb_image-Held n rgb in
      let png = λ (i : ℕ). do_to_png-Held (suc n) i out_path quality level in
      let jpeg = λ (i : ℕ). do_to_jpeg-Held (suc n) i out_path quality max_compress in
      let webp = λ (i : ℕ). do_to_webp-Held (suc n) i out_path quality level in
      (
        kept n _ _ file png w refl,
        kept n _ _ pixels png w refl,
        kept n _ _ file jpeg w refl,
        kept n _ _ pixels jpeg w refl,
        kept n _ _ file webp w refl,
        kept n _ _ pixels webp w refl,
      )
