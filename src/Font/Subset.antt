-- ===== src/Font/Subset.antt =====
-- Which characters a subset of src/font.cpp covers, and the way from TTF to WOFF2 and back.
use klib.Base.{
  ℕ, ◌<◌, ◌^◌, ◌≡◌, ◌≢◌, ◌↔◌, ◌⊎◌, refl, ap, Bool, true, false, some, List, [], ◌∷◌, Bytes, All,
  arith, ◌==◌,
}
use klib.Base.Int.{ℤ, pos}
use klib.Base.Buffer.{resize, resize-overwrite}
use klib.Exception.{ok}
use klib.Font.{Sfntly, Woff2, brotli_quality, ttf_to_woff2, woff2_to_ttf}

-- `unicodes` has the code point `u`.
abbrev pub Has : ℕ → List ℕ → Type 0
Has u [] = ⊥
Has u (v ∷ unicodes) = (v ≡ u) ⊎ Has u unicodes

-- `Covers font u`: the Windows BMP character map of the font has the code point `u`. That map is the one
-- that subtly reads and writes, in format 4, whose last segment is for 0xffff. Of the code points below that a
-- subset covers those of the font that the test takes, and a font that is written and read again covers
-- the same.
pub record IsSfntly (s : Sfntly) (Covers : s.Font → ℕ → Type 0) : Type 0 where
  pub subset_lem :
      (font new_font : s.Font) (test : ℤ → Bool)
      → s.subset font test ≡ some new_font
      → (u : ℕ) → u < 0xffff
      → Covers new_font u ↔ (Covers font u × test (pos u) ≡ true)
  pub serialize_lem :
      (font : s.Font)
      → (read : s.Font) × (s.load_font (s.serialize font) ≡ some read)
        × ((u : ℕ) → Covers read u ↔ Covers font u)

abbrev Small : List ℕ → Type 0
Small = All (λ v. v < 2 ^ 31)

-- The fonts read from `out` and from the data exist, and the first covers, of the code points below 0xffff,
-- those that the second covers and `unicodes` has.
abbrev pub IsSubset : (s : Sfntly) → (s.Font → ℕ → Type 0) → Bytes → List ℕ → Bytes → Type 0
IsSubset s Covers data_bytes unicodes out =
    (font : s.Font) × (read : s.Font) × (s.load_font data_bytes ≡ some font)
    × (s.load_font out ≡ some read)
    × ((u : ℕ) → u < 0xffff → Covers read u ↔ (Covers font u × Has u unicodes))

-- What the WOFF2 library promises of a font and its compressed form: the room is enough, and the
-- compressed form is expanded, in a string of the size that the library computes, to the same font.
pub record IsWoff2 (f : Woff2) (Same : Bytes → Bytes → Type 0) : Type 0 where
  pub convert_woff2_lem :
      (ttf_font out : Bytes)
      → f.convert_ttf ttf_font (f.max_compressed_size ttf_font) brotli_quality ≡ (true, out)
      → (f.final_size out ≢ 0)
        × ((back : Bytes) × (f.convert_woff2 out (resize (f.final_size out) []) ≡ (true, back))
            × Same ttf_font back)

-- With a WOFF2 library that does what `IsWoff2` says: where it compresses a font, `ttf_to_woff2` returns
-- exactly the bytes that it wrote, and `woff2_to_ttf` gives the same font from them.
pub woff2_to_ttf-ttf_to_woff2 :
    (f : Woff2) (Same : Bytes → Bytes → Type 0)
    → IsWoff2 f Same
    → (ttf_font out : Bytes)
    → f.convert_ttf ttf_font (f.max_compressed_size ttf_font) brotli_quality ≡ (true, out)
    → (ttf_to_woff2 f ttf_font ≡ ok out)
      × ((back : Bytes) × (woff2_to_ttf f out ≡ ok back) × Same ttf_font back)
unfolding ttf_to_woff2 woff2_to_ttf
woff2_to_ttf-ttf_to_woff2 f Same W ttf_font out made =
    let (some_size, (back, turned, same)) = W.convert_woff2_lem ttf_font out made in
    let full : (f.final_size out == 0) ≡ false = ground arith in
    (
      rw made (ap ok (resize-overwrite out (resize (f.max_compressed_size ttf_font) []))),
      (back, rw (full, turned) refl, same),
    )
