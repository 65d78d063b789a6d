-- ===== src/Font.antt =====
-- src/font.cpp: subsets of fonts, and the WOFF2 format.
pub mod Subset
use klib.Base.{
  ℕ, Bool, true, false, Option, none, some, List, [], ◌∷◌, Bytes, codes, ◌==◌, length,
  if◌then◌else◌,
}
use klib.Base.Int.{ℤ, int32, ◌==ℤ◌}
use klib.Base.Buffer.{resize, overwrite}
use klib.Exception.{runtime_error, Result, ok, throw, terminated}

-- The parts of sfntly and subtly that the code calls. `load_font` gives the first font of some bytes;
-- where there is none it reads behind an empty vector. `subset` takes the test of an `AcceptSet`.
pub record Sfntly : Type 1 where
  pub Font : Type 0
  pub load_font : Bytes → Option Font
  pub num_tables : Font → ℕ
  pub subset : Font → (ℤ → Bool) → Option Font
  pub serialize : Font → Bytes

-- `sfntly::IntegerSet` with its `insert` and `find`.
unfoldable pub has_character : ℤ → List ℤ → Bool
unfolding ◌==ℤ◌
has_character c [] = false
has_character c (d ∷ characters) =
    let rest = has_character c characters in if d ==ℤ c then true else rest

unfoldable pub insert_all : List ℕ → List ℤ → List ℤ
insert_all [] characters = characters
insert_all (unicode ∷ unicodes) characters = insert_all unicodes (int32 unicode ∷ characters)

module _ (s : Sfntly) where
  abbrev pub serialized : Option s.Font → Result Bytes
  serialized none = throw (runtime_error (codes "Cannot create subset") [])
  serialized (some new_font) = ok (s.serialize new_font)

  abbrev pub subset_of : Option s.Font → List ℕ → Result Bytes
  subset_of none unicodes = terminated
  subset_of (some font) unicodes =
      if s.num_tables font == 0
      then throw (runtime_error (codes "Could not load font") [])
      else serialized (s.subset font (λ c. has_character c (insert_all unicodes [])))

  unfoldable pub ttf_subset : Bytes → List ℕ → Result Bytes
  unfolding has_character insert_all
  ttf_subset ttf_font unicodes = subset_of (s.load_font ttf_font) unicodes

-- The functions of the WOFF2 library. `convert_ttf` takes the data, the room and the quality, and gives whether it
-- succeeded and the bytes that it writes; `convert_woff2` writes into a string and gives the string.
pub record Woff2 : Type 0 where
  pub max_compressed_size : Bytes → ℕ
  pub convert_ttf : Bytes → ℕ → ℕ → Bool × Bytes
  pub final_size : Bytes → ℕ
  pub convert_woff2 : Bytes → Bytes → Bool × Bytes

abbrev pub brotli_quality : ℕ
brotli_quality = 6

module _ (f : Woff2) where
  abbrev pub compressed : Bool × Bytes → Bytes → Result Bytes
  compressed (false, out) result = throw (runtime_error (codes "ConvertTTFToWOFF() failed") [])
  compressed (true, out) result = ok (resize (length out) (overwrite out result))

  -- The last `resize` is to the size that the library stored.
  unfoldable pub ttf_to_woff2 : Bytes → Result Bytes
  unfolding resize overwrite
  ttf_to_woff2 ttf_font =
      let max_size = f.max_compressed_size ttf_font in
      compressed (f.convert_ttf ttf_font max_size brotli_quality) (resize max_size [])

  abbrev pub expanded : Bool × Bytes → Result Bytes
  expanded (false, result) = throw (runtime_error (codes "ConvertWOFF2ToTTF() failed") [])
  expanded (true, result) = ok result

  unfoldable pub woff2_to_ttf : Bytes → Result Bytes
  unfolding resize
  woff2_to_ttf woff2_font =
      let size = f.final_size woff2_font in
      if size == 0
      then throw (runtime_error (codes "ComputeWOFF2FinalSize() failed") [])
      else expanded (f.convert_woff2 woff2_font (resize size []))
