-- ===== src/Unicode/Convert.antt =====
-- src/unicode.cpp: the validation of texts, and the conversions between UTF-8, UTF-16 and UTF-32 by simdutf.
use klib.Base.{
  ℕ, ◌≡◌, ap, Bool, true, false, not, List, [], ◌∷◌, arith, Bytes, length, ltb, ◌==◌, codes,
  if◌then◌else◌,
}
use klib.Base.Buffer.{resize, overwrite, overwrite_whole}
use klib.Exception.{runtime_error, Result, ok, throw, terminated}

-- A conversion gives the number of units that it writes, and the units.
abbrev pub Conversion : Type 0
Conversion = List ℕ → ℕ × List ℕ

pub record Simdutf : Type 0 where
  pub validate_utf8 : List ℕ → Bool
  pub validate_utf16 : List ℕ → Bool
  pub validate_utf32 : List ℕ → Bool
  pub utf16_length_from_utf8 : List ℕ → ℕ
  pub utf8_length_from_utf16 : List ℕ → ℕ
  pub utf32_length_from_utf8 : List ℕ → ℕ
  pub utf8_length_from_utf32 : List ℕ → ℕ
  pub convert_valid_utf8_to_utf16 : Conversion
  pub convert_valid_utf16_to_utf8 : Conversion
  pub convert_valid_utf8_to_utf32 : Conversion
  pub convert_valid_utf32_to_utf8 : Conversion

-- A buffer of `result_size` units that the conversion writes into, and the test of the number of units.
-- Writing behind the buffer ends the process.
abbrev pub filled : (what : Bytes) (result_size check : ℕ) (out : List ℕ) → Result (List ℕ)
filled what result_size check out =
    if ltb result_size (length out)
    then terminated
    else (if not (check == result_size)
        then throw (runtime_error what [])
        else ok (overwrite out (resize result_size [])))

module _ (u : Simdutf) where
  unfoldable pub validate_utf8 : List ℕ → Bool
  validate_utf8 str = u.validate_utf8 str

  unfoldable pub validate_utf16 : List ℕ → Bool
  validate_utf16 str = u.validate_utf16 str

  unfoldable pub validate_utf32 : List ℕ → Bool
  validate_utf32 str = u.validate_utf32 str

  unfoldable pub utf8_to_utf16 : List ℕ → Result (List ℕ)
  utf8_to_utf16 str =
      let result_size = u.utf16_length_from_utf8 str in
      let (check, out) = u.convert_valid_utf8_to_utf16 str in
      filled (codes "convert_utf8_to_utf16() failed") result_size check out

  unfoldable pub utf16_to_utf8 : List ℕ → Result (List ℕ)
  utf16_to_utf8 str =
      let result_size = u.utf8_length_from_utf16 str in
      let (check, out) = u.convert_valid_utf16_to_utf8 str in
      filled (codes "convert_utf16_to_utf8() failed") result_size check out

  unfoldable pub utf8_to_utf32 : List ℕ → Result (List ℕ)
  utf8_to_utf32 str =
      let result_size = u.utf32_length_from_utf8 str in
      let (check, out) = u.convert_valid_utf8_to_utf32 str in
      filled (codes "convert_utf8_to_utf32() failed") result_size check out

  unfoldable pub utf32_to_utf8 : List ℕ → Result (List ℕ)
  utf32_to_utf8 str =
      let result_size = u.utf8_length_from_utf32 str in
      let (check, out) = u.convert_valid_utf32_to_utf8 str in
      filled (codes "convert_utf32_to_utf8() failed") result_size check out

  -- The overload for one code point.
  unfoldable pub code_point_to_utf8 : ℕ → Result (List ℕ)
  code_point_to_utf8 code_point = utf32_to_utf8 (code_point ∷ [])

-- `size` and `convert` know how a text of code points that is spelled one way, `source`, is spelled another
-- way, `target`.
pub record Converts (size : List ℕ → ℕ) (convert : Conversion) (source target : List ℕ)
    : Type 0 where
  pub size_lem : size source ≡ length target
  pub check_lem : (convert source).0 ≡ length target
  pub out_lem : (convert source).1 ≡ target

-- simdutf converts the spellings of a text of code points, of those that `IsText` allows, into each other;
-- the code points themselves are the UTF-32 spelling.
pub record IsSimdutf (u : Simdutf) (IsText : List ℕ → Type 0) (utf8 utf16 : List ℕ → List ℕ)
    : Type 0 where
  pub utf8_to_utf16_lem :
      (t : List ℕ)
      → IsText t
      → Converts u.utf16_length_from_utf8 u.convert_valid_utf8_to_utf16 (utf8 t) (utf16 t)
  pub utf16_to_utf8_lem :
      (t : List ℕ)
      → IsText t
      → Converts u.utf8_length_from_utf16 u.convert_valid_utf16_to_utf8 (utf16 t) (utf8 t)
  pub utf8_to_utf32_lem :
      (t : List ℕ)
      → IsText t
      → Converts u.utf32_length_from_utf8 u.convert_valid_utf8_to_utf32 (utf8 t) t
  pub utf32_to_utf8_lem :
      (t : List ℕ)
      → IsText t
      → Converts u.utf8_length_from_utf32 u.convert_valid_utf32_to_utf8 t (utf8 t)

filled_ok :
    (what : Bytes) (size : List ℕ → ℕ) (convert : Conversion) (source target : List ℕ)
    → Converts size convert source target
    → filled what (size source) (convert source).0 (convert source).1 ≡ ok target
filled_ok what size convert source target C =
    let fits : ltb (length target) (length target) ≡ false = ground arith in
    let same : (length target == length target) ≡ true = ground arith in
    rw (C.size_lem, C.check_lem, C.out_lem, fits, same) (ap ok (overwrite_whole target))

module _ (u : Simdutf) (IsText : List ℕ → Type 0) (utf8 utf16 : List ℕ → List ℕ)
    (L : IsSimdutf u IsText utf8 utf16) where
  -- With a simdutf that converts the spellings of a text into each other: UTF-8 to UTF-16 and back, and UTF-8
  -- to UTF-32 and back, all return, with the spelling of the same text, and a single code point
  -- becomes the UTF-8 spelling of the text of that code point.
  pub utf16_to_utf8-utf8_to_utf16 :
      (t : List ℕ) (code_point : ℕ)
      → IsText t
      → IsText (code_point ∷ [])
      → (utf8_to_utf16 u (utf8 t) ≡ ok (utf16 t))
        × (utf16_to_utf8 u (utf16 t) ≡ ok (utf8 t))
        × (utf8_to_utf32 u (utf8 t) ≡ ok t)
        × (utf32_to_utf8 u t ≡ ok (utf8 t))
        × (code_point_to_utf8 u code_point ≡ ok (utf8 (code_point ∷ [])))
  unfolding utf8_to_utf16 utf16_to_utf8 utf8_to_utf32 utf32_to_utf8 code_point_to_utf8
  utf16_to_utf8-utf8_to_utf16 t code_point valid valid' = (
    filled_ok _ _ _ _ _ (L.utf8_to_utf16_lem t valid),
    filled_ok _ _ _ _ _ (L.utf16_to_utf8_lem t valid),
    filled_ok _ _ _ _ _ (L.utf8_to_utf32_lem t valid),
    filled_ok _ _ _ _ _ (L.utf32_to_utf8_lem t valid),
    filled_ok _ _ _ _ _ (L.utf32_to_utf8_lem (code_point ∷ []) valid'),
  )
