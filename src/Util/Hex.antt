-- ===== src/Util/Hex.antt =====
-- src/util.cpp: `bytes_to_hex_string`, and `num_to_hex_string` of src/hash.cpp. `fmt::format` is a
-- parameter.
use klib.Base.{
  ℕ, ◌+◌, ◌-◌, ◌*◌, ◌/◌, ◌%◌, ◌<◌, ◌≡◌, refl, ap, ◌∙◌, [], ◌∷◌, ◌++◌, arith, Bytes, All, length,
  ltb, if◌then◌else◌, append_assoc, append-nil,
}

-- The lower case hexadecimal digit of a number below 16.
abbrev pub hex_digit : ℕ → ℕ
hex_digit d = if ltb d 10 then b'0' + d else b'a' + (d - 10)

-- `fmt::format("{:02x}", byte)` and `fmt::format("{:x}", num)`
pub record Fmt : Type 0 where
  pub format_02x : ℕ → Bytes
  pub format_x : ℕ → Bytes

-- A byte is printed as its two digits.
pub record IsFmt (f : Fmt) : Type 0 where
  pub format_02x_lem :
      (b : ℕ) → b < 256 → f.format_02x b ≡ hex_digit (b / 16) ∷ hex_digit (b % 16) ∷ []

module _ (f : Fmt) where
  -- The loop, from the string so far.
  unfoldable pub append_hex : Bytes → Bytes → Bytes
  append_hex [] str = str
  append_hex (byte ∷ bytes) str = append_hex bytes (str ++ f.format_02x byte)

  unfoldable pub bytes_to_hex_string : Bytes → Bytes
  unfolding append_hex
  bytes_to_hex_string bytes = append_hex bytes []

  unfoldable pub num_to_hex_string : ℕ → Bytes
  num_to_hex_string num = f.format_x num

-- The number of a digit, and the bytes that a text of digits spells two by two.
abbrev pub digit_value : ℕ → ℕ
digit_value c = if ltb c b'a' then c - b'0' else c - b'a' + 10

pub unhex : Bytes → Bytes
unhex [] = []
unhex (c ∷ []) = []
unhex (c ∷ d ∷ s) = (digit_value c * 16 + digit_value d) ∷ unhex s

digit_value-hex_digit : (d : ℕ) → d < 16 → digit_value (hex_digit d) ≡ d
digit_value-hex_digit d h = ground arith

module _ (f : Fmt) (F : IsFmt f) where
  abbrev pair_of : ℕ → Bytes
  pair_of b = hex_digit (b / 16) ∷ hex_digit (b % 16) ∷ []

  hex_pairs : Bytes → Bytes
  hex_pairs [] = []
  hex_pairs (b ∷ bytes) = hex_digit (b / 16) ∷ hex_digit (b % 16) ∷ hex_pairs bytes

  append_hex-hex_pairs :
      (bytes str : Bytes)
      → All (λ b. b < 256) bytes
      → append_hex f bytes str ≡ str ++ hex_pairs bytes
  unfolding append_hex hex_pairs
  append_hex-hex_pairs [] str _ = rw append-nil
  append_hex-hex_pairs (b ∷ bytes) str (h, hs) = rw (F.format_02x_lem b h) (
      append_hex-hex_pairs bytes (str ++ pair_of b) hs
      ∙ append_assoc str (pair_of b) (hex_pairs bytes))

  unhex-hex_pairs : (bytes : Bytes) → All (λ b. b < 256) bytes → unhex (hex_pairs bytes) ≡ bytes
  unfolding unhex hex_pairs
  unhex-hex_pairs [] _ = refl
  unhex-hex_pairs (b ∷ bytes) (h, hs) =
      rw
        (
          digit_value-hex_digit (b / 16) (omega arith),
          digit_value-hex_digit (b % 16) (omega arith),
          unhex-hex_pairs bytes hs,
        )
        (ap (λ t. t ∷ bytes) (omega arith))

  length-hex_pairs : (bytes : Bytes) → length (hex_pairs bytes) ≡ 2 * length bytes
  unfolding hex_pairs
  length-hex_pairs [] = refl
  length-hex_pairs (b ∷ bytes) = omega (arith, length-hex_pairs bytes)

  -- With a fmt that does what `IsFmt` says, and for bytes below 256: the text has two digits for
  -- each byte, and reading them two by two gives the bytes back.
  pub unhex-bytes_to_hex_string :
      (bytes : Bytes)
      → All (λ b. b < 256) bytes
      → (length (bytes_to_hex_string f bytes) ≡ 2 * length bytes)
        × (unhex (bytes_to_hex_string f bytes) ≡ bytes)
  unfolding bytes_to_hex_string
  unhex-bytes_to_hex_string bytes h =
      rw (append_hex-hex_pairs bytes [] h) (length-hex_pairs bytes, unhex-hex_pairs bytes h)
