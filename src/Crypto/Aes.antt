-- ===== src/Crypto/Aes.antt =====
-- src/crypto.cpp: `aes_256_encrypt`, `aes_256_decrypt` and `aes_256_cbc_decrypt_no_iv`.
pub mod RoundTrip
use klib.Base.{
  ℕ, ◌+◌, ◌-◌, ◌%◌, ◌^◌, Bool, true, false, Option, none, some, [], ◌++◌, Bytes, length, take, drop,
  leb, if◌then◌else◌,
}
use klib.Exception.{Result, ok, throw, terminated, M, ◌>>=◌, ◌>>◌, return}
use klib.Crypto.Evp.{AesMode, gcm, cbc, Evp}
use klib.Crypto.Cipher.{Span, whole, aes_256_crypt}
use klib.Util.Random.{Rand, generate_random_bytes}

abbrev pub gcm_iv_size : ℕ
gcm_iv_size = 12

abbrev pub gcm_tag_size : ℕ
gcm_tag_size = 16

abbrev pub iv_size : ℕ
iv_size = 16

-- `a - b` on `std::size_t`
abbrev pub sub_size : ℕ → ℕ → ℕ
sub_size a b = (a + 2 ^ 64 - b) % 2 ^ 64

-- `std::span(data_ptr + offset, size)`, on a machine of 64 bits.
unfoldable pub span : ℕ → ℕ → Bytes → Span
span offset size d =
    let start = offset % 2 ^ 64 in
    record {
      size = size;
      content = if leb (start + size) (length d) then some (take size (drop start d)) else none;
    }

abbrev pub first : Result (Bytes × Bytes) → Result Bytes
first (ok (out, tag)) = ok out
first (throw x) = throw x
first terminated = terminated

abbrev pub joined : Bytes → Result (Bytes × Bytes) → Result Bytes
joined iv (ok (out, tag)) = ok (iv ++ (out ++ tag))
joined iv (throw x) = throw x
joined iv terminated = terminated

abbrev pub prefixed : Bytes → Result Bytes → Result Bytes
prefixed iv (ok out) = ok (iv ++ out)
prefixed iv (throw x) = throw x
prefixed iv terminated = terminated

abbrev pub mode_iv_size : AesMode → ℕ
mode_iv_size gcm = gcm_iv_size
mode_iv_size cbc = iv_size

unfoldable pub gcm_data_size : Bytes → ℕ
gcm_data_size d = sub_size (sub_size (length d) gcm_iv_size) gcm_tag_size

unfoldable pub cbc_data_size : Bytes → ℕ
cbc_data_size d = sub_size (length d) iv_size

module _ (e : Evp) (error : Bytes) where
  unfoldable pub encrypt_with : AesMode → Bytes → Bytes → Bytes → Bytes → Result Bytes
  encrypt_with gcm iv d key aad =
      joined iv (aes_256_crypt e error (whole d) key (whole iv) aad (whole []) gcm true)
  encrypt_with cbc iv d key aad =
      prefixed iv (first (aes_256_crypt e error (whole d) key (whole iv) [] (whole []) cbc true))

  unfoldable pub aes_256_encrypt : (r : Rand) → Bytes → Bytes → AesMode → Bytes → M r.World Bytes
  unfolding encrypt_with
  aes_256_encrypt r d key mode aad = do
    iv ← generate_random_bytes r (mode_iv_size mode)
    λ w. (encrypt_with mode iv d key aad, w)

  unfoldable pub aes_256_decrypt : Bytes → Bytes → AesMode → Bytes → Result Bytes
  unfolding span
  aes_256_decrypt d key gcm aad =
      let data_size = gcm_data_size d in
      first (
        aes_256_crypt e error (span gcm_iv_size data_size d) key (span 0 gcm_iv_size d) aad
          (span (gcm_iv_size + data_size) gcm_tag_size d) gcm false)
  aes_256_decrypt d key cbc aad = first (
      aes_256_crypt e error (span iv_size (cbc_data_size d) d) key (span 0 iv_size d) [] (whole [])
        cbc false)

  unfoldable pub aes_256_cbc_decrypt_no_iv : Bytes → Bytes → Result Bytes
  aes_256_cbc_decrypt_no_iv d key =
      first (aes_256_crypt e error (whole d) key (whole []) [] (whole []) cbc false)
