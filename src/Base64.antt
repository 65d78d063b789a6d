-- ===== src/Base64.antt =====
-- src/base64.cpp: Base64 by fastbase64 and by BoringSSL.
pub mod RoundTrip
use klib.Base.{
  ℕ, ◌+◌, ◌-◌, ◌*◌, ◌/◌, ◌^◌, Bool, true, false, not, Option, none, some, [], Bytes, length, ltb,
  ◌==◌, codes, if◌then◌else◌,
}
use klib.Base.Buffer.{resize, overwrite}
use klib.Exception.{runtime_error, ok, terminated, M, ◌>>=◌, ◌>>◌, return, throw_if}
use klib.Util.Random.{sized}

-- The coders of the two libraries: what they give back, a length or a status, and the bytes that they write.
-- `decoded_length` may refuse a length, and `decode_base64` gives a status and a length.
pub record Coders : Type 0 where
  pub avx2_encode : Bytes → ℕ × Bytes
  pub avx2_decode : Bytes → ℕ × Bytes
  pub encoded_length : ℕ → ℕ
  pub encode_block : Bytes → ℕ × Bytes
  pub decoded_length : ℕ → Option ℕ
  pub decode_base64 : Bytes → ℕ → (ℕ × ℕ) × Bytes
  pub error_string : Bytes

-- The macros of modp_b64.h.
abbrev pub modp_b64_encode_len : ℕ → ℕ
modp_b64_encode_len n = (n + 2) / 3 * 4 + 1

abbrev pub modp_b64_decode_len : ℕ → ℕ
modp_b64_decode_len n = n / 4 * 3 + 2

abbrev pub modp_b64_error : ℕ
modp_b64_error = 2 ^ 64 - 1

-- The callee writes `out` into the buffer, which has to be large enough.
abbrev pub fill : {W : Type 0} → Bytes → Bytes → M W Bytes
fill out buffer w =
    if ltb (length buffer) (length out) then (terminated, w) else (ok (overwrite out buffer), w)

-- The size that `EVP_DecodedLength` sets. The code does not look at what it returns: when the length is
-- refused, `max_len` is read without a value.
abbrev pub max_len_of : {W : Type 0} → Option ℕ → M W ℕ
max_len_of none w = (terminated, w)
max_len_of (some n) w = (ok n, w)

module _ (c : Coders) {W : Type 0} where
  unfoldable pub fast_base64_encode : Bytes → M W Bytes
  fast_base64_encode s = do
    buffer ← sized (modp_b64_encode_len (length s))
    let (len, out) = c.avx2_encode s
    result ← fill out buffer
    throw_if (len == modp_b64_error) (runtime_error (codes "fast_avx2_base64_encode() failed") [])
    return (resize len result)

  unfoldable pub fast_base64_decode : Bytes → M W Bytes
  fast_base64_decode s = do
    buffer ← sized (modp_b64_decode_len (length s))
    let (len, out) = c.avx2_decode s
    result ← fill out buffer
    throw_if (len == modp_b64_error) (runtime_error (codes "fast_avx2_base64_decode() failed") [])
    return (resize len result)

  unfoldable pub secure_base64_encode : Bytes → M W Bytes
  secure_base64_encode s = do
    buffer ← sized (c.encoded_length (length s))
    let (len, out) = c.encode_block s
    result ← fill out buffer
    return (resize len result)

  unfoldable pub secure_base64_decode : Bytes → M W Bytes
  secure_base64_decode s = do
    max_len ← max_len_of (c.decoded_length (length s))
    buffer ← sized max_len
    let ((rc, len), out) = c.decode_base64 s max_len
    result ← fill out buffer
    throw_if (not (rc == 1)) (runtime_error c.error_string [])
    return (resize len result)
