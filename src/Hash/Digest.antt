-- ===== src/Hash/Digest.antt =====
-- src/hash.cpp: the checksums and the digests, and their hexadecimal texts.
use klib.Base.{
  ℕ, ◌*◌, ◌<◌, ◌≡◌, refl, ap, sym, ◌∙◌, Bool, Option, none, some, [], Bytes, length, All, codes,
  true, leb, arith, if◌then◌else◌,
}
use klib.Base.Buffer.{resize, overwrite, overwrite_whole, length-resize}
use klib.Exception.{runtime_error, Result, ok, throw, terminated, M, ◌>>=◌, ◌>>◌, return, throw_if}
use klib.Util.Hex.{
  Fmt, IsFmt, bytes_to_hex_string, num_to_hex_string, unhex, unhex-bytes_to_hex_string,
}

-- The functions of xxHash, zlib and BoringSSL. `State` is what an `XXH3_state_t` holds; its functions
-- say whether they fail. A `none` for the text is a null pointer.
pub record Hashes : Type 1 where
  pub State : Type 0
  pub xxh3_reset : State → Bool × State
  pub xxh3_update : Bytes → State → Bool × State
  pub xxh3_digest : State → ℕ
  pub crc32_z : ℕ → Option Bytes → ℕ
  pub adler32_z : ℕ → Option Bytes → ℕ
  pub md5 : Bytes → Bytes
  pub sha1 : Bytes → Bytes
  pub sha224 : Bytes → Bytes
  pub sha256 : Bytes → Bytes
  pub sha384 : Bytes → Bytes
  pub sha512 : Bytes → Bytes

-- What a digest function writes to a buffer. A write behind its end is undefined.
abbrev pub written : Bytes → Bytes → Result Bytes
written digest result =
    if leb (length digest) (length result) then ok (overwrite digest result) else terminated

abbrev pub in_hex : Fmt → Result Bytes → Result Bytes
in_hex f (ok bytes) = ok (bytes_to_hex_string f bytes)
in_hex f (throw x) = throw x
in_hex f terminated = terminated

module _ (h : Hashes) where
  abbrev xxh3 : {A : Type 0} → (h.State → A × h.State) → M h.State A
  xxh3 f w = (ok (f w).0, (f w).1)

  -- `status1` is static: the state is the one that the call before left.
  unfoldable pub fast_hash : Bytes → M h.State ℕ
  fast_hash message = do
    reset_failed ← xxh3 h.xxh3_reset
    throw_if reset_failed (runtime_error (codes "XXH3_64bits_reset() failed") [])
    update_failed ← xxh3 (h.xxh3_update message)
    throw_if update_failed (runtime_error (codes "XXH3_64bits_update() failed") [])
    xxh3 (λ w. (h.xxh3_digest w, w))

  unfoldable pub fast_hash_hex : Fmt → Bytes → M h.State Bytes
  fast_hash_hex f message = do num ← fast_hash message; return (num_to_hex_string f num)

  unfoldable pub crc32 : Bytes → ℕ
  crc32 message = h.crc32_z (h.crc32_z 0 none) (some message)

  unfoldable pub crc32_hex : Fmt → Bytes → Bytes
  crc32_hex f message = num_to_hex_string f (crc32 message)

  unfoldable pub adler32 : Bytes → ℕ
  adler32 message = h.adler32_z (h.adler32_z 0 none) (some message)

  unfoldable pub adler32_hex : Fmt → Bytes → Bytes
  adler32_hex f message = num_to_hex_string f (adler32 message)

  unfoldable pub md5 : Bytes → Result Bytes
  md5 message = written (h.md5 message) (resize 16 [])

  unfoldable pub md5_hex : Fmt → Bytes → Result Bytes
  md5_hex f message = in_hex f (md5 message)

  unfoldable pub sha1 : Bytes → Result Bytes
  sha1 message = written (h.sha1 message) (resize 20 [])

  unfoldable pub sha1_hex : Fmt → Bytes → Result Bytes
  sha1_hex f message = in_hex f (sha1 message)

  unfoldable pub sha224 : Bytes → Result Bytes
  sha224 message = written (h.sha224 message) (resize 28 [])

  unfoldable pub sha224_hex : Fmt → Bytes → Result Bytes
  sha224_hex f message = in_hex f (sha224 message)

  unfoldable pub sha256 : Bytes → Result Bytes
  sha256 message = written (h.sha256 message) (resize 32 [])

  unfoldable pub sha256_hex : Fmt → Bytes → Result Bytes
  sha256_hex f message = in_hex f (sha256 message)

  unfoldable pub sha384 : Bytes → Result Bytes
  sha384 message = written (h.sha384 message) (resize 48 [])

  unfoldable pub sha384_hex : Fmt → Bytes → Result Bytes
  sha384_hex f message = in_hex f (sha384 message)

  unfoldable pub sha512 : Bytes → Result Bytes
  sha512 message = written (h.sha512 message) (resize 64 [])

  unfoldable pub sha512_hex : Fmt → Bytes → Result Bytes
  sha512_hex f message = in_hex f (sha512 message)

-- A digest function writes bytes, `n` of them.
abbrev pub IsDigest : ℕ → (Bytes → Bytes) → Type 0
IsDigest n digest =
    (message : Bytes) → (length (digest message) ≡ n) × All (λ b. b < 256) (digest message)

-- The digests have the lengths of their standards, and a reset forgets what was hashed before.
pub record IsHashes (h : Hashes) : Type 0 where
  pub reset_lem : (w w' : h.State) → h.xxh3_reset w ≡ h.xxh3_reset w'
  pub md5_lem : IsDigest 16 h.md5
  pub sha1_lem : IsDigest 20 h.sha1
  pub sha224_lem : IsDigest 28 h.sha224
  pub sha256_lem : IsDigest 32 h.sha256
  pub sha384_lem : IsDigest 48 h.sha384
  pub sha512_lem : IsDigest 64 h.sha512

-- The code returns a text that spells `digest` with two digits for each of its `n` bytes.
abbrev pub Spells : ℕ → Result Bytes → Bytes → Type 0
Spells n result digest =
    (hex : Bytes) × (result ≡ ok hex) × (length hex ≡ 2 * n) × (unhex hex ≡ digest)

spelled :
    (f : Fmt)
    → IsFmt f
    → (n : ℕ) (digest : Bytes) → length digest ≡ n
    → All (λ b. b < 256) digest
    → Spells n (in_hex f (written digest (resize n []))) digest
spelled f F n digest size bytes =
    let whole : overwrite digest (resize n []) ≡ digest =
      ap (λ k. overwrite digest (resize k [])) (sym size) ∙ overwrite_whole digest in
    let fits : leb (length digest) (length (resize n [])) ≡ true =
      ground (arith, length-resize n []) in
    let (long, same) = unhex-bytes_to_hex_string f F digest bytes in
    (bytes_to_hex_string f digest, rw (fits, whole) refl, long ∙ ap (λ k. 2 * k) size, same)

module _ (h : Hashes) (H : IsHashes h) where
  -- If a reset of the xxHash state forgets what was hashed before, `fast_hash` and `fast_hash_hex` give the
  -- same result, or the same exception, from any two states that earlier calls may have left.
  pub fast_hash_again :
      (f : Fmt) (message : Bytes) (w w' : h.State)
      → ((fast_hash h message w).0 ≡ (fast_hash h message w').0)
        × ((fast_hash_hex h f message w).0 ≡ (fast_hash_hex h f message w').0)
  unfolding fast_hash fast_hash_hex
  fast_hash_again f message w w' = rw (H.reset_lem w w') (refl, refl)

  -- With digest functions of the standard lengths and a fmt that does what `IsFmt` says, each of the six
  -- hexadecimal digests has two digits for each byte of the digest, 32, 40, 56, 64, 96 and 128, and
  -- reading them two by two gives the digest that the library computes of the data.
  pub unhex-md5_hex :
      (f : Fmt)
      → IsFmt f
      → (message : Bytes)
      → Spells 16 (md5_hex h f message) (h.md5 message)
        × Spells 20 (sha1_hex h f message) (h.sha1 message)
        × Spells 28 (sha224_hex h f message) (h.sha224 message)
        × Spells 32 (sha256_hex h f message) (h.sha256 message)
        × Spells 48 (sha384_hex h f message) (h.sha384 message)
        × Spells 64 (sha512_hex h f message) (h.sha512 message)
  unfolding md5_hex sha1_hex sha224_hex sha256_hex sha384_hex sha512_hex md5 sha1 sha224 sha256
      sha384 sha512
  unhex-md5_hex f F message =
      let (a, a') = H.md5_lem message in
      let (b, b') = H.sha1_lem message in
      let (c, c') = H.sha224_lem message in
      let (d, d') = H.sha256_lem message in
      let (e, e') = H.sha384_lem message in
      let (g, g') = H.sha512_lem message in
      (
        spelled f F 16 (h.md5 message) a a',
        spelled f F 20 (h.sha1 message) b b',
        spelled f F 28 (h.sha224 message) c c',
        spelled f F 32 (h.sha256 message) d d',
        spelled f F 48 (h.sha384 message) e e',
        spelled f F 64 (h.sha512 message) g g',
      )
