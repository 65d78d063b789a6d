-- ===== src/Crypto/Aes/RoundTrip.antt =====
-- The layout that `aes_256_encrypt` of src/crypto.cpp makes and `aes_256_decrypt` takes apart.
use klib.Base.{
  ◌%◌, ◌≤◌, ℕ, ◌+◌, ◌-◌, ◌^◌, ◌<◌, ◌≡◌, refl, sym, ap, ◌∙◌, false, none, some, [], ◌++◌, append-nil,
  append_assoc, arith, Bytes, length, length-append, take-length-append, drop-length-append,
}
use klib.Exception.{Error, ok, throw}
use klib.Util.Random.{Rand, IsSeeded, generate_random_bytes_lem}
use klib.Crypto.Evp.{AesMode, gcm, cbc, Evp, Session, AesCipher, IsAesCipher, IsEvp, largest_input}
use klib.Crypto.Cipher.{whole, aes_256_crypt}
use klib.Crypto.Cipher.Outcome.{
  crypt_seal_gcm, crypt_seal_cbc, crypt_unseal_gcm, crypt_unseal_cbc, crypt_refused_gcm,
}
use klib.Crypto.Aes.{
  span, first, encrypt_with, mode_iv_size, aes_256_encrypt, gcm_data_size, cbc_data_size,
  aes_256_decrypt, gcm_tag_size,
}

span_at :
    (offset size : ℕ) (a b t s : Bytes)
    → offset % 2 ^ 64 ≡ length a
    → size ≡ length b
    → s ≡ a ++ (b ++ t)
    → span offset size s ≡ whole b
unfolding span
span_at offset size a b t s p q e =
    rw (p, q, e, drop-length-append a (b ++ t), take-length-append b t)
      (ground (arith, length-append a (b ++ t), length-append b t))

-- The size of the span between the parts that stand at the two ends, as the code computes it.
abbrev pub data_size : AesMode → Bytes → ℕ
data_size gcm = gcm_data_size
data_size cbc = cbc_data_size

mode_iv_size_small : (mode : AesMode) → mode_iv_size mode < 2 ^ 63
mode_iv_size_small gcm = omega arith
mode_iv_size_small cbc = omega arith

abbrev pub tag_size : AesMode → ℕ
tag_size gcm = gcm_tag_size
tag_size cbc = 0

module _ (e : Evp) (k : AesCipher) (Has : e.Ctx → Session → Type 0) (L : IsEvp e k Has)
    (K : IsAesCipher k) (c : e.Ctx) (fresh : e.ctx_new ≡ some c) (error : Bytes) where
  decrypt_gcm :
      (iv text tag key aad : Bytes)
      → length iv ≡ 12
      → length tag ≡ 16
      → length text < 2 ^ 64 - 28
      → aes_256_decrypt e error (iv ++ (text ++ tag)) key gcm aad
        ≡ first (aes_256_crypt e error (whole text) key (whole iv) aad (whole tag) gcm false)
  unfolding aes_256_decrypt
  decrypt_gcm iv text tag key aad iv_fits tag_fits small =
      let d = iv ++ (text ++ tag) in
      let sized : gcm_data_size d ≡ length text =
        unfold gcm_data_size in
        omega (arith, length-append iv (text ++ tag), length-append text tag) in
      rw
        (
          sized,
          span_at 12 (length text) iv text tag d (omega arith) refl refl,
          span_at 0 12 [] iv (text ++ tag) d (omega arith) (sym iv_fits) refl,
          span_at (12 + length text) 16 (iv ++ text) tag [] d (omega (arith, length-append iv text))
              (sym tag_fits)
              (sym (append_assoc iv text tag) ∙ ap (λ t. (iv ++ text) ++ t) (sym (append-nil tag))),
        )
        refl

  decrypt_cbc :
      (iv text key aad : Bytes)
      → length iv ≡ 16
      → length text < 2 ^ 64 - 28
      → aes_256_decrypt e error (iv ++ text) key cbc aad
        ≡ first (aes_256_crypt e error (whole text) key (whole iv) [] (whole []) cbc false)
  unfolding aes_256_decrypt
  decrypt_cbc iv text key aad iv_fits small =
      let d = iv ++ text in
      let sized : cbc_data_size d ≡ length text =
        unfold cbc_data_size in omega (arith, length-append iv text) in
      rw
        (
          sized,
          span_at 16 (length text) iv text [] d (omega arith) refl
              (ap (λ t. iv ++ t) (sym (append-nil text))),
          span_at 0 16 [] iv text d (omega arith) (sym iv_fits) refl,
        )
        refl

  encrypt_sealed :
      (mode : AesMode) (iv d key aad : Bytes)
      → length key ≡ 32
      → length iv ≡ mode_iv_size mode
      → length d ≤ 2 ^ 36 - 64
      → length aad < 2 ^ 31
      → (text : Bytes) × (encrypt_with e error mode iv d key aad ≡ ok text)
        × (aes_256_decrypt e error text key mode aad ≡ ok d)
  unfolding encrypt_with
  encrypt_sealed gcm iv d key aad size fits small short =
      let (text, tag) = k.seal gcm key iv aad d in
      let tag_fits = K.tag_gcm key iv aad d in
      let made =
        crypt_seal_gcm e k Has L K c fresh error key size d iv aad fits (omega arith) short in
      let opened =
        crypt_unseal_gcm e k Has L K c fresh error key size text iv aad tag d fits
          (omega (arith, K.length-seal gcm key iv aad d)) short tag_fits
          (K.unseal-seal gcm key iv aad d) in
      (
        iv ++ (text ++ tag),
        rw made refl,
        decrypt_gcm iv text tag key aad fits tag_fits
              (omega (arith, K.length-seal gcm key iv aad d))
            ∙ ap first opened,
      )
  encrypt_sealed cbc iv d key aad size fits small short =
      let text = (k.seal cbc key iv [] d).0 in
      let made = crypt_seal_cbc e k Has L K c fresh error key size d iv fits (omega arith) in
      let inverse = rw (K.tag_cbc key iv [] d) at (K.unseal-seal cbc key iv [] d) in
      let opened =
        crypt_unseal_cbc e k Has L K c fresh error key size text iv d fits
          (omega (arith, K.length-seal cbc key iv [] d)) inverse in
      (
        iv ++ text,
        rw made refl,
        decrypt_cbc iv text key aad fits (omega (arith, K.length-seal cbc key iv [] d))
            ∙ ap first opened,
      )

  -- With a cipher, a context and a generator that do what `IsAesCipher`, `IsEvp` and `IsSeeded` say, a
  -- key of 32 bytes, data of at most 2 ^ 36 - 64 bytes and additional data below 2 ^ 31 bytes: encryption
  -- returns in either mode, and decrypting what it returns with the same key and additional data gives the
  -- data back.
  pub aes_256_decrypt-aes_256_encrypt :
      (r : Rand)
      → IsSeeded r
      → (mode : AesMode) (d key aad : Bytes) (w : r.World) → length key ≡ 32
      → length d ≤ 2 ^ 36 - 64
      → length aad < 2 ^ 31
      → (text : Bytes) × (w' : r.World) × (aes_256_encrypt e error r d key mode aad w
          ≡ (ok text, w'))
        × (aes_256_decrypt e error text key mode aad ≡ ok d)
  unfolding aes_256_encrypt
  aes_256_decrypt-aes_256_encrypt r S mode d key aad w size small short =
      let (iv, w', made, fits) =
        generate_random_bytes_lem r S (mode_iv_size mode) w (mode_iv_size_small mode) in
      let (text, sealed, opened) = encrypt_sealed mode iv d key aad size fits small short in
      (text, w', rw (made, sealed) refl, opened)

  -- With a cipher and a context that do what `IsAesCipher` and `IsEvp` say, a key of 32 bytes, and a
  -- message of a vector of 12 bytes, a text of at most 2 ^ 36 - 32 bytes and a tag of 16 bytes, with
  -- additional data below 2 ^ 31 bytes: if the cipher refuses them, decryption throws.
  pub aes_256_decrypt_refused :
      (iv text tag key aad : Bytes)
      → length key ≡ 32
      → length iv ≡ 12
      → length tag ≡ 16
      → length text ≤ largest_input
      → length aad < 2 ^ 31
      → k.unseal gcm key iv aad tag text ≡ none
      → (x : Error) × (aes_256_decrypt e error (iv ++ (text ++ tag)) key gcm aad ≡ throw x)
  aes_256_decrypt_refused iv text tag key aad size fits tag_fits small short closed =
      let (x, thrown) =
        crypt_refused_gcm e k Has L K c fresh error key size text iv aad tag fits small short
          tag_fits closed in
      (x, decrypt_gcm iv text tag key aad fits tag_fits (omega arith) ∙ ap first thrown)
