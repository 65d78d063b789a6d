-- ===== src/Base64/RoundTrip.antt =====
-- src/base64.cpp: the two encoders and the two decoders of src/base64.cpp agree.
use klib.Base.{
  ℕ, ◌+◌, ◌*◌, ◌/◌, ◌^◌, ◌≤◌, ◌<◌, ◌≡◌, refl, ap, ◌∙◌, false, some, [], ◌++◌, arith, Bytes, length,
  length-append, drop, take-length-append, ltb, leb, ◌==◌, append_assoc,
}
use klib.Base.Buffer.{resize, overwrite, resize_front, length-resize}
use klib.Exception.{ok}
use klib.Util.Random.{sized}
use klib.Base64.{
  Coders, modp_b64_encode_len, modp_b64_decode_len, modp_b64_error, fill, fast_base64_encode,
  fast_base64_decode, secure_base64_encode, secure_base64_decode,
}

-- A coder that gives back the length of `text`, and writes it and perhaps something behind it, no more than
-- `room` bytes in all.
pub record Writes (room : ℕ) (text : Bytes) (len : ℕ) (out : Bytes) : Type 0 where
  pub behind : Bytes
  pub len_lem : len ≡ length text
  pub out_lem : out ≡ text ++ behind
  pub fits : length out ≤ room

-- The coders follow one standard, which spells bytes as `spell` says, four characters for three bytes: each
-- encoder writes that text, and each decoder writes the bytes of such a text.
pub record IsBase64 (c : Coders) (spell : Bytes → Bytes) : Type 0 where
  pub length_lem : (s : Bytes) → length (spell s) ≡ (length s + 2) / 3 * 4
  pub encoded_length_lem : (n : ℕ) → c.encoded_length n ≡ (n + 2) / 3 * 4 + 1
  pub decoded_length_lem :
      (s : Bytes) → c.decoded_length (length (spell s)) ≡ some ((length s + 2) / 3 * 3)
  pub avx2_encode_lem :
      (s : Bytes)
      → Writes (modp_b64_encode_len (length s)) (spell s) (c.avx2_encode s).0 (c.avx2_encode s).1
  pub avx2_decode_lem :
      (s : Bytes)
      → Writes
          (modp_b64_decode_len (length (spell s)))
          s
          (c.avx2_decode (spell s)).0
          (c.avx2_decode (spell s)).1
  pub encode_block_lem :
      (s : Bytes)
      → Writes ((length s + 2) / 3 * 4 + 1) (spell s) (c.encode_block s).0 (c.encode_block s).1
  pub decode_base64_lem :
      (s : Bytes)
      → let room = (length s + 2) / 3 * 3 in
        ((c.decode_base64 (spell s) room).0.0 ≡ 1)
        × Writes room s (c.decode_base64 (spell s) room).0.1 (c.decode_base64 (spell s) room).1

module _ {W : Type 0} where
  sized_ok : (n : ℕ) (w : W) → n < 2 ^ 63 → sized n w ≡ (ok (resize n []), w)
  sized_ok n w h = let fits : leb (2 ^ 63) n ≡ false = ground arith in rw fits refl

  fill_ok :
      (n : ℕ) (out : Bytes) (w : W)
      → length out ≤ n
      → fill out (resize n []) w ≡ (ok (overwrite out (resize n [])), w)
  fill_ok n out w h =
      let fits : ltb (length (resize n [])) (length out) ≡ false =
        ground (arith, length-resize n []) in
      rw fits refl

-- Cutting the buffer behind the text.
cut :
    (n : ℕ) (text : Bytes) (len : ℕ) (out : Bytes)
    → Writes n text len out
    → resize len (overwrite out (resize n [])) ≡ text
unfolding overwrite
cut n text len out W =
    rw (W.out_lem, W.len_lem)
      (ap (resize (length text))
          (append_assoc text W.behind (drop (length (text ++ W.behind)) (resize n [])))
        ∙ resize_front (length text)
            (text ++ (W.behind ++ drop (length (text ++ W.behind)) (resize n [])))
            (omega (
              arith,
              length-append text (W.behind ++ drop (length (text ++ W.behind)) (resize n [])),
            ))
        ∙ take-length-append text (W.behind ++ drop (length (text ++ W.behind)) (resize n [])))

module _ (c : Coders) (spell : Bytes → Bytes) (B : IsBase64 c spell) {W : Type 0} where
  fast_encode :
      (s : Bytes) (w : W) → length s < 2 ^ 62 → fast_base64_encode c s w ≡ (ok (spell s), w)
  unfolding fast_base64_encode
  fast_encode s w small =
      let n = modp_b64_encode_len (length s) in
      let L = B.avx2_encode_lem s in
      let valid : ((c.avx2_encode s).0 == modp_b64_error) ≡ false =
        ground (arith, L.len_lem, B.length_lem s) in
      rw (sized_ok n w (omega arith), fill_ok n (c.avx2_encode s).1 w L.fits, valid)
        (ap (λ t. (ok t, w)) (cut n (spell s) (c.avx2_encode s).0 (c.avx2_encode s).1 L))

  fast_decode :
      (s : Bytes) (w : W) → length s < 2 ^ 62 → fast_base64_decode c (spell s) w ≡ (ok s, w)
  unfolding fast_base64_decode
  fast_decode s w small =
      let n = modp_b64_decode_len (length (spell s)) in
      let L = B.avx2_decode_lem s in
      let valid : ((c.avx2_decode (spell s)).0 == modp_b64_error) ≡ false =
        ground (arith, L.len_lem) in
      rw
        (
          sized_ok n w (omega (arith, B.length_lem s)),
          fill_ok n (c.avx2_decode (spell s)).1 w L.fits,
          valid,
        )
        (ap (λ t. (ok t, w)) (cut n s (c.avx2_decode (spell s)).0 (c.avx2_decode (spell s)).1 L))

  secure_encode :
      (s : Bytes) (w : W) → length s < 2 ^ 62 → secure_base64_encode c s w ≡ (ok (spell s), w)
  unfolding secure_base64_encode
  secure_encode s w small =
      let n = (length s + 2) / 3 * 4 + 1 in
      let L = B.encode_block_lem s in
      rw
        (
          B.encoded_length_lem (length s),
          sized_ok n w (omega arith),
          fill_ok n (c.encode_block s).1 w L.fits,
        )
        (ap (λ t. (ok t, w)) (cut n (spell s) (c.encode_block s).0 (c.encode_block s).1 L))

  secure_decode :
      (s : Bytes) (w : W) → length s < 2 ^ 62 → secure_base64_decode c (spell s) w ≡ (ok s, w)
  unfolding secure_base64_decode
  secure_decode s w small =
      let n = (length s + 2) / 3 * 3 in
      let (good, L) = B.decode_base64_lem s in
      rw
        (
          B.decoded_length_lem s,
          sized_ok n w (omega arith),
          fill_ok n (c.decode_base64 (spell s) n).1 w L.fits,
          good,
        )
        (ap (λ t. (ok t, w))
          (cut n s (c.decode_base64 (spell s) n).0.1 (c.decode_base64 (spell s) n).1 L))

  -- If the coders of both libraries follow one standard, as `IsBase64` says, then for bytes fewer than 2 ^ 62
  -- the fast and the secure encoder return the same text, and the fast and the secure decoder both
  -- return the bytes of that text, so either decoder undoes either encoder.
  pub secure_base64_decode-fast_base64_encode :
      (s : Bytes) (w : W)
      → length s < 2 ^ 62
      → (text : Bytes) × (fast_base64_encode c s w ≡ (ok text, w))
        × (secure_base64_encode c s w ≡ (ok text, w))
        × (fast_base64_decode c text w ≡ (ok s, w))
        × (secure_base64_decode c text w ≡ (ok s, w))
  secure_base64_decode-fast_base64_encode s w small = (
    spell s,
    fast_encode s w small,
    secure_encode s w small,
    fast_decode s w small,
    secure_decode s w small,
  )
