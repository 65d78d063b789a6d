-- ===== src/Crypto/Cipher/Outcome.antt =====
-- What `aes_256_crypt` of src/crypto.cpp gives, against the cipher as a function of the whole data.
use klib.Base.{
  ℕ, ◌+◌, ◌-◌, ◌%◌, ◌≤◌, ◌<◌, ◌≡◌, refl, ap, ◌∙◌, Bool, true, false, none, some, [], ◌∷◌, arith,
  Bytes, length, length-take, ==_refl, ◌^◌, leb, if◌then◌else◌,
}
use klib.Base.Int.{pos, int32-eq-pos}
use klib.Base.Buffer.{resize, length-resize, resize_front}
use klib.Exception.{Error, Result, ok, throw, terminated, and_then, return, ◌>>◌, runtime_error}
use klib.Crypto.Evp.{
  AesMode, gcm, cbc, Evp, Session, AesCipher, IsAesCipher, IsEvp, block, largest_input,
}
use klib.Crypto.Cipher.{
  max_size, do_call, set_iv_size, give_tag, give_aad, iv_arg, new_tag, set_up, run, aes_256_crypt,
  with_ctx, Do, whole,
}
use klib.Crypto.Cipher.Feed.{Holds, put_call_lem, put_call_refused, feed-Fed}

block_small : (mode : AesMode) → block mode ≤ 16
block_small gcm = omega arith
block_small cbc = omega arith

-- A context that has been set up.
abbrev pub ready : AesMode → Bool → ℕ → Bytes → Bytes → Bytes → Bytes → Session
ready mode encrypt iv_size tag key iv aad = record {
  mode = mode;
  encrypt = encrypt;
  iv_size = iv_size;
  tag = tag;
  key = key;
  iv = iv;
  aad = aad;
  input = [];
  output = [];
}

-- CBC mode has no additional data and no tag.
abbrev pub used : AesMode → Bytes → Bytes
used gcm s = s
used cbc s = []

module _ (e : Evp) (k : AesCipher) (Has : e.Ctx → Session → Type 0) (L : IsEvp e k Has) where
  do_call_lem : (f : e.Ctx → ℕ × e.Ctx) (c : e.Ctx) → (f c).0 ≡ 1 → do_call e f c ≡ (ok tt, (f c).1)
  unfolding do_call
  do_call_lem f c good = rw good refl

  iv_arg_lem : (iv : Bytes) → 0 < length iv → iv_arg e iv ≡ some iv
  iv_arg_lem [] h = absurd (omega arith)
  iv_arg_lem (b ∷ iv) h = refl

  give_aad_lem :
      (mode : AesMode) (encrypt : Bool) (n : ℕ) (tag key iv aad : Bytes) (c : e.Ctx)
      → Has c (ready mode encrypt n tag key iv [])
      → length aad < 2 ^ 31
      → (c' : e.Ctx) × (give_aad e mode aad c ≡ (ok tt, c'))
        × Has c' (ready mode encrypt n tag key iv (used mode aad))
  unfolding give_aad
  give_aad_lem cbc encrypt n tag key iv aad c has short = (c, refl, has)
  give_aad_lem gcm encrypt n tag key iv [] c has short = (c, refl, has)
  give_aad_lem gcm encrypt n tag key iv (b ∷ aad) c has short =
      let (good, has') = L.update_aad_lem (b ∷ aad) c _ has refl short in
      let call = e.update_aad (b ∷ aad) (pos (length (b ∷ aad))) in
      ((call c).1, rw (int32-eq-pos (length (b ∷ aad)) short) (do_call_lem call c good), has')

  keyed :
      (mode : AesMode) (encrypt : Bool) (n : ℕ) (tag key iv aad : Bytes) (c : e.Ctx)
      → Has c (ready mode encrypt n tag [] [] [])
      → length key ≡ 32
      → length iv ≡ n
      → 0 < n
      → length aad < 2 ^ 31
      → (c' : e.Ctx) × ((do_call e (e.set_key_length (length key % 2 ^ 32))
              >> (do_call e (e.init_key key (iv_arg e iv)) >> give_aad e mode aad))
            c
          ≡ (ok tt, c'))
        × Has c' (ready mode encrypt n tag key iv (used mode aad))
  keyed mode encrypt n tag key iv aad c has size iv_fits positive short =
      let (good, has1) = L.set_key_length_lem c _ has in
      let c1 = (e.set_key_length 32 c).1 in
      let (good2, has2) = L.init_key_lem key iv c1 _ has1 size iv_fits in
      let c2 = (e.init_key key (some iv) c1).1 in
      let (c3, made, has3) = give_aad_lem mode encrypt n tag key iv aad c2 has2 short in
      (
        c3,
        rw
            (
              size,
              iv_arg_lem iv (omega arith),
              do_call_lem (e.set_key_length 32) c good,
              do_call_lem (e.init_key key (some iv)) c1 good2,
            )
            made,
        has3,
      )

  abbrev pub SetUp : AesMode → Bool → Bytes → Bytes → Bytes → Bytes → e.Ctx → Type 0
  SetUp mode encrypt key iv aad tag c =
      (c' : e.Ctx) × (set_up e key (whole iv) aad (whole tag) mode encrypt c ≡ (ok tt, c'))
      × Has c' (
          ready mode encrypt (length iv) (if encrypt then [] else used mode tag) key iv
            (used mode aad))

  sealing_ready :
      (key iv aad tag : Bytes) (c : e.Ctx)
      → e.ctx_new ≡ some c
      → length key ≡ 32
      → length iv ≡ 12
      → length aad < 2 ^ 31
      → SetUp gcm true key iv aad tag c
  unfolding set_up set_iv_size give_tag
  sealing_ready key iv aad tag c fresh size iv_fits short =
      let (good, has) = L.init_lem gcm true c fresh in
      let c1 = (e.init_cipher gcm true c).1 in
      let (good2, has2) = L.set_ivlen_lem (length iv) c1 _ has refl (omega arith) in
      let c2 = (e.set_ivlen (length iv) c1).1 in
      let (c3, made, has3) =
        keyed gcm true (length iv) [] key iv aad c2 has2 size refl (omega arith) short in
      (
        c3,
        rw
            (
              do_call_lem (e.init_cipher gcm true) c good,
              do_call_lem (e.set_ivlen (length iv)) c1 good2,
            )
            made,
        has3,
      )

  unsealing_ready :
      (key iv aad tag : Bytes) (c : e.Ctx)
      → e.ctx_new ≡ some c
      → length key ≡ 32
      → length iv ≡ 12
      → length tag ≡ 16
      → length aad < 2 ^ 31
      → SetUp gcm false key iv aad tag c
  unfolding set_up set_iv_size give_tag
  unsealing_ready key iv aad [] c fresh size iv_fits tag_fits short = absurd (omega arith)
  unsealing_ready key iv aad (b ∷ tag) c fresh size iv_fits tag_fits short =
      let (good, has) = L.init_lem gcm false c fresh in
      let c1 = (e.init_cipher gcm false c).1 in
      let (good2, has2) = L.set_ivlen_lem (length iv) c1 _ has refl (omega arith) in
      let c2 = (e.set_ivlen (length iv) c1).1 in
      let (good3, has3) = L.set_tag_lem (b ∷ tag) c2 _ has2 refl tag_fits in
      let c3 = (e.set_tag (b ∷ tag) c2).1 in
      let (c4, made, has4) =
        keyed gcm false (length iv) (b ∷ tag) key iv aad c3 has3 size refl (omega arith) short in
      (
        c4,
        rw
            (
              do_call_lem (e.init_cipher gcm false) c good,
              do_call_lem (e.set_ivlen (length iv)) c1 good2,
              do_call_lem (e.set_tag (b ∷ tag)) c2 good3,
            )
            made,
        has4,
      )

  set_iv_size_cbc :
      (iv : Bytes) (c : e.Ctx)
      → e.iv_length c ≡ length iv
      → set_iv_size e cbc (length iv) c ≡ (ok tt, c)
  unfolding set_iv_size
  set_iv_size_cbc iv c h = rw (h, ==_refl (length iv)) refl

  set_up_cbc :
      (encrypt : Bool) (key iv aad tag : Bytes) (c : e.Ctx)
      → e.ctx_new ≡ some c
      → length key ≡ 32
      → length iv ≡ 16
      → length aad < 2 ^ 31
      → (c' : e.Ctx) × (set_up e key (whole iv) aad (whole tag) cbc encrypt c ≡ (ok tt, c'))
        × Has c' (ready cbc encrypt 16 [] key iv [])
  unfolding set_up give_tag
  set_up_cbc encrypt key iv aad tag c fresh size iv_fits short =
      let (good, has) = L.init_lem cbc encrypt c fresh in
      let c1 = (e.init_cipher cbc encrypt c).1 in
      let sized = set_iv_size_cbc iv c1 (omega (arith, L.iv_length_lem c1 _ has)) in
      let (c2, made, has2) =
        keyed cbc encrypt 16 [] key iv aad c1 has size iv_fits (omega arith) short in
      (c2, rw (do_call_lem (e.init_cipher cbc encrypt) c good, sized) made, has2)

  module _ (K : IsAesCipher k) where
    empty_buffer : (n : ℕ) → Holds n [] (resize n [])
    empty_buffer n = (refl, length-resize n [])

    Holds-le : (n : ℕ) (w b : Bytes) → Holds n w b → length w ≤ n
    Holds-le n w b (front, size) = omega (arith, ap length front, length-take (length w) b)

    resize-Holds : (n : ℕ) (w b : Bytes) → Holds n w b → length w ≤ n → resize (length w) b ≡ w
    resize-Holds n w b (front, size) fits = resize_front (length w) b (omega arith) ∙ front

    -- The tag that the encryption gives.
    abbrev pub tag_of : AesMode → Bytes → Bytes
    tag_of gcm tag = tag
    tag_of cbc tag = []

    new_tag_lem :
        (mode : AesMode) (c : e.Ctx) (tag : Bytes)
        → (mode ≡ gcm → (e.get_tag 16 c).0 ≡ tag)
        → (new_tag e mode true c).0 ≡ ok (tag_of mode tag)
    unfolding new_tag
    new_tag_lem gcm c tag h = ap ok (h refl)
    new_tag_lem cbc c tag h = refl

    new_tag_none : (mode : AesMode) (c : e.Ctx) → new_tag e mode false c ≡ (ok [], c)
    unfolding new_tag
    new_tag_none gcm c = refl
    new_tag_none cbc c = refl

    pub run-seal :
        (mode : AesMode) (n : ℕ) (tag key iv aad d : Bytes) (c : e.Ctx)
        → Has c (ready mode true n tag key iv aad)
        → length d ≤ largest_input
        → (run e (whole d) mode true c).0
          ≡ ok ((k.seal mode key iv aad d).0, tag_of mode (k.seal mode key iv aad d).1)
    unfolding run max_size
    run-seal mode n tag key iv aad d c has allowed =
        let size = length d + (block mode - length d % block mode) in
        let whole = (k.seal mode key iv aad d).0 in
        let (out, b, c1, fed, has1, holds) =
          feed-Fed e k Has L (length d) d size _ (resize size []) c has (empty_buffer size)
            (omega arith) (omega arith) allowed in
        let (good, text, tagged) = L.final_seal c1 _ has1 refl in
        let fits : length whole ≤ size = K.length-seal mode key iv aad d in
        let (b2, made, holds2) = put_call_lem e e.final size out b c1 good holds (rw text fits) in
        let made' = rw text at made in
        let holds' = rw text at holds2 in
        let not_long : leb (2 ^ 63) size ≡ false = ground (arith, block_small mode) in
        rw (L.block_size_lem c _ has, not_long, fed, made')
          (go b2 (new_tag e mode true (e.final c1).1) (new_tag_lem mode (e.final c1).1 _ tagged)
            (resize-Holds size whole b2 holds' fits))
      where
        go :
            (b2 : Bytes) (r : Result Bytes × e.Ctx)
            → r.0 ≡ ok (tag_of mode (k.seal mode key iv aad d).1)
            → resize (length (k.seal mode key iv aad d).0) b2 ≡ (k.seal mode key iv aad d).0
            → (and_then {B = Bytes × Bytes} r
                (λ t. return (resize (length (k.seal mode key iv aad d).0) b2, t))).0
              ≡ ok ((k.seal mode key iv aad d).0, tag_of mode (k.seal mode key iv aad d).1)
        go b2 (ok t, c') e1 e2 = ground arith
        go b2 (throw x, c') e1 e2 = absurd (cc)
        go b2 (terminated, c') e1 e2 = absurd (cc)

    pub run-unseal :
        (mode : AesMode) (n : ℕ) (tag key iv aad d text : Bytes) (c : e.Ctx)
        → Has c (ready mode false n tag key iv aad)
        → length d ≤ largest_input
        → k.unseal mode key iv aad tag d ≡ some text
        → (run e (whole d) mode false c).0 ≡ ok (text, [])
    unfolding run max_size
    run-unseal mode n tag key iv aad d text c has allowed opened =
        let size = length d in
        let (out, b, c1, fed, has1, holds) =
          feed-Fed e k Has L (length d) d size _ (resize size []) c has (empty_buffer size)
            (omega arith) (omega arith) allowed in
        let (good, whole) = L.final_unseal c1 _ text has1 refl opened in
        let fits : length text ≤ size = K.length-unseal mode key iv aad tag d text opened in
        let (b2, made, holds2) = put_call_lem e e.final size out b c1 good holds (rw whole fits) in
        let made' = rw whole at made in
        let holds' = rw whole at holds2 in
        let not_long : leb (2 ^ 63) size ≡ false = ground arith in
        rw
          (
            not_long,
            fed,
            made',
            new_tag_none mode (e.final c1).1,
            resize-Holds size text b2 holds' fits,
          )
          refl

    run_refused :
        (mode : AesMode) (n : ℕ) (tag key iv aad d : Bytes) (c : e.Ctx)
        → Has c (ready mode false n tag key iv aad)
        → length d ≤ largest_input
        → k.unseal mode key iv aad tag d ≡ none
        → (x : Error) × ((run e (whole d) mode false c).0 ≡ throw x)
    unfolding run max_size
    run_refused mode n tag key iv aad d c has allowed closed =
        let size = length d in
        let (out, b, c1, fed, has1, holds) =
          feed-Fed e k Has L (length d) d size _ (resize size []) c has (empty_buffer size)
            (omega arith) (omega arith) allowed in
        let (bad, nothing) = L.final_refused c1 _ has1 refl closed in
        let fits = Holds-le size out b holds in
        let not_long : leb (2 ^ 63) size ≡ false = ground arith in
        (
          runtime_error (e.error_string (e.final c1).1) [],
          rw (not_long, fed, put_call_refused e e.final size out b c1 bad nothing holds fits) refl,
        )

    module _ (c : e.Ctx) (fresh : e.ctx_new ≡ some c) (error key : Bytes)
        (size : length key ≡ 32) where
      with_fresh : (body : Do e (Bytes × Bytes)) → with_ctx e e.ctx_new body error ≡ (body c).0
      with_fresh body = ap (λ o. with_ctx e o body error) fresh

      pub crypt_seal_gcm :
          (d iv aad : Bytes)
          → length iv ≡ 12
          → length d ≤ largest_input
          → length aad < 2 ^ 31
          → aes_256_crypt e error (whole d) key (whole iv) aad (whole []) gcm true
            ≡ ok (k.seal gcm key iv aad d)
      unfolding aes_256_crypt
      crypt_seal_gcm d iv aad fits allowed short =
          let (c', made, has) = sealing_ready key iv aad [] c fresh size fits short in
          with_fresh _ ∙ rw made (run-seal gcm _ _ key iv aad d c' has allowed)

      pub crypt_seal_cbc :
          (d iv : Bytes)
          → length iv ≡ 16
          → length d ≤ largest_input
          → aes_256_crypt e error (whole d) key (whole iv) [] (whole []) cbc true
            ≡ ok ((k.seal cbc key iv [] d).0, [])
      unfolding aes_256_crypt
      crypt_seal_cbc d iv fits allowed =
          let (c', made, has) = set_up_cbc true key iv [] [] c fresh size fits (omega arith) in
          with_fresh _ ∙ rw made (run-seal cbc _ _ key iv [] d c' has allowed)

      pub crypt_unseal_gcm :
          (d iv aad tag text : Bytes)
          → length iv ≡ 12
          → length d ≤ largest_input
          → length aad < 2 ^ 31
          → length tag ≡ 16
          → k.unseal gcm key iv aad tag d ≡ some text
          → aes_256_crypt e error (whole d) key (whole iv) aad (whole tag) gcm false ≡ ok (text, [])
      unfolding aes_256_crypt
      crypt_unseal_gcm d iv aad tag text fits allowed short tag_fits opened =
          let (c', made, has) = unsealing_ready key iv aad tag c fresh size fits tag_fits short in
          with_fresh _ ∙ rw made (run-unseal gcm _ tag key iv aad d text c' has allowed opened)

      pub crypt_unseal_cbc :
          (d iv text : Bytes)
          → length iv ≡ 16
          → length d ≤ largest_input
          → k.unseal cbc key iv [] [] d ≡ some text
          → aes_256_crypt e error (whole d) key (whole iv) [] (whole []) cbc false ≡ ok (text, [])
      unfolding aes_256_crypt
      crypt_unseal_cbc d iv text fits allowed opened =
          let (c', made, has) = set_up_cbc false key iv [] [] c fresh size fits (omega arith) in
          with_fresh _ ∙ rw made (run-unseal cbc _ [] key iv [] d text c' has allowed opened)

      pub crypt_refused_gcm :
          (d iv aad tag : Bytes)
          → length iv ≡ 12
          → length d ≤ largest_input
          → length aad < 2 ^ 31
          → length tag ≡ 16
          → k.unseal gcm key iv aad tag d ≡ none
          → (x : Error) × (aes_256_crypt e error (whole d) key (whole iv) aad (whole tag) gcm false
              ≡ throw x)
      unfolding aes_256_crypt
      crypt_refused_gcm d iv aad tag fits allowed short tag_fits closed =
          let (c', made, has) = unsealing_ready key iv aad tag c fresh size fits tag_fits short in
          let (x, thrown) = run_refused gcm _ tag key iv aad d c' has allowed closed in
          (x, with_fresh _ ∙ rw made thrown)
