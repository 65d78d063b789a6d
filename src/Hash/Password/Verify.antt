-- ===== src/Hash/Password/Verify.antt =====
-- What src/hash.cpp's `password_verify` says of the hashes that it makes.
use klib.Base.{
  ℕ, suc, ◌-◌, ◌^◌, ◌<◌, ◌≡◌, ◌≢◌, refl, ap, sym, ◌∙◌, true, false, [], ◌∷◌, ◌++◌, arith, Bytes,
  length, take, All, c_str-eq_self, leb, bytes_eq, bytes_eq_refl, bytes_eq_sound, Bool-cases, inl,
  inr, length-append, take-length-append, append-nil,
}
use klib.Base.Int.{ℤ, pos, int32-eq-pos, ◌==ℤ◌}
use klib.Base.Buffer.{resize, overwrite, resize_front}
use klib.Exception.{ok}
use klib.Util.Random.{Rand, IsSeeded, sized, generate_random_bytes_lem, overwrite_sized}
use klib.Hash.Password.{
  Argon2, password_hash_raw, password_hash_raw_salt, password_hash_encoded, password_verify,
  password_verify_raw,
}

-- Argon2 writes as many bytes as it is asked for. The text that it encodes a hash as has the length that it
-- announces, with the null behind it, and verifies for the password.
pub record IsArgon2 (a : Argon2) : Type 0 where
  pub hash_lem :
      (t m p : ℕ) (password salt : Bytes) (n : ℕ)
      → (a.hash_raw t m p password salt n).0 ≡ pos 0
      → length (a.hash_raw t m p password salt n).1 ≡ n
  pub encoded_lem :
      (t m p : ℕ) (password salt : Bytes) (n : ℕ)
      → (a.hash_encoded t m p password salt n (a.encoded_len t m p (length salt) n)).0 ≡ pos 0
      → (text : Bytes) × ((a.hash_encoded t m p password salt n
            (a.encoded_len t m p (length salt) n)).1
          ≡ text ++ (0 ∷ []))
        × (a.encoded_len t m p (length salt) n ≡ suc (length text))
        × All (λ c. c ≢ 0) text
        × (a.verify text password ≡ pos 0)

take_whole : (s : Bytes) (n : ℕ) → length s ≡ n → take n s ≡ s
take_whole s n h = rw (← h) (ap (take (length s)) (sym (append-nil s)) ∙ take-length-append s [])

bytes_eq-false : (s t : Bytes) → s ≢ t → bytes_eq s t ≡ false
bytes_eq-false s t h = elim (Bool-cases (bytes_eq s t)) [
  | inl y ↦ absurd (h (bytes_eq_sound s t y))
  | inr n ↦ n
]

-- Cutting the null off the buffer.
cut_null :
    (text buffer : Bytes) (n : ℕ)
    → buffer ≡ text ++ (0 ∷ [])
    → n ≡ suc (length text)
    → resize (n - 1) (overwrite buffer (resize n [])) ≡ text
cut_null text buffer n whole size =
    let long : length buffer ≡ n = ap length whole ∙ length-append text (0 ∷ []) ∙ omega arith in
    let cut : n - 1 ≡ length text = omega arith in
    rw (overwrite_sized buffer n long, whole, cut)
      (resize_front (length text) (text ++ (0 ∷ [])) (omega (arith, length-append text (0 ∷ [])))
        ∙ take-length-append text (0 ∷ []))

module _ (a : Argon2) (A : IsArgon2 a) (t m p : ℕ) where
  -- The status and the bytes.
  abbrev status : Bytes → Bytes → ℕ → ℤ
  status password salt n = (a.hash_raw t m p password salt n).0

  abbrev pub hashed : Bytes → Bytes → ℕ → Bytes
  hashed password salt n = (a.hash_raw t m p password salt n).1

  sized_ok : {W : Type 0} (n : ℕ) (w : W) → n < 2 ^ 63 → sized n w ≡ (ok (resize n []), w)
  sized_ok n w h = let fits : leb (2 ^ 63) n ≡ false = ground arith in rw fits refl

  verify_raw :
      {W : Type 0} (password hash salt : Bytes) (w : W)
      → length hash < 2 ^ 31
      → length salt < 2 ^ 31
      → status password salt (length hash) ≡ pos 0
      → password_verify_raw a password hash salt t m p w
        ≡ (ok (bytes_eq (hashed password salt (length hash)) hash), w)
  unfolding password_verify_raw ◌==ℤ◌
  verify_raw password hash salt w small small' accepted =
      rw
        (
          int32-eq-pos (length hash) small,
          int32-eq-pos (length salt) small',
          take_whole salt (length salt) refl,
          sized_ok (length hash) w (omega arith),
          accepted,
          overwrite_sized (hashed password salt (length hash)) (length hash)
              (A.hash_lem t m p password salt (length hash) accepted),
        )
        refl

  verify_as :
      {W : Type 0} (password hash salt : Bytes) (n : ℕ) (w : W)
      → length hash ≡ n
      → n < 2 ^ 31
      → length salt < 2 ^ 31
      → status password salt n ≡ pos 0
      → password_verify_raw a password hash salt t m p w
        ≡ (ok (bytes_eq (hashed password salt n) hash), w)
  verify_as password hash salt n w size small small' accepted =
      verify_raw password hash salt w (omega arith) small'
        (ap (status password salt) size ∙ accepted)
      ∙ ap (λ i. (ok (bytes_eq (hashed password salt i) hash), w)) size

  -- With an Argon2 that does what `IsArgon2` says, a generator that is seeded, lengths below 2 ^ 31, and costs
  -- and lengths that Argon2 accepts: `password_hash_raw` returns a hash and a salt of the lengths asked for,
  -- `password_hash_raw` with that salt gives the same hash, the password verifies against the two, and a
  -- password that Argon2 hashes to another hash does not.
  pub password_verify_raw-password_hash_raw :
      (r : Rand)
      → IsSeeded r
      → (password : Bytes) (n k : ℕ) (w : r.World) → n < 2 ^ 31
      → k < 2 ^ 31
      → ((salt : Bytes) → length salt ≡ k → (a.hash_raw t m p password salt n).0 ≡ pos 0)
      → (hash : Bytes) × (salt : Bytes) × (w' : r.World) × (password_hash_raw a r password t m p
            (pos n)
            (pos k)
            w
          ≡ (ok (hash, salt), w'))
        × (length hash ≡ n)
        × (length salt ≡ k)
        × (password_hash_raw_salt a password salt t m p (pos n) w' ≡ (ok hash, w'))
        × (password_verify_raw a password hash salt t m p w' ≡ (ok true, w'))
        × ((guess : Bytes)
            → (a.hash_raw t m p guess salt n).0 ≡ pos 0
            → (a.hash_raw t m p guess salt n).1 ≢ hash
            → password_verify_raw a guess hash salt t m p w' ≡ (ok false, w'))
  unfolding password_hash_raw password_hash_raw_salt ◌==ℤ◌
  password_verify_raw-password_hash_raw r S password n k w small small' accepts =
      let (salt, w', made, fits) = generate_random_bytes_lem r S k w (omega arith) in
      let good = accepts salt fits in
      let size = A.hash_lem t m p password salt n good in
      let hash = hashed password salt n in
      let whole = overwrite_sized hash n size in
      (
        hash,
        salt,
        w',
        rw (sized_ok n w (omega arith), made, take_whole salt k fits, good, whole) refl,
        size,
        fits,
        rw (sized_ok n w' (omega arith), good, whole) refl,
        verify_as password hash salt n w' size small (omega arith) good
            ∙ ap (λ b. (ok b, w')) (bytes_eq_refl hash),
        λ guess other differs.
            verify_as guess hash salt n w' size small (omega arith) other
            ∙ ap (λ b. (ok b, w')) (bytes_eq-false (hashed guess salt n) hash differs),
      )

  -- With an Argon2 that does what `IsArgon2` says, a generator that is seeded, a salt below 2 ^ 31, an encoded
  -- text shorter than 2 ^ 63, and costs and lengths that Argon2 accepts: `password_hash_encoded` returns a
  -- text without its final null, and the password verifies against that text.
  pub password_verify-password_hash_encoded :
      (r : Rand)
      → IsSeeded r
      → (password : Bytes) (n k : ℕ) (w : r.World) → k < 2 ^ 31
      → a.encoded_len t m p k n < 2 ^ 63
      → ((salt : Bytes)
          → length salt ≡ k
          → (a.hash_encoded t m p password salt n (a.encoded_len t m p k n)).0 ≡ pos 0)
      → (text : Bytes) × (w' : r.World) × (password_hash_encoded a r password t m p
            (pos n)
            (pos k)
            w
          ≡ (ok text, w'))
        × (suc (length text) ≡ a.encoded_len t m p k n)
        × (password_verify a password text ≡ true)
  unfolding password_hash_encoded password_verify ◌==ℤ◌
  password_verify-password_hash_encoded r S password n k w small short accepts =
      let (salt, w', made, fits) = generate_random_bytes_lem r S k w (omega arith) in
      let good = accepts salt fits in
      let same = ap (λ i. a.encoded_len t m p i n) fits in
      let (text, written, size, no_null, verified) =
        A.encoded_lem t m p password salt n
          (ap (λ i. (a.hash_encoded t m p password salt n i).0) same ∙ good) in
      let out = (a.hash_encoded t m p password salt n (a.encoded_len t m p k n)).1 in
      let written' : out ≡ text ++ (0 ∷ []) =
        sym (ap (λ i. (a.hash_encoded t m p password salt n i).1) same) ∙ written in
      let size' = sym same ∙ size in
      (
        text,
        w',
        rw (sized_ok (a.encoded_len t m p k n) w short, made, take_whole salt k fits, good)
            (ap (λ s. (ok s, w')) (cut_null text out (a.encoded_len t m p k n) written' size')),
        sym size',
        rw (c_str-eq_self text no_null, verified) refl,
      )
