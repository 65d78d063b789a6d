-- ===== src/Crypto/Cipher/Feed.antt =====
-- The loop of `aes_256_crypt` in src/crypto.cpp and its buffer.
use mathlib.Core.Path.{subst}
use klib.Base.{
  ℕ, zero, suc, ◌+◌, ◌≤◌, ◌≡◌, ◌≢◌, refl, sym, ap, ◌∙◌, some, [], ◌∷◌, ◌++◌, append_assoc,
  append-nil, arith, Bytes, length, take, drop, length-append, length-take, length-drop,
  take-append-drop, take-length-append,
}
use klib.Exception.{runtime_error, ok, throw}
use klib.Crypto.Evp.{Evp, Session, AesCipher, IsEvp, largest_input}
use klib.Crypto.Cipher.{write_at, next_size, put_call, feed}

-- The first bytes of a buffer of `n` bytes.
abbrev pub Holds : ℕ → Bytes → Bytes → Type 0
Holds n written buffer = (take (length written) buffer ≡ written) × (length buffer ≡ n)

written_at :
    (n : ℕ) (w out buffer : Bytes)
    → Holds n w buffer
    → length (w ++ out) ≤ n
    → (b : Bytes) × (write_at (length w) out buffer ≡ some b) × Holds n (w ++ out) b
unfolding write_at
written_at n w out buffer (front, size) fits =
    let tail = drop (length w + length out) buffer in
    let b = take (length w) buffer ++ (out ++ tail) in
    let whole : b ≡ (w ++ out) ++ tail = rw front (sym (append_assoc w out tail)) in
    (
      b,
      ground (arith, length-append w out),
      (
        rw whole (take-length-append (w ++ out) tail),
        omega (
          arith,
          ap length whole,
          length-append (w ++ out) tail,
          length-append w out,
          length-drop (length w + length out) buffer,
        ),
      ),
    )

module _ (e : Evp) where
  pub put_call_lem :
      (f : e.Ctx → (ℕ × Bytes) × e.Ctx) (n : ℕ) (w buffer : Bytes) (c : e.Ctx)
      → (f c).0.0 ≡ 1
      → Holds n w buffer
      → length (w ++ (f c).0.1) ≤ n
      → (b : Bytes) × (put_call e f (length w) buffer c
          ≡ (ok (b, length (w ++ (f c).0.1)), (f c).1))
        × Holds n (w ++ (f c).0.1) b
  unfolding put_call
  put_call_lem f n w buffer c good holds fits =
      let (b, made, holds') = written_at n w (f c).0.1 buffer holds fits in
      (b, rw (made, good, length-append w (f c).0.1) refl, holds')

  -- A call that fails and writes nothing throws.
  pub put_call_refused :
      (f : e.Ctx → (ℕ × Bytes) × e.Ctx) (n : ℕ) (w buffer : Bytes) (c : e.Ctx)
      → (f c).0.0 ≢ 1
      → (f c).0.1 ≡ []
      → Holds n w buffer
      → length w ≤ n
      → put_call e f (length w) buffer c
        ≡ (throw (runtime_error (e.error_string (f c).1) []), (f c).1)
  unfolding put_call
  put_call_refused f n w buffer c bad nothing holds fits =
      let (b, made, holds') = written_at n w [] buffer holds (omega (arith, length-append w [])) in
      ground arith

take_some : (b : ℕ) (d : Bytes) → (1 ≤ next_size (b ∷ d)) × (next_size (b ∷ d) ≤ length (b ∷ d))
unfolding next_size
take_some b d = ground arith

module _ (e : Evp) (k : AesCipher) (Has : e.Ctx → Session → Type 0) (L : IsEvp e k Has) where
  -- A context that has been fed `d` more, a buffer that holds its output, and what the loop returns.
  abbrev pub Fed : ℕ → ℕ → Bytes → Session → Bytes → e.Ctx → Type 0
  Fed n fuel d s buffer c =
      (out : Bytes) × (b : Bytes) × (c' : e.Ctx) × (feed e fuel d (length s.output) buffer c
        ≡ (ok (b, length out), c'))
      × Has c' (record s { input = s.input ++ d; output = out })
      × Holds n out b

  -- The loop never writes outside a buffer of the length of the input, and the buffer holds the output.
  pub feed-Fed :
      (fuel : ℕ) (d : Bytes) (n : ℕ) (s : Session) (buffer : Bytes) (c : e.Ctx)
      → Has c s
      → Holds n s.output buffer
      → length d ≤ fuel
      → length (s.input ++ d) ≤ n
      → length (s.input ++ d) ≤ largest_input
      → Fed n fuel d s buffer c
  unfolding feed
  feed-Fed fuel [] n s buffer c has holds enough fits allowed =
      (s.output, buffer, c, refl, rw append-nil has, holds)
  feed-Fed zero (b ∷ d) n s buffer c has holds enough fits allowed = absurd (omega arith)
  feed-Fed (suc fuel) (b ∷ d) n s buffer c has holds enough fits allowed =
      let todo = next_size (b ∷ d) in
      let piece = take todo (b ∷ d) in
      let (some_taken, not_all) = take_some b d in
      let out = (e.update piece c).0.1 in
      let short : length (s.input ++ piece) ≤ length (s.input ++ (b ∷ d)) = omega (
        arith,
        length-append s.input piece,
        length-append s.input (b ∷ d),
        length-take todo (b ∷ d),
      ) in
      let (good, has', less) = L.update_lem piece c s has (omega arith) in
      let (buffer', made, holds') =
        put_call_lem e (e.update piece) n s.output buffer c good holds (omega arith) in
      let parts = ap (λ t. s.input ++ t) (take-append-drop todo (b ∷ d)) in
      let regroup = append_assoc s.input piece (drop todo (b ∷ d)) ∙ parts in
      let (o, b', c', ends, has2, holds2) =
        feed-Fed fuel (drop todo (b ∷ d)) n
          (record s { input = s.input ++ piece; output = s.output ++ out }) buffer'
          (e.update piece c).1 has' holds' (omega (arith, length-drop todo (b ∷ d)))
          (omega (arith, ap length regroup)) (omega (arith, ap length regroup)) in
      (
        o,
        b',
        c',
        rw made ends,
        subst (λ t. Has c' (record s { input = t; output = o })) regroup has2,
        holds2,
      )
