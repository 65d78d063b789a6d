-- ===== src/Crypto/Cipher.antt =====
-- src/crypto.cpp: `aes_256_crypt`, which sets a context up, feeds it the data in pieces of 16 KiB and
-- collects the output in a buffer. A write outside the buffer is undefined in C++: here it ends the process.
pub mod Feed
pub mod Outcome
use klib.Base.{
  ℕ, zero, suc, ◌+◌, ◌-◌, ◌%◌, ◌^◌, ◌≤◌, ◌<◌, ◌≡◌, refl, Bool, true, false, not, ◌&&◌, ◌||◌, Option,
  none, some, List, [], ◌∷◌, ◌++◌, arith, Bytes, codes, length, take, drop, is_empty, leb, ◌==◌,
  if◌then◌else◌,
}
use klib.Base.Int.{int32}
use klib.Base.Buffer.{resize}
use klib.Util.Random.{sized}
use klib.Exception.{
  Error, runtime_error, Result, ok, throw, terminated, M, ◌>>=◌, ◌>>◌, return, raise, throw_if,
}
use klib.Crypto.Evp.{AesMode, gcm, cbc, Evp}

-- `EVP_CipherUpdate` and `EVP_CipherFinal_ex` write at `data(result) + total`.
unfoldable pub write_at : ℕ → Bytes → Bytes → Option Bytes
write_at total out buffer =
    if leb (total + length out) (length buffer)
    then some (take total buffer ++ (out ++ drop (total + length out) buffer))
    else none

-- `std::min(data.size(), 16384UL)`
unfoldable pub next_size : Bytes → ℕ
next_size d = let n = length d in if leb n 16384 then n else 16384

-- A `std::span`: its size, and its bytes if they lie in a string. To read it elsewhere is undefined.
pub record Span : Type 0 where
  pub size : ℕ
  pub content : Option Bytes

abbrev pub whole : Bytes → Span
whole s = record { size = length s; content = some s }

-- The size of the buffer.
unfoldable pub max_size : Bool → ℕ → ℕ → ℕ
max_size true block n = n + (block - n % block)
max_size false block n = n

module _ (e : Evp) where
  abbrev pub Do : Type 0 → Type 0
  Do A = M e.Ctx A

  -- `CHECK_BORINGSSL(rc)`
  abbrev pub check_boringssl : ℕ → Do (Unit {0})
  check_boringssl rc c = throw_if (not (rc == 1)) (runtime_error (e.error_string c) []) c

  -- A call with its check.
  unfoldable pub do_call : (e.Ctx → ℕ × e.Ctx) → Do (Unit {0})
  do_call f c = let (rc, c') = f c in check_boringssl rc c'

  abbrev pub iv_size_error : ℕ → ℕ → Error
  iv_size_error size iv_length =
      runtime_error (codes "Wrong initial vector length: {} (should be {})")
        (e.print size ∷ e.print iv_length ∷ [])

  unfoldable pub set_iv_size : AesMode → ℕ → Do (Unit {0})
  unfolding do_call
  set_iv_size gcm size c = do_call (e.set_ivlen size) c
  set_iv_size cbc size c =
      throw_if (not (e.iv_length c == size) && not (size == 0)) (iv_size_error size (e.iv_length c))
        c

  abbrev pub read_option : Option Bytes → Do Bytes
  read_option none c = (terminated, c)
  read_option (some s) c = (ok s, c)

  abbrev pub read : Span → Do Bytes
  read s = read_option s.content

  -- `Expects(!std::empty(tag))` ends the process where it fails.
  unfoldable pub give_tag : AesMode → Bool → Bytes → Do (Unit {0})
  unfolding do_call
  give_tag gcm false [] c = (terminated, c)
  give_tag gcm false (b ∷ tag) c = do_call (e.set_tag (b ∷ tag)) c
  give_tag gcm true tag c = (ok tt, c)
  give_tag cbc encrypt tag c = (ok tt, c)

  abbrev pub give_tag_span : AesMode → Bool → Span → Do (Unit {0})
  give_tag_span gcm false tag = do t ← read tag; give_tag gcm false t
  give_tag_span gcm true tag = return tt
  give_tag_span cbc encrypt tag = return tt

  abbrev pub iv_arg : Bytes → Option Bytes
  iv_arg [] = none
  iv_arg (b ∷ iv) = some (b ∷ iv)

  unfoldable pub give_aad : AesMode → Bytes → Do (Unit {0})
  unfolding do_call
  give_aad gcm [] c = (ok tt, c)
  give_aad gcm (b ∷ aad) c = do_call (e.update_aad (b ∷ aad) (int32 (length (b ∷ aad)))) c
  give_aad cbc aad c = (ok tt, c)

  abbrev stored : Option Bytes → Do Bytes
  stored none c = (terminated, c)
  stored (some buffer) c = (ok buffer, c)

  -- A call that writes at `total`: the buffer and the total behind it.
  unfoldable pub put_call : (e.Ctx → (ℕ × Bytes) × e.Ctx) → ℕ → Bytes → Do (Bytes × ℕ)
  unfolding write_at
  put_call f total buffer c =
      let ((rc, out), c') = f c in
      (do
        filled ← stored (write_at total out buffer)
        check_boringssl rc
        return (filled, total + length out))
        c'

  -- The loop over the data. A round takes a byte at least, so a fuel of the length is used up only at
  -- the end.
  unfoldable pub feed : ℕ → Bytes → ℕ → Bytes → Do (Bytes × ℕ)
  unfolding put_call next_size
  feed fuel [] total buffer = return (buffer, total)
  feed zero (b ∷ d) total buffer = return (buffer, total)
  feed (suc fuel) (b ∷ d) total buffer =
      let todo = next_size (b ∷ d) in
      let rest = λ (r : Bytes × ℕ). feed fuel (drop todo (b ∷ d)) r.1 r.0 in
      (do r ← put_call (e.update (take todo (b ∷ d))) total buffer; rest r)

  unfoldable pub new_tag : AesMode → Bool → Do Bytes
  new_tag gcm true c = let (tag, c') = e.get_tag 16 c in (ok tag, c')
  new_tag gcm false c = (ok [], c)
  new_tag cbc encrypt c = (ok [], c)

  -- The length of the key is converted to `unsigned`.
  unfoldable pub set_up : Bytes → Span → Bytes → Span → AesMode → Bool → Do (Unit {0})
  set_up key iv aad tag mode encrypt = do
    do_call (e.init_cipher mode encrypt)
    set_iv_size mode iv.size
    give_tag_span mode encrypt tag
    do_call (e.set_key_length (length key % 2 ^ 32))
    iv_bytes ← read iv
    do_call (e.init_key key (iv_arg iv_bytes))
    give_aad mode aad

  unfoldable pub run : Span → AesMode → Bool → Do (Bytes × Bytes)
  run d mode encrypt c =
      let max_len = max_size encrypt (e.block_size c) d.size in
      (do
        result ← sized max_len
        text ← read d
        (buffer, total) ← feed (length text) text 0 result
        (filled, total') ← put_call e.final total buffer
        tag ← new_tag mode encrypt
        return (resize total' filled, tag))
        c

  abbrev pub with_ctx : Option e.Ctx → Do (Bytes × Bytes) → Bytes → Result (Bytes × Bytes)
  with_ctx none body error = throw (runtime_error error [])
  with_ctx (some c) body error = (body c).0

  -- `error` is what `ERR_error_string` gives where no context could be made.
  unfoldable pub aes_256_crypt :
      Bytes → Span → Bytes → Span → Bytes → Span → AesMode → Bool → Result (Bytes × Bytes)
  aes_256_crypt error d key iv aad tag mode encrypt =
      with_ctx e.ctx_new (do set_up key iv aad tag mode encrypt; run d mode encrypt) error
