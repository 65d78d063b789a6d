-- ===== src/Util/Random.antt =====
-- src/util.cpp: `generate_random_bytes`, with the generator of BoringSSL over an unknown state.
use klib.Base.{ℕ, ◌<◌, ◌^◌, leb, arith, ap, ◌≡◌, false, not, [], Bytes, length, ◌==◌, if◌then◌else◌}
use klib.Base.Buffer.{resize, overwrite, overwrite_whole}
use klib.Exception.{runtime_error, length_error, ok, throw, M, ◌>>=◌, ◌>>◌, return, throw_if}

-- `std::string result; result.resize(n);`, on a machine of 64 bits.
abbrev pub sized : {W : Type 0} → ℕ → M W Bytes
sized n w = if leb (2 ^ 63) n then (throw length_error, w) else (ok (resize n []), w)

-- `RAND_status`, `RAND_poll` and `RAND_bytes`, which gives a status and the bytes that it writes.
pub record Rand : Type 1 where
  pub World : Type 0
  pub status : World → ℕ
  pub poll : World → ℕ × World
  pub bytes : ℕ → World → (ℕ × Bytes) × World
  pub error_string : World → Bytes

module _ (r : Rand) where
  abbrev check_boringssl : ℕ → M r.World (Unit {0})
  check_boringssl rc w = throw_if (not (rc == 1)) (runtime_error (r.error_string w) []) w

  abbrev poll : M r.World (Unit {0})
  poll w = let (rc, w') = r.poll w in check_boringssl rc w'

  unfoldable pub generate_random_bytes : ℕ → M r.World Bytes
  generate_random_bytes n = do
    λ w. (if r.status w == 0 then poll else return tt) w
    result ← sized n
    (rc, out) ← λ w. (ok (r.bytes n w).0, (r.bytes n w).1)
    check_boringssl rc
    return (overwrite out result)

-- A generator that is seeded and never fails: it gives as many bytes as it is asked for.
pub record IsSeeded (r : Rand) : Type 0 where
  pub status_lem : (w : r.World) → r.status w ≡ 1
  pub bytes_lem : (n : ℕ) (w : r.World) → ((r.bytes n w).0.0 ≡ 1) × (length (r.bytes n w).0.1 ≡ n)

pub overwrite_sized : (out : Bytes) (n : ℕ) → length out ≡ n → overwrite out (resize n []) ≡ out
overwrite_sized out n h = rw (← h) (overwrite_whole out)

pub generate_random_bytes_lem :
    (r : Rand)
    → IsSeeded r
    → (n : ℕ) (w : r.World) → n < 2 ^ 63
    → (out : Bytes) × (w' : r.World) × (generate_random_bytes r n w ≡ (ok out, w'))
      × (length out ≡ n)
unfolding generate_random_bytes
generate_random_bytes_lem r S n w small =
    let (good, size) = S.bytes_lem n w in
    let out = (r.bytes n w).0.1 in
    let fits : leb (2 ^ 63) n ≡ false = ground arith in
    (
      out,
      (r.bytes n w).1,
      rw (S.status_lem w, fits, good)
          (ap (λ t. (ok t, (r.bytes n w).1)) (overwrite_sized out n size)),
      size,
    )
