-- ===== src/Hash/Password.antt =====
-- src/hash.cpp: passwords hashed by Argon2id.
pub mod Verify
use klib.Base.{
  ℕ, suc, ◌-◌, ◌%◌, ◌^◌, ◌≤◌, ◌<◌, ◌≡◌, ◌≢◌, refl, ap, sym, ◌∙◌, Bool, true, false, not, [], ◌∷◌,
  ◌++◌, arith, Bytes, length, take, All, c_str, c_str-eq_self, ltb, ◌==◌, bytes_eq, if◌then◌else◌,
}
use klib.Base.Int.{ℤ, pos, negsuc, int32, int32-eq-pos, ◌==ℤ◌}
use klib.Base.Buffer.{resize, overwrite}
use klib.Exception.{runtime_error, Result, ok, throw, M, ◌>>=◌, ◌>>◌, return, throw_if}
use klib.Util.Random.{
  Rand, IsSeeded, sized, generate_random_bytes, generate_random_bytes_lem, overwrite_sized,
}

-- The functions of Argon2, with the costs `time`, `memory` and `parallelism`. Those that hash give a status,
-- 0 for `ARGON2_OK`, and the bytes that they write.
pub record Argon2 : Type 0 where
  pub hash_raw : (time memory parallelism : ℕ) (password salt : Bytes) (hash_len : ℕ) → ℤ × Bytes
  pub encoded_len : (time memory parallelism salt_len hash_len : ℕ) → ℕ
  pub hash_encoded :
      (time memory parallelism : ℕ) (password salt : Bytes) (hash_len encoded_len : ℕ) → ℤ × Bytes
  pub verify : (encoded password : Bytes) → ℤ
  pub error_message : ℤ → Bytes

-- A `std::int32_t` where a `std::size_t` is expected.
abbrev pub to_size : ℤ → ℕ
to_size (pos n) = n
to_size (negsuc n) = 2 ^ 64 - suc n

module _ (a : Argon2) where
  abbrev pub check_argon2 : {W : Type 0} → ℤ → M W (Unit {0})
  check_argon2 rc = throw_if (not (rc ==ℤ pos 0)) (runtime_error (a.error_message rc) [])

  -- The overload that makes the salt. Argon2 takes lengths of 32 bits.
  unfoldable pub password_hash_raw :
      (r : Rand)
      → Bytes
      → (time memory parallelism : ℕ) (hash_len salt_len : ℤ) → M r.World (Bytes × Bytes)
  password_hash_raw r password time memory parallelism hash_len salt_len = do
    hash ← sized (to_size hash_len)
    salt ← generate_random_bytes r (to_size salt_len)
    let (rc, out) =
        a.hash_raw time memory parallelism password (take (to_size salt_len) salt)
          (to_size hash_len)
    check_argon2 rc
    return (overwrite out hash, salt)

  -- The overload that takes the salt.
  unfoldable pub password_hash_raw_salt :
      {W : Type 0}
      → (password salt : Bytes) (time memory parallelism : ℕ) (hash_len : ℤ) → M W Bytes
  password_hash_raw_salt password salt time memory parallelism hash_len = do
    hash ← sized (to_size hash_len)
    let (rc, out) = a.hash_raw time memory parallelism password salt (to_size hash_len)
    check_argon2 rc
    return (overwrite out hash)

  unfoldable pub password_hash_encoded :
      (r : Rand) → Bytes → (time memory parallelism : ℕ) (hash_len salt_len : ℤ) → M r.World Bytes
  password_hash_encoded r password time memory parallelism hash_len salt_len = do
    let encode_len = a.encoded_len time memory parallelism (to_size salt_len) (to_size hash_len)
    encoded ← sized encode_len
    salt ← generate_random_bytes r (to_size salt_len)
    let (rc, out) =
        a.hash_encoded time memory parallelism password (take (to_size salt_len) salt)
          (to_size hash_len) encode_len
    check_argon2 rc
    return (resize (encode_len - 1) (overwrite out encoded))

  -- The overload that takes the encoded hash.
  unfoldable pub password_verify : (password encoded : Bytes) → Bool
  password_verify password encoded = a.verify (c_str encoded) password ==ℤ pos 0

  -- The overload that takes the hash and the salt.
  unfoldable pub password_verify_raw :
      {W : Type 0} → (password hash salt : Bytes) (time memory parallelism : ℕ) → M W Bool
  password_verify_raw password hash salt time memory parallelism = do
    let hash_len = int32 (length hash)
    let salt_len = int32 (length salt)
    password_hash ← sized (to_size hash_len)
    let (rc, out) =
        a.hash_raw time memory parallelism password (take (to_size salt_len) salt)
          (to_size hash_len)
    check_argon2 rc
    return (bytes_eq (overwrite out password_hash) hash)
