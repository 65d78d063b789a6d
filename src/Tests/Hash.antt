-- ===== src/Tests/Hash.antt =====
-- src/hash.cpp with digests of zeros, and an Argon2 that hashes a password to its length.
use klib.Base.{
  ℕ, zero, suc, ◌+◌, ◌/◌, ◌%◌, ◌<◌, ◌≡◌, ◌≢◌, refl, true, false, [], ◌∷◌, arith, Bytes, length,
  replicate, length-replicate, All, bytes_eq, if◌then◌else◌,
}
use klib.Base.Int.{pos}
use klib.Exception.{ok}
use klib.Util.Random.{Rand, IsSeeded}
use klib.Util.Hex.{Fmt, IsFmt, hex_digit}
use klib.Hash.Digest.{
  Hashes, IsDigest, IsHashes, Spells, md5_hex, sha1_hex, sha224_hex, sha256_hex, sha384_hex,
  sha512_hex, unhex-md5_hex,
}
use klib.Hash.Password.{Argon2, password_hash_raw, password_hash_raw_salt, password_verify_raw}
use klib.Hash.Password.Verify.{IsArgon2, password_verify_raw-password_hash_raw}

All-zeros : (n : ℕ) → All (λ b. b < 256) (replicate n 0)
All-zeros zero = tt
All-zeros (suc n) = (omega arith, All-zeros n)

zeros-IsDigest : (n : ℕ) → IsDigest n (λ s. replicate n 0)
zeros-IsDigest n s = (length-replicate n 0, All-zeros n)

-- The state is the length of what was hashed.
abbrev blank : Hashes
blank = record {
  State = ℕ;
  xxh3_reset = λ w. (false, 0);
  xxh3_update = λ s w. (false, w + length s);
  xxh3_digest = λ w. w;
  crc32_z = λ n s. n;
  adler32_z = λ n s. 1;
  md5 = λ s. replicate 16 0;
  sha1 = λ s. replicate 20 0;
  sha224 = λ s. replicate 28 0;
  sha256 = λ s. replicate 32 0;
  sha384 = λ s. replicate 48 0;
  sha512 = λ s. replicate 64 0;
}

blank-IsHashes : IsHashes blank
blank-IsHashes = record {
  reset_lem = λ w w'. refl;
  md5_lem = zeros-IsDigest 16;
  sha1_lem = zeros-IsDigest 20;
  sha224_lem = zeros-IsDigest 28;
  sha256_lem = zeros-IsDigest 32;
  sha384_lem = zeros-IsDigest 48;
  sha512_lem = zeros-IsDigest 64;
}

abbrev two_digits : Fmt
two_digits = record {
  format_02x = λ b. hex_digit (b / 16) ∷ hex_digit (b % 16) ∷ [];
  format_x = λ n. hex_digit n ∷ [];
}

two_digits-IsFmt : IsFmt two_digits
two_digits-IsFmt = record { format_02x_lem = λ b h. refl }

unhex-md5_hex_example :
    Spells 16 (md5_hex blank two_digits (5 ∷ [])) (replicate 16 0)
    × Spells 20 (sha1_hex blank two_digits (5 ∷ [])) (replicate 20 0)
    × Spells 28 (sha224_hex blank two_digits (5 ∷ [])) (replicate 28 0)
    × Spells 32 (sha256_hex blank two_digits (5 ∷ [])) (replicate 32 0)
    × Spells 48 (sha384_hex blank two_digits (5 ∷ [])) (replicate 48 0)
    × Spells 64 (sha512_hex blank two_digits (5 ∷ [])) (replicate 64 0)
unhex-md5_hex_example = unhex-md5_hex blank blank-IsHashes two_digits two_digits-IsFmt (5 ∷ [])

abbrev zeros : Rand
zeros = record {
  World = ℕ;
  status = λ w. 1;
  poll = λ w. (1, w);
  bytes = λ n w. ((1, replicate n 0), w + n);
  error_string = λ w. [];
}

zeros-IsSeeded : IsSeeded zeros
zeros-IsSeeded = record { status_lem = λ w. refl; bytes_lem = λ n w. (refl, length-replicate n 0) }

-- A hash repeats the length of the password, and every encoded hash is the same.
abbrev sums : Argon2
sums = record {
  hash_raw = λ t m p password salt n. (pos 0, replicate n (length password));
  encoded_len = λ t m p k n. 3;
  hash_encoded = λ t m p password salt n size. (pos 0, 1 ∷ 2 ∷ 0 ∷ []);
  verify = λ encoded password. if bytes_eq encoded (1 ∷ 2 ∷ []) then pos 0 else pos 1;
  error_message = λ rc. [];
}

sums-IsArgon2 : IsArgon2 sums
unfolding bytes_eq
sums-IsArgon2 = record {
  hash_lem = λ t m p password salt n h. length-replicate n (length password);
  encoded_lem = λ t m p password salt n h.
      (1 ∷ 2 ∷ [], refl, refl, (λ e. omega arith, (λ e. omega arith, tt)), refl);
}

password_verify_raw-password_hash_raw_example :
    (hash : Bytes) × (salt : Bytes) × (w' : ℕ) × (password_hash_raw sums zeros
        (3 ∷ [])
        1
        64
        4
        (pos 2)
        (pos 8)
        0
      ≡ (ok (hash, salt), w'))
    × (length hash ≡ 2)
    × (length salt ≡ 8)
    × (password_hash_raw_salt sums (3 ∷ []) salt 1 64 4 (pos 2) w' ≡ (ok hash, w'))
    × (password_verify_raw sums (3 ∷ []) hash salt 1 64 4 w' ≡ (ok true, w'))
    × ((guess : Bytes)
        → pos 0 ≡ pos 0
        → replicate 2 (length guess) ≢ hash
        → password_verify_raw sums guess hash salt 1 64 4 w' ≡ (ok false, w'))
password_verify_raw-password_hash_raw_example =
    password_verify_raw-password_hash_raw sums sums-IsArgon2 1 64 4 zeros zeros-IsSeeded (3 ∷ []) 2
      8 0 (omega arith) (omega arith) (λ salt h. refl)
