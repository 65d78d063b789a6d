-- ===== src/Crypto.antt =====
-- src/crypto.cpp: AES with a key of 256 bits.
pub mod Evp
pub mod Cipher
pub mod Aes
