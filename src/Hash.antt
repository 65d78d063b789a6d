-- ===== src/Hash.antt =====
-- src/hash.cpp: checksums, digests and password hashes.
pub mod Digest
pub mod Password
