-- ===== src/Archive.antt =====
-- src/archive.cpp: archives by libarchive, and data by Zstandard.
pub mod Zstd
pub mod Libarchive
pub mod Format
pub mod Names
pub mod Folder
pub mod Transfer
pub mod Entries
