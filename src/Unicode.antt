-- ===== src/Unicode.antt =====
-- src/unicode.cpp and include/klib/unicode.h.
pub mod Classes
pub mod Trim
pub mod Blank
pub mod Convert
