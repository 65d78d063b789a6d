-- ===== src/Util.antt =====
-- src/util.cpp and include/klib/util.h.
pub mod Hex
pub mod FileName
pub mod Process
pub mod Random
pub mod Env
pub mod Files
