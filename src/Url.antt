-- ===== src/Url.antt =====
-- src/url.cpp and include/klib/url.h: taking a URL apart and building one.
pub mod Query
pub mod CurlUrl
pub mod Parse
