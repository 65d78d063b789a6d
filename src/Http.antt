-- ===== src/Http.antt =====
-- src/http.cpp and include/klib/http.h: HTTP requests over libcurl.
pub mod Status
pub mod Curl
pub mod Request
pub mod Response
pub mod Post
pub mod Setup
pub mod Delivery
