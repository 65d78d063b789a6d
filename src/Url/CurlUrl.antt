-- ===== src/Url/CurlUrl.antt =====
-- The URL functions of libcurl that src/url.cpp calls, over a handle of an unknown type.
use klib.Base.{ℕ, Option, Bytes}

pub data UrlPart : Type 0 where
  whole scheme host port path query fragment user password : UrlPart

-- `url_set` and `url_get` take the flags; `url_get` gives a status and a C string.
pub record CurlUrl : Type 1 where
  pub Handle : Type 0
  pub make : Option Handle
  pub url_set : UrlPart → Bytes → ℕ → Handle → ℕ × Handle
  pub url_get : UrlPart → ℕ → Handle → ℕ × Bytes
  pub url_strerror : ℕ → Bytes

-- Status codes and flags of curl/urlapi.h.
abbrev pub urle_ok : ℕ
urle_ok = 0

abbrev pub no_code : UrlPart → ℕ
no_code UrlPart.scheme = 10
no_code UrlPart.user = 11
no_code UrlPart.password = 12
no_code UrlPart.host = 14
no_code UrlPart.port = 15
no_code UrlPart.query = 16
no_code UrlPart.fragment = 17
no_code other = 0

-- `CURLU_URLDECODE`, `CURLU_URLENCODE`, `CURLU_APPENDQUERY | CURLU_URLENCODE`
abbrev pub flag_decode : ℕ
flag_decode = 64

abbrev pub flag_encode : ℕ
flag_encode = 128

abbrev pub flag_append_encode : ℕ
flag_append_encode = 384
