-- ===== src/Http/Curl.antt =====
-- The functions of libcurl that src/http.cpp and src/url.cpp call, and the state of a handle.
use klib.Base.{ℕ, Bool, Option, Bytes, List}
use klib.Base.Int.{ℤ}

-- The options that the code sets.
pub data CurlOption : Type 0 where
  cainfo capath cainfo_blob ssl_verifyhost ssl_verifypeer buffersize followlocation maxredirs :
      CurlOption
  tcp_keepalive cookiefile cookiejar altsvc altsvc_ctrl accept_encoding writefunction : CurlOption
  opt_verbose proxy noproxy doh_url useragent timeout connecttimeout cookie httpauth : CurlOption
  username password httpget httppost opt_url httpheader postfields postfieldsize mimepost :
      CurlOption
  writedata : CurlOption

-- The argument of `curl_easy_setopt`.
pub data Arg : Type 0 where
  null : Arg
  long : ℤ → Arg
  chars : Bytes → Arg
  blob : Bytes → Arg
  slist : ℕ → Arg
  mime : ℕ → Arg
  callback : Arg
  buffer : Arg
  stdout : Arg

-- A part of a multipart form: text, or the path of a file.
pub data Part : Type 0 where
  data_part : Bytes → Bytes → Part
  file_part : Bytes → Bytes → Part

-- `World` is the library's state with the network, and `long_size` the number of bytes of a `long`, which
-- `CURLINFO_RESPONSE_CODE` stores. A header list and a form are numbered objects of
-- it. What `curl_easy_perform` passes to the write callback is the list of the blocks.
pub record Curl : Type 1 where
  pub World : Type 0
  pub long_size : ℕ
  pub easy_init : World → Option ℕ × World
  pub easy_cleanup : Option ℕ → World → World
  pub global_cleanup : World → World
  pub setopt : ℕ → CurlOption → Arg → World → ℕ × World
  pub perform : ℕ → World → (ℕ × List Bytes) × World
  pub response_code : ℕ → World → (ℕ × ℤ) × World
  pub strerror : ℕ → Bytes
  pub slist_append : Option ℕ → Bytes → World → Option ℕ × World
  pub slist_free_all : Option ℕ → World → World
  pub mime_init : ℕ → World → ℕ × World
  pub mime_addpart : ℕ → Part → World → World
  pub mime_free : Option ℕ → World → World
  pub escape : Bytes → Option Bytes
  pub unescape : Bytes → Option Bytes
  pub is_regular_file : Bytes → World → Bool
  pub getenv : Bytes → World → Option Bytes
  pub cacert : Bytes
