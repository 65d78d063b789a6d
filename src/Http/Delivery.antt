-- ===== src/Http/Delivery.antt =====
-- src/http.cpp: the request that `get` performs, from the arguments to the response.
use klib.Base.{ℕ, ltb, ◌≡◌, false, Option, List, Bytes, Dict, c_str}
use klib.Exception.{Result, ok}
use klib.Http.Curl.{Curl, CurlOption, Arg}
use klib.Http.Request.{Response}
use klib.Http.Request.Options.{IsCurl, IsReset}
use klib.Http.Request.Slist.{IsSlist, IsMethod, Succeeds, with_arg}
use klib.Http.Request.Sent.{Carried}

-- The options of a request to a URL.
abbrev pub url_args : Bytes → (ℕ → Arg) → ℕ → Arg
url_args url = with_arg CurlOption.opt_url (Arg.chars (c_str url))

module _ (c : Curl) (value : c.World → ℕ → ℕ → Arg) (L : IsCurl c value)
    (lines : c.World → Option ℕ → List Bytes) (N : IsSlist c lines) (IsGet : c.World → ℕ → Type 0)
    (I : IsMethod c IsGet) (G : Succeeds c) (narrow : ltb 4 c.long_size ≡ false) (h : ℕ) where
  -- The code returns a response that answers a request with these options and headers, and the handle is
  -- as it was.
  abbrev pub Delivers : (ℕ → Arg) → Dict → Result Response × c.World → Type 0
  Delivers S headers result =
      (r : Response) × (w' : c.World) × (result ≡ (ok r, w'))
      × Carried c value L lines N IsGet I G narrow h S headers r
      × IsReset c value L h w'
