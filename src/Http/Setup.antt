-- ===== src/Http/Setup.antt =====
-- src/http.cpp: making and destroying a `Request::RequestImpl`, and its options.
pub mod Verify
use klib.Base.{
  ℕ, Bool, Option, none, some, List, [], ◌∷◌, ◌++◌, Bytes, Dict, codes, c_str, is_empty,
  if◌then◌else◌,
}
use klib.Base.Int.{ℤ, pos}
use klib.Exception.{◌>>=◌, ◌>>◌, return, raise, scope_fail, runtime_error}
use klib.Http.Curl.{Curl, CurlOption, Arg}
use klib.Http.Request.{Do, act, call, set_option}

abbrev pub value_or : Option Bytes → Bytes → Bytes
value_or none d = d
value_or (some s) d = s

abbrev opt_chars : Bytes → Arg
opt_chars s = if is_empty s then Arg.null else Arg.chars (c_str s)

module _ (c : Curl) where
  -- `cookies_path` and `altsvc_path`, made when the program starts
  abbrev pub home : c.World → Bytes
  home w = value_or (c.getenv (codes "HOME") w) (codes "/tmp")

  unfoldable pub cookies_path : c.World → Bytes
  cookies_path w = home w ++ codes "/.cookies.txt"

  unfoldable pub altsvc_path : c.World → Bytes
  altsvc_path w = home w ++ codes "/.altsvc.txt"

  -- The options that the constructor sets, in its order. `CURLALTSVC_H1 | CURLALTSVC_H2` is 24.
  unfoldable pub initial_options : Bytes → Bytes → List (CurlOption × Arg)
  initial_options cookies altsvc =
      (CurlOption.cainfo, Arg.null)
      ∷ (CurlOption.capath, Arg.null)
      ∷ (CurlOption.cainfo_blob, Arg.blob c.cacert)
      ∷ (CurlOption.ssl_verifyhost, Arg.long (pos 0))
      ∷ (CurlOption.ssl_verifypeer, Arg.long (pos 0))
      ∷ (CurlOption.buffersize, Arg.long (pos 102400))
      ∷ (CurlOption.followlocation, Arg.long (pos 1))
      ∷ (CurlOption.maxredirs, Arg.long (pos 50))
      ∷ (CurlOption.tcp_keepalive, Arg.long (pos 1))
      ∷ (CurlOption.cookiefile, Arg.chars (c_str cookies))
      ∷ (CurlOption.cookiejar, Arg.chars (c_str cookies))
      ∷ (CurlOption.altsvc, Arg.chars (c_str altsvc))
      ∷ (CurlOption.altsvc_ctrl, Arg.long (pos 24))
      ∷ (CurlOption.accept_encoding, Arg.chars (codes "gzip, deflate, br"))
      ∷ (CurlOption.writefunction, Arg.callback)
      ∷ []

  -- One `curl_easy_setopt` with its check after the other.
  unfoldable pub set_options : ℕ → List (CurlOption × Arg) → Do c (Unit {0})
  unfolding set_option
  set_options h [] = return tt
  set_options h ((option, arg) ∷ rest) =
      let next = set_options h rest in (do set_option c h option arg; next)

  abbrev pub clean_up : Option ℕ → Do c (Unit {0})
  clean_up h = do act c (c.easy_cleanup h); act c c.global_cleanup

  abbrev pub set_up : Bytes → Bytes → Option ℕ → Do c ℕ
  set_up cookies altsvc none = raise (runtime_error (codes "curl_easy_init() failed") [])
  set_up cookies altsvc (some h) = do set_options h (initial_options cookies altsvc); return h

  -- The constructor, with the two paths.
  unfoldable pub make_request : Bytes → Bytes → Do c ℕ
  unfolding set_options initial_options
  make_request cookies altsvc = do
    h ← call c c.easy_init
    scope_fail (clean_up h) (set_up cookies altsvc h)

  -- The destructor.
  unfoldable pub destroy_request : ℕ → Do c (Unit {0})
  destroy_request h = clean_up (some h)

  unfoldable pub verbose : ℕ → Bool → Do c (Unit {0})
  unfolding set_option
  verbose h flag = set_option c h CurlOption.opt_verbose (Arg.long (pos (if flag then 1 else 0)))

  unfoldable pub set_proxy : ℕ → Bytes → Do c (Unit {0})
  unfolding set_option
  set_proxy h proxy = set_option c h CurlOption.proxy (opt_chars proxy)

  unfoldable pub set_no_proxy : ℕ → Bytes → Do c (Unit {0})
  unfolding set_option
  set_no_proxy h no_proxy = set_option c h CurlOption.noproxy (opt_chars no_proxy)

  unfoldable pub set_proxy_from_env : ℕ → Do c (Unit {0})
  unfolding set_proxy set_no_proxy
  set_proxy_from_env h = do
    λ w. set_proxy h (value_or (c.getenv (codes "HTTP_PROXY") w) []) w
    λ w. set_no_proxy h (value_or (c.getenv (codes "NO_PROXY") w) []) w

  unfoldable pub set_doh_url : ℕ → Bytes → Do c (Unit {0})
  unfolding set_option
  set_doh_url h url = set_option c h CurlOption.doh_url (Arg.chars (c_str url))

  unfoldable pub set_user_agent : ℕ → Bytes → Do c (Unit {0})
  unfolding set_option
  set_user_agent h user_agent = set_option c h CurlOption.useragent (Arg.chars (c_str user_agent))

  unfoldable pub set_browser_user_agent : ℕ → Do c (Unit {0})
  unfolding set_user_agent
  set_browser_user_agent h = set_user_agent h (
      codes "Mozilla/5.0 (X11; Linux x86_64) AppleWebKit/537.36 (KHTML, like Gecko) "
      ++ codes "Chrome/103.0.5060.53 Safari/537.36 Edg/103.0.1264.37")

  unfoldable pub set_timeout : ℕ → ℤ → Do c (Unit {0})
  unfolding set_option
  set_timeout h seconds = set_option c h CurlOption.timeout (Arg.long seconds)

  unfoldable pub set_connect_timeout : ℕ → ℤ → Do c (Unit {0})
  unfolding set_option
  set_connect_timeout h seconds = set_option c h CurlOption.connecttimeout (Arg.long seconds)

  unfoldable pub cookie_text : Dict → Bytes → Bytes
  cookie_text [] cookies_str = cookies_str
  cookie_text ((key, value) ∷ cookies) cookies_str =
      cookie_text cookies (cookies_str ++ (key ++ (codes "=" ++ (value ++ codes ";"))))

  unfoldable pub set_cookie : ℕ → Dict → Do c (Unit {0})
  unfolding set_option cookie_text
  set_cookie h cookies =
      set_option c h CurlOption.cookie (Arg.chars (c_str (cookie_text cookies [])))

  -- `CURLAUTH_BASIC` is 1.
  unfoldable pub basic_auth : ℕ → Bytes → Bytes → Do c (Unit {0})
  unfolding set_option
  basic_auth h user_name password = do
    set_option c h CurlOption.httpauth (Arg.long (pos 1))
    set_option c h CurlOption.username (Arg.chars (c_str user_name))
    set_option c h CurlOption.password (Arg.chars (c_str password))
