-- ===== src/Tests/Setup.antt =====
-- src/http.cpp: the constructor of a request, with a libcurl whose state is all options of its one handle.
use klib.Base.{
  ℕ, ◌≡◌, ◌≢◌, refl, sym, ap, ◌∙◌, true, none, some, List, [], ◌∷◌, codes, get_or, ◌==◌, ==_refl,
  if◌then◌else◌, Bool-cases, inl, inr, ==_iff,
}
use klib.Base.Int.{pos}
use klib.Exception.{ok}
use klib.Http.Curl.{Curl, CurlOption, Arg}
use klib.Http.Setup.{make_request}
use klib.Http.Setup.Verify.{HasOptions, make_request-unverified}

abbrev all_options : List CurlOption
all_options =
    CurlOption.cainfo ∷ CurlOption.capath ∷ CurlOption.cainfo_blob ∷ CurlOption.ssl_verifyhost
    ∷ CurlOption.ssl_verifypeer ∷ CurlOption.buffersize ∷ CurlOption.followlocation
    ∷ CurlOption.maxredirs ∷ CurlOption.tcp_keepalive ∷ CurlOption.cookiefile ∷ CurlOption.cookiejar
    ∷ CurlOption.altsvc ∷ CurlOption.altsvc_ctrl ∷ CurlOption.accept_encoding
    ∷ CurlOption.writefunction ∷ CurlOption.opt_verbose ∷ CurlOption.proxy ∷ CurlOption.noproxy
    ∷ CurlOption.doh_url ∷ CurlOption.useragent ∷ CurlOption.timeout ∷ CurlOption.connecttimeout
    ∷ CurlOption.cookie ∷ CurlOption.httpauth ∷ CurlOption.username ∷ CurlOption.password
    ∷ CurlOption.httpget ∷ CurlOption.httppost ∷ CurlOption.opt_url ∷ CurlOption.httpheader
    ∷ CurlOption.postfields ∷ CurlOption.postfieldsize ∷ CurlOption.mimepost ∷ CurlOption.writedata
    ∷ []

abbrev number : CurlOption → ℕ
number CurlOption.cainfo = 0
number CurlOption.capath = 1
number CurlOption.cainfo_blob = 2
number CurlOption.ssl_verifyhost = 3
number CurlOption.ssl_verifypeer = 4
number CurlOption.buffersize = 5
number CurlOption.followlocation = 6
number CurlOption.maxredirs = 7
number CurlOption.tcp_keepalive = 8
number CurlOption.cookiefile = 9
number CurlOption.cookiejar = 10
number CurlOption.altsvc = 11
number CurlOption.altsvc_ctrl = 12
number CurlOption.accept_encoding = 13
number CurlOption.writefunction = 14
number CurlOption.opt_verbose = 15
number CurlOption.proxy = 16
number CurlOption.noproxy = 17
number CurlOption.doh_url = 18
number CurlOption.useragent = 19
number CurlOption.timeout = 20
number CurlOption.connecttimeout = 21
number CurlOption.cookie = 22
number CurlOption.httpauth = 23
number CurlOption.username = 24
number CurlOption.password = 25
number CurlOption.httpget = 26
number CurlOption.httppost = 27
number CurlOption.opt_url = 28
number CurlOption.httpheader = 29
number CurlOption.postfields = 30
number CurlOption.postfieldsize = 31
number CurlOption.mimepost = 32
number CurlOption.writedata = 33

numbered : (o : CurlOption) → get_or all_options (number o) CurlOption.cainfo ≡ o
numbered CurlOption.cainfo = refl
numbered CurlOption.capath = refl
numbered CurlOption.cainfo_blob = refl
numbered CurlOption.ssl_verifyhost = refl
numbered CurlOption.ssl_verifypeer = refl
numbered CurlOption.buffersize = refl
numbered CurlOption.followlocation = refl
numbered CurlOption.maxredirs = refl
numbered CurlOption.tcp_keepalive = refl
numbered CurlOption.cookiefile = refl
numbered CurlOption.cookiejar = refl
numbered CurlOption.altsvc = refl
numbered CurlOption.altsvc_ctrl = refl
numbered CurlOption.accept_encoding = refl
numbered CurlOption.writefunction = refl
numbered CurlOption.opt_verbose = refl
numbered CurlOption.proxy = refl
numbered CurlOption.noproxy = refl
numbered CurlOption.doh_url = refl
numbered CurlOption.useragent = refl
numbered CurlOption.timeout = refl
numbered CurlOption.connecttimeout = refl
numbered CurlOption.cookie = refl
numbered CurlOption.httpauth = refl
numbered CurlOption.username = refl
numbered CurlOption.password = refl
numbered CurlOption.httpget = refl
numbered CurlOption.httppost = refl
numbered CurlOption.opt_url = refl
numbered CurlOption.httpheader = refl
numbered CurlOption.postfields = refl
numbered CurlOption.postfieldsize = refl
numbered CurlOption.mimepost = refl
numbered CurlOption.writedata = refl

abbrev Handle : Type 0
Handle = CurlOption → Arg

abbrev put : CurlOption → Arg → Handle → Handle
put o a w p = if number o == number p then a else w p

abbrev toy : Curl
toy = record {
  World = Handle;
  long_size = 4;
  easy_init = λ w. (some 1, w);
  easy_cleanup = λ h w. w;
  global_cleanup = λ w. w;
  setopt = λ h o a w. (0, put o a w);
  perform = λ h w. ((0, codes "body" ∷ []), w);
  response_code = λ h w. ((0, pos 200), w);
  strerror = λ rc. codes "error";
  slist_append = λ l s w. (some 1, w);
  slist_free_all = λ l w. w;
  mime_init = λ h w. (1, w);
  mime_addpart = λ f p w. w;
  mime_free = λ f w. w;
  escape = some;
  unescape = some;
  is_regular_file = λ p w. true;
  getenv = λ n w. none;
  cacert = [];
}

abbrev option_of : Handle → ℕ → CurlOption → Arg
option_of w h o = w o

same_number : (o p : CurlOption) → number o ≡ number p → o ≡ p
same_number o p e =
    sym (numbered o) ∙ ap (λ n. get_or all_options n CurlOption.cainfo) e ∙ numbered p

put_other : (o p : CurlOption) (a : Arg) (w : Handle) → o ≢ p → put o a w p ≡ w p
put_other o p a w ne = elim (Bool-cases (number o == number p)) [
  | inl y ↦ absurd (ne (same_number o p ((==_iff (number o) (number p)).0 y)))
  | inr n ↦ rw n refl
]

toy-HasOptions : HasOptions toy option_of
toy-HasOptions = record {
  setopt_self = λ h o a w e. rw (==_refl (number o)) refl;
  setopt_other = λ h o p a w ne. put_other o p a w ne;
}

abbrev start : Handle
start o = Arg.null

abbrev constructed : Handle
constructed = (make_request toy (codes "/c") (codes "/a") start).1

returned : make_request toy (codes "/c") (codes "/a") start ≡ (ok 1, constructed)
unfolding make_request
returned = refl

make_request-unverified_example :
    (constructed CurlOption.ssl_verifypeer ≡ Arg.long (pos 0))
    × (constructed CurlOption.ssl_verifyhost ≡ Arg.long (pos 0))
make_request-unverified_example =
    make_request-unverified toy option_of toy-HasOptions (codes "/c") (codes "/a") start constructed
      1 returned
