-- ===== src/Tests/Delivery.antt =====
-- src/http.cpp with a libcurl that accepts every option, and whose header lists are numbered.
use klib.Base.{
  ℕ, Bool, true, false, none, some, Option, List, [], ◌∷◌, ◌++◌, Bytes, Dict, codes, ◌==◌,
  if◌then◌else◌,
}
use klib.Base.Int.{pos}
use klib.Http.Curl.{Curl, CurlOption, Arg}
use klib.Http.Request.Options.{transient, default_arg}
use klib.Http.Request.Slist.{keeps_method}
use klib.Http.Delivery.{url_args}

-- The options, the lines of the one list, and whether the method is GET.
abbrev State : Type 0
State = (ℕ → Arg) × List Bytes × Bool

abbrev kept : Option ℕ → List Bytes → List Bytes
kept none ls = []
kept (some l) ls = ls

abbrev method_after : CurlOption → Bool → Bool
method_after CurlOption.httpget b = true
method_after o b = if keeps_method o then b else false

abbrev sending : Curl
sending = record {
  World = State;
  long_size = 4;
  easy_init = λ w. (some 1, w);
  easy_cleanup = λ h w. w;
  global_cleanup = λ w. w;
  setopt = λ h o a w. (0, (λ k. if transient o == k then a else w.0 k, w.1, method_after o w.2));
  perform = λ h w. ((0, codes "bo" ∷ codes "dy" ∷ []), w);
  response_code = λ h w. ((0, pos 200), w);
  strerror = λ rc. codes "error";
  slist_append = λ l s w. (some 1, (w.0, kept l w.1 ++ (s ∷ []), w.2));
  slist_free_all = λ l w. w;
  mime_init = λ h w. (1, w);
  mime_addpart = λ f p w. w;
  mime_free = λ f w. w;
  escape = some;
  unescape = some;
  is_regular_file = λ p w. false;
  getenv = λ n w. none;
  cacert = [];
}

abbrev option_of : State → ℕ → ℕ → Arg
option_of w h k = w.0 k

abbrev lines_of : State → Option ℕ → List Bytes
lines_of w l = kept l w.1

abbrev accept : Dict
accept = (codes "Accept", codes "text") ∷ []

abbrev start : State
start = (default_arg, [], false)

abbrev to_a : ℕ → Arg
to_a = url_args (codes "http://a") default_arg
