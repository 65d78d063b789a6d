-- ===== src/Tests/Http.antt =====
-- src/http.cpp with a libcurl whose state is the transient options of its one handle.
use klib.Base.{
  ℕ, zero, suc, ◌≡◌, refl, Bool, true, false, none, some, [], ◌∷◌, arith, Dict, codes, ◌==◌,
  if◌then◌else◌,
}
use klib.Base.Int.{pos}
use klib.Exception.{ok}
use klib.Exception.Triple.{Ends}
use klib.Http.Curl.{Curl, Arg}
use klib.Http.Request.{get}
use klib.Http.Request.Options.{transient, default_arg, IsCurl, IsReset, get-IsReset}
use klib.Http.Post.{splicing_post_fields, post, post_json, post_mime}
use klib.Http.Post.Reset.{post-IsReset}
use klib.Http.Post.Fields.{join_and, splicing_post_fields-join_and}

abbrev Options : Type 0
Options = ℕ → Arg

-- An empty text is refused.
abbrev is_refused : Arg → Bool
is_refused (Arg.chars []) = true
is_refused a = false

abbrev toy : Curl
toy = record {
  World = Options;
  long_size = 4;
  easy_init = λ w. (some 1, w);
  easy_cleanup = λ h w. w;
  global_cleanup = λ w. w;
  setopt = λ h o a w. (
    if is_refused a then 43 else 0,
    λ k. if is_refused a then w k else if transient o == k then a else w k,
  );
  perform = λ h w. ((0, codes "body" ∷ []), w);
  response_code = λ h w. ((0, pos 200), w);
  strerror = λ rc. codes "error";
  slist_append = λ l s w. (some 1, w);
  slist_free_all = λ l w. w;
  mime_init = λ h w. (1, w);
  mime_addpart = λ f p w. w;
  mime_free = λ f w. w;
  escape = some;
  unescape = some;
  is_regular_file = λ p w. true;
  getenv = λ n w. none;
  cacert = [];
}

abbrev option_of : Options → ℕ → ℕ → Arg
option_of w h k = w k

default_accepted : (k : ℕ) → is_refused (default_arg k) ≡ false
default_accepted zero = refl
default_accepted (suc zero) = refl
default_accepted (suc (suc zero)) = refl
default_accepted (suc (suc (suc zero))) = refl
default_accepted (suc (suc (suc (suc zero)))) = refl
default_accepted (suc (suc (suc (suc (suc zero))))) = refl
default_accepted (suc (suc (suc (suc (suc (suc zero)))))) = refl
default_accepted (suc (suc (suc (suc (suc (suc (suc k))))))) = refl

toy-IsCurl : IsCurl toy option_of
toy-IsCurl = record {
  setopt_value = λ h o a w k nz. ground arith;
  reset_ok = λ h o w t. rw (default_accepted (transient o)) refl;
  perform_value = λ h w k. refl;
  response_value = λ h w k. refl;
  append_value = λ h l s w k. refl;
  free_value = λ h l w k. refl;
  mime_value = λ h w k. refl;
  part_value = λ h f p w k. refl;
  mime_free_value = λ h f w k. refl;
}

default_arg-IsReset : IsReset toy option_of toy-IsCurl 1 default_arg
default_arg-IsReset = λ k nz. refl

abbrev headers : Dict
headers = (codes "Accept", codes "text") ∷ []

get-IsReset_example :
    Ends
      (λ _. IsReset toy option_of toy-IsCurl 1)
      (IsReset toy option_of toy-IsCurl 1)
      (get toy 1 (codes "http://a") headers default_arg)
get-IsReset_example =
    get-IsReset toy option_of toy-IsCurl 1 (codes "http://a") headers default_arg
      default_arg-IsReset

post-IsReset_example :
    Ends
      (λ _. IsReset toy option_of toy-IsCurl 1)
      (IsReset toy option_of toy-IsCurl 1)
      (post toy 1 (codes "http://a") headers headers default_arg)
    × Ends
        (λ _. IsReset toy option_of toy-IsCurl 1)
        (IsReset toy option_of toy-IsCurl 1)
        (post_json toy 1 (codes "http://a") (codes "1") headers default_arg)
    × Ends
        (λ _. IsReset toy option_of toy-IsCurl 1)
        (IsReset toy option_of toy-IsCurl 1)
        (post_mime toy 1 (codes "http://a") headers headers headers default_arg)
post-IsReset_example =
    post-IsReset toy option_of toy-IsCurl 1 (codes "http://a") (codes "1") headers headers headers
      default_arg default_arg-IsReset

splicing_post_fields-join_and_example :
    splicing_post_fields toy ((codes "a", codes "1") ∷ (codes "b", codes "2") ∷ []) default_arg
    ≡ (ok (codes "a=1&b=2"), default_arg)
unfolding join_and
splicing_post_fields-join_and_example =
    splicing_post_fields-join_and toy (λ s. s) (λ s. refl)
      ((codes "a", codes "1") ∷ (codes "b", codes "2") ∷ []) default_arg
