-- ===== src/Http/Post.antt =====
-- src/http.cpp: the POST requests of `Request::RequestImpl`.
pub mod Fields
pub mod Reset
use klib.Base.{
  ℕ, ◌+◌, ◌≡◌, refl, Bool, true, false, not, ◌&&◌, ◌||◌, Option, none, some, List, [], ◌∷◌, ◌++◌,
  arith, Bytes, Dict, codes, c_str, length, is_empty, assign, ◌==◌, if◌then◌else◌,
}
use klib.Base.Int.{ℤ, pos, negsuc}
use klib.Exception.{
  Result, ok, throw, terminated, M, ◌>>=◌, ◌>>◌, return, raise, throw_if, scope_exit, scope_fail,
}
use klib.Http.Curl.{Curl, CurlOption, Arg}
use klib.Http.Request.{
  Do, act, set_option, Response, with_fields, with_url, with_headers, do_easy_perform, add_form,
  form_arg, url_encode,
}

-- `if (result.ends_with("&")) result.pop_back();`
unfoldable pub drop_last_and : Bytes → Bytes
drop_last_and [] = []
drop_last_and (c ∷ []) = if c == b'&' then [] else c ∷ []
drop_last_and (c ∷ d ∷ s) = c ∷ drop_last_and (d ∷ s)

-- `headers_copy["Content-Type"] = "application/json";`
unfoldable pub json_headers : Dict → Dict
unfolding assign
json_headers = assign (codes "Content-Type") (codes "application/json")

module _ (c : Curl) where
  -- The loop of `splicing_post_fields`.
  unfoldable pub splice : Dict → Bytes → Do c Bytes
  unfolding url_encode
  splice [] result = return result
  splice ((key, value) ∷ fields) result =
      let rest = λ (r : Bytes). splice fields r in
      (do
        k ← url_encode c key
        v ← url_encode c value
        rest (result ++ (k ++ (codes "=" ++ (v ++ codes "&")))))

  unfoldable pub splicing_post_fields : Dict → Do c Bytes
  unfolding splice drop_last_and
  splicing_post_fields fields = do result ← splice fields []; return (drop_last_and result)

  unfoldable pub post : ℕ → Bytes → Dict → Dict → Do c Response
  unfolding set_option splicing_post_fields with_fields with_url with_headers do_easy_perform
  post h url fields headers = do
    set_option c h CurlOption.httppost (Arg.long (pos 1))
    post_fields ← splicing_post_fields fields
    with_fields c h post_fields (with_url c h url (with_headers c h headers (do_easy_perform c h)))

  unfoldable pub post_json : ℕ → Bytes → Bytes → Dict → Do c Response
  unfolding set_option with_fields with_url with_headers do_easy_perform json_headers
  post_json h url json headers = do
    set_option c h CurlOption.httppost (Arg.long (pos 1))
    with_fields c h json
        (with_url c h url (with_headers c h (json_headers headers) (do_easy_perform c h)))

  -- The guard of a form, and what stands below it.
  unfoldable pub with_form : ℕ → Dict → Dict → Do c Response → Do c Response
  unfolding add_form set_option
  with_form h fields files body = do
    form ← add_form c h fields files
    scope_exit (do act c (c.mime_free form); set_option c h CurlOption.mimepost Arg.null) body

  unfoldable pub post_mime : ℕ → Bytes → Dict → Dict → Dict → Do c Response
  unfolding set_option with_form with_url with_headers do_easy_perform
  post_mime h url fields files headers = do
    set_option c h CurlOption.httppost (Arg.long (pos 1))
    with_url c h url (with_headers c h headers (with_form h fields files (do_easy_perform c h)))
