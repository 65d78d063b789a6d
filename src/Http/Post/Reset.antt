-- ===== src/Http/Post/Reset.antt =====
-- The transient options of a handle across the POST requests of src/http.cpp.
use klib.Base.{
  ℕ, refl, Bool, ◌&&◌, ◌||◌, Option, none, some, [], ◌∷◌, arith, Bytes, Dict, Bool-cases, inl, inr,
  is_empty, c_str,
}
use klib.Base.Int.{pos}
use klib.Exception.{◌>>◌}
use klib.Exception.Triple.{Ends, Triple, Keeps, Triple-bind, Triple-scope_exit, Keeps-bind}
use klib.Http.Curl.{Curl, CurlOption, Arg, data_part, file_part}
use klib.Http.Request.{
  Do, set_option, Response, add_form, add_data, add_files, make_form, url_encode, non_null,
}
use klib.Http.Request.Options.{
  IsCurl, Clean, but, no_exception, IsReset, Keeps-IsReset, set_option_lem, set_option_plain,
  reset_lem, Clean-frame, with_headers-Keeps, with_url-Keeps, with_fields-Keeps,
  do_easy_perform-Keeps,
}
use klib.Http.Post.{
  splice, splicing_post_fields, post, post_json, json_headers, with_form, post_mime,
}

module _ (c : Curl) (value : c.World → ℕ → ℕ → Arg) (L : IsCurl c value) (h : ℕ) where
  abbrev C : (ℕ → Bool) → c.World → Type 0
  C = Clean c value L h

  non_null-Keeps :
      (S : ℕ → Bool) (message : Bytes) (o : Option Bytes) → Keeps (C S) (non_null c message o)
  non_null-Keeps S message none = λ w p. p
  non_null-Keeps S message (some s) = λ w p. p

  url_encode-Keeps : (S : ℕ → Bool) (s : Bytes) → Keeps (C S) (url_encode c s)
  unfolding url_encode
  url_encode-Keeps S s = non_null-Keeps S _ (c.escape (c_str s))

  splice-Keeps :
      (S : ℕ → Bool) (fields : Dict) (result : Bytes) → Keeps (C S) (splice c fields result)
  unfolding splice
  splice-Keeps S [] result = λ w p. p
  splice-Keeps S ((key, v) ∷ fields) result =
      Keeps-bind (C S) (url_encode c key) _ (url_encode-Keeps S key) (λ k.
        Keeps-bind (C S) (url_encode c v) _ (url_encode-Keeps S v) (λ u. splice-Keeps S fields _))

  splicing-Keeps : (S : ℕ → Bool) (fields : Dict) → Keeps (C S) (splicing_post_fields c fields)
  unfolding splicing_post_fields
  splicing-Keeps S fields =
      Keeps-bind (C S) (splice c fields []) _ (splice-Keeps S fields []) (λ r w p. p)

  add_data-Keeps : (S : ℕ → Bool) (form : ℕ) (fields : Dict) → Keeps (C S) (add_data c form fields)
  unfolding add_data
  add_data-Keeps S form [] = λ w p. p
  add_data-Keeps S form ((key, v) ∷ fields) = λ w p.
      elim (Bool-cases (is_empty key || is_empty v)) [
        | inl bad ↦ rw bad p
        | inr good ↦ rw good (
            add_data-Keeps S form fields _ (
              Clean-frame c value L h S w _
                (L.part_value h form (data_part (c_str key) (c_str v)) w) p))
      ]

  add_files-Keeps : (S : ℕ → Bool) (form : ℕ) (files : Dict) → Keeps (C S) (add_files c form files)
  unfolding add_files
  add_files-Keeps S form [] = λ w p. p
  add_files-Keeps S form ((name, path) ∷ files) = λ w p.
      elim (Bool-cases (is_empty name || is_empty path)) [
        | inl bad ↦ rw bad p
        | inr good ↦ elim (Bool-cases (c.is_regular_file path w)) [
          | inr gone ↦ rw (good, gone) p
          | inl there ↦
              rw (good, there)
                (add_files-Keeps S form files _ (
                  Clean-frame c value L h S w _
                    (L.part_value h form (file_part (c_str name) (c_str path)) w) p))
        ]
      ]

  make_form-Triple :
      (S : ℕ → Bool) (fields files : Dict)
      → Triple
          (C S)
          (make_form c h fields files)
          (λ _. C (but c value L h CurlOption.mimepost S))
          (C S)
  unfolding make_form
  make_form-Triple S fields files w p =
      let T = but c value L h CurlOption.mimepost S in
      let form = (c.mime_init h w).0 in
      Triple-bind (C S) (λ _. C S) (C S) (λ _. C T) (add_data c form fields) _
        (add_data-Keeps S form fields)
        (λ _.
          Triple-bind (C S) (λ _. C S) (C S) (λ _. C T) (add_files c form files) _
            (add_files-Keeps S form files)
            (λ _.
              Triple-bind (C S) (λ _. C T) (C S) (λ _. C T)
                (set_option c h CurlOption.mimepost (Arg.mime form)) _
                (set_option_lem c value L h S CurlOption.mimepost (Arg.mime form)) (λ _ w q. q)))
        (c.mime_init h w).1 (Clean-frame c value L h S w _ (L.mime_value h w) p)

  add_form-Triple :
      (S : ℕ → Bool) (fields files : Dict)
      → Triple
          (C S)
          (add_form c h fields files)
          (λ _. C (but c value L h CurlOption.mimepost S))
          (C S)
  unfolding add_form
  add_form-Triple S fields files = elim (Bool-cases (is_empty fields && is_empty files)) [
    | inl none_given ↦ rw none_given (λ w p k nz out. ground (arith, p k nz))
    | inr given ↦ rw given (make_form-Triple S fields files)
  ]

  with_form-Keeps :
      (S : ℕ → Bool) (fields files : Dict) (body : Do c Response)
      → Keeps (C (but c value L h CurlOption.mimepost S)) body
      → Keeps (C S) (with_form c h fields files body)
  unfolding with_form
  with_form-Keeps S fields files body keep =
      let T = but c value L h CurlOption.mimepost S in
      Triple-bind (C S) (λ _. C T) (C S) (λ _. C S) (add_form c h fields files) _
        (add_form-Triple S fields files)
        (λ form. Triple-scope_exit (C T) (C T) (C S) _ body keep (λ w p.
          reset_lem c value L h S CurlOption.mimepost Arg.null (omega arith) refl
            (c.mime_free form w) (Clean-frame c value L h T w _ (L.mime_free_value h form w) p)))

  abbrev start :
      (m : Do c Response)
      → Keeps (C no_exception) m
      → Keeps (C no_exception) (set_option c h CurlOption.httppost (Arg.long (pos 1)) >> m)
  start m keep =
      Keeps-bind (C no_exception) (set_option c h CurlOption.httppost (Arg.long (pos 1))) _
        (set_option_plain c value L h no_exception CurlOption.httppost (Arg.long (pos 1)) refl)
        (λ _. keep)

  post-Keeps :
      (url : Bytes) (fields headers : Dict) → Keeps (C no_exception) (post c h url fields headers)
  unfolding post
  post-Keeps url fields headers = start _ (
      Keeps-bind (C no_exception) (splicing_post_fields c fields) _
        (splicing-Keeps no_exception fields)
        (λ text. with_fields-Keeps c value L h no_exception text _ (
          with_url-Keeps c value L h _ url _
            (with_headers-Keeps c value L h _ headers _ (do_easy_perform-Keeps c value L h _)))))

  post_json-Keeps :
      (url json : Bytes) (headers : Dict) → Keeps (C no_exception) (post_json c h url json headers)
  unfolding post_json
  post_json-Keeps url json headers = start _ (
      with_fields-Keeps c value L h no_exception json _ (
        with_url-Keeps c value L h _ url _ (
          with_headers-Keeps c value L h _ (json_headers headers) _
            (do_easy_perform-Keeps c value L h _))))

  post_mime-Keeps :
      (url : Bytes) (fields files headers : Dict)
      → Keeps (C no_exception) (post_mime c h url fields files headers)
  unfolding post_mime
  post_mime-Keeps url fields files headers = start _ (
      with_url-Keeps c value L h no_exception url _ (
        with_headers-Keeps c value L h _ headers _
          (with_form-Keeps _ fields files _ (do_easy_perform-Keeps c value L h _))))

  -- With a libcurl that does what `IsCurl` says: however the three POST requests end, by a return
  -- or by an exception, the URL, the header list, the fields, the form and the write target of
  -- the handle are at their defaults if they were before.
  pub post-IsReset :
      (url json : Bytes) (fields files headers : Dict) (w : c.World)
      → IsReset c value L h w
      → Ends (λ _. IsReset c value L h) (IsReset c value L h) (post c h url fields headers w)
        × Ends (λ _. IsReset c value L h) (IsReset c value L h) (post_json c h url json headers w)
        × Ends
            (λ _. IsReset c value L h)
            (IsReset c value L h)
            (post_mime c h url fields files headers w)
  post-IsReset url json fields files headers w p = (
    Keeps-IsReset c value L h (post c h url fields headers) w (post-Keeps url fields headers) p,
    Keeps-IsReset c value L h (post_json c h url json headers) w (post_json-Keeps url json headers)
        p,
    Keeps-IsReset c value L h (post_mime c h url fields files headers) w
        (post_mime-Keeps url fields files headers) p,
  )
