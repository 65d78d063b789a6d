-- ===== src/Http/Request.antt =====
-- src/http.cpp: the helpers of `Request::RequestImpl` and `get`, over the state of libcurl; `h` is `curl_`.
pub mod Options
pub mod Slist
pub mod Sent
use klib.Base.{
  ℕ, ◌+◌, ◌≡◌, refl, Bool, true, false, not, ◌&&◌, ltb, ◌||◌, Option, none, some, List, [], ◌∷◌,
  ◌++◌, arith, Bytes, Dict, codes, c_str, length, is_empty, assign, ◌==◌, if◌then◌else◌,
}
use klib.Base.Int.{ℤ, pos, negsuc, ◌==ℤ◌}
use klib.Exception.{
  Error, runtime_error, Result, ok, throw, terminated, M, ◌>>=◌, ◌>>◌, return, raise, throw_if,
  scope_exit, scope_fail,
}
use klib.Http.Curl.{Curl, CurlOption, Arg, Part, data_part, file_part}

pub record Response : Type 0 where
  pub status : ℤ
  pub text : Bytes

-- `callback_func_std_string`: what it leaves in the string, and what it returns.
unfoldable pub callback_func_std_string : Bytes → Bytes → Bytes × ℕ
callback_func_std_string contents s = (s ++ contents, length contents)

-- The calls of the write callback during a transfer.
unfoldable pub receive : List Bytes → Bytes → Bytes
unfolding callback_func_std_string
receive [] s = s
receive (contents ∷ blocks) s = receive blocks (callback_func_std_string contents s).0

module _ (c : Curl) where
  abbrev pub Do : Type 0 → Type 0
  Do A = M c.World A

  abbrev pub call : {A : Type 0} → (c.World → A × c.World) → Do A
  call f w = (ok (f w).0, (f w).1)

  abbrev pub act : (c.World → c.World) → Do (Unit {0})
  act f w = (ok tt, f w)

  -- `CHECK_CURL(rc)`
  abbrev pub check_curl : ℕ → Do (Unit {0})
  check_curl rc = throw_if (not (rc == 0)) (runtime_error (c.strerror rc) [])

  -- `auto rc = curl_easy_setopt(curl_, option, arg); CHECK_CURL(rc);`
  unfoldable pub set_option : ℕ → CurlOption → Arg → Do (Unit {0})
  set_option h option arg = do rc ← call (c.setopt h option arg); check_curl rc

  -- `rc = curl_easy_setopt(curl_, option, arg);`, with no check
  unfoldable pub try_option : ℕ → CurlOption → Arg → Do (Unit {0})
  try_option h option arg = do rc ← call (c.setopt h option arg); return tt

  -- The status is stored in a variable of 4 bytes.
  abbrev pub store_status : ℕ → Do (Unit {0})
  store_status rc w = if rc == 0 && ltb 4 c.long_size then (terminated, w) else (ok tt, w)

  unfoldable pub get_status : ℕ → Do ℤ
  get_status h = do
    (rc, status) ← call (c.response_code h)
    store_status rc
    check_curl rc
    return status

  -- The lines of the loop of `add_header`, from the list so far.
  unfoldable pub add_lines : Option ℕ → Dict → Do (Option ℕ)
  add_lines chunk [] = return chunk
  add_lines chunk ((key, value) ∷ headers) =
      let rest = λ (chunk' : Option ℕ). add_lines chunk' headers in
      (do
        throw_if (is_empty key || is_empty value)
            (runtime_error (codes "The header key and value can not be empty") [])
        chunk' ← call (c.slist_append chunk (c_str (key ++ (codes ": " ++ value))))
        rest chunk')

  abbrev pub list_arg : Option ℕ → Arg
  list_arg none = Arg.null
  list_arg (some l) = Arg.slist l

  unfoldable pub add_header : ℕ → Dict → Do (Option ℕ)
  unfolding add_lines set_option
  add_header h [] = return none
  add_header h (header ∷ headers) = do
    chunk ← add_lines none (header ∷ headers)
    set_option h CurlOption.httpheader (list_arg chunk)
    return chunk

  unfoldable pub add_data : ℕ → Dict → Do (Unit {0})
  add_data form [] = return tt
  add_data form ((key, value) ∷ fields) =
      let rest = add_data form fields in
      (do
        throw_if (is_empty key || is_empty value)
            (runtime_error (codes "The post form key and value can not be empty") [])
        act (c.mime_addpart form (data_part (c_str key) (c_str value)))
        rest)

  unfoldable pub add_files : ℕ → Dict → Do (Unit {0})
  add_files form [] = return tt
  add_files form ((file_name, path) ∷ files) =
      let rest = add_files form files in
      (do
        throw_if (is_empty file_name || is_empty path)
            (runtime_error (codes "The post file_name and path can not be empty") [])
        λ w.
            throw_if (not (c.is_regular_file path w))
              (runtime_error (codes "File '{}' not exist") (path ∷ [])) w
        act (c.mime_addpart form (file_part (c_str file_name) (c_str path)))
        rest)

  abbrev pub form_arg : Option ℕ → Arg
  form_arg none = Arg.null
  form_arg (some f) = Arg.mime f

  unfoldable pub make_form : ℕ → Dict → Dict → Do (Option ℕ)
  unfolding add_data add_files set_option
  make_form h fields files = do
    form ← call (c.mime_init h)
    add_data form fields
    add_files form files
    set_option h CurlOption.mimepost (Arg.mime form)
    return (some form)

  unfoldable pub add_form : ℕ → Dict → Dict → Do (Option ℕ)
  unfolding make_form
  add_form h fields files =
      if is_empty fields && is_empty files then return none else make_form h fields files

  unfoldable pub do_easy_perform : ℕ → Do Response
  unfolding set_option get_status receive
  do_easy_perform h = do
    set_option h CurlOption.writedata Arg.buffer
    scope_exit (set_option h CurlOption.writedata Arg.stdout) (do
      (rc, blocks) ← call (c.perform h)
      check_curl rc
      status ← get_status h
      return (record { status = status; text = receive blocks [] }))

  -- The guard of a header list, and what stands below it.
  unfoldable pub with_headers : ℕ → Dict → Do Response → Do Response
  unfolding add_header set_option
  with_headers h headers body = do
    chunk ← add_header h headers
    scope_exit (do act (c.slist_free_all chunk); set_option h CurlOption.httpheader Arg.null) body

  -- The URL is set with no check, and its guard resets it.
  unfoldable pub with_url : ℕ → Bytes → Do Response → Do Response
  unfolding try_option set_option
  with_url h url body = do
    try_option h CurlOption.opt_url (Arg.chars (c_str url))
    scope_exit (set_option h CurlOption.opt_url Arg.null) body

  -- `CURLOPT_POSTFIELDS`, a pointer to bytes that `CURLOPT_POSTFIELDSIZE` counts, with their guards.
  unfoldable pub with_fields : ℕ → Bytes → Do Response → Do Response
  unfolding set_option
  with_fields h fields body = do
    set_option h CurlOption.postfields (Arg.chars fields)
    scope_exit (set_option h CurlOption.postfields Arg.null) (do
      set_option h CurlOption.postfieldsize (Arg.long (pos (length fields)))
      scope_exit (set_option h CurlOption.postfieldsize (Arg.long (negsuc 0))) body)

  unfoldable pub get : ℕ → Bytes → Dict → Do Response
  unfolding set_option with_url with_headers do_easy_perform
  get h url headers = do
    set_option h CurlOption.httpget (Arg.long (pos 1))
    with_url h url (with_headers h headers (do_easy_perform h))

  -- `if (!ptr) throw`, with the message
  abbrev pub non_null : Bytes → Option Bytes → Do Bytes
  non_null message none w = (throw (runtime_error message []), w)
  non_null message (some s) w = (ok s, w)

  -- src/url.cpp: `url_encode`
  unfoldable pub url_encode : Bytes → Do Bytes
  url_encode str = non_null (codes "curl_easy_escape() failed") (c.escape (c_str str))

  -- src/url.cpp: `url_decode`
  unfoldable pub url_decode : Bytes → Do Bytes
  url_decode str = non_null (codes "curl_easy_unescape() failed") (c.unescape (c_str str))
