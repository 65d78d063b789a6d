-- ===== src/Url/Parse.antt =====
-- src/url.cpp: the class `URL`, its constructor and `to_string`.
use klib.Base.{
  ℕ, zero, suc, ◌+◌, ◌-◌, ◌*◌, ◌^◌, ◌&&◌, Option, none, some, List, [], ◌∷◌, ◌++◌, Bytes, Dict,
  codes, c_str, is_empty, ltb, leb, ◌==◌, if◌then◌else◌,
}
use klib.Base.Int.{ℤ, pos, negsuc, ◌==ℤ◌}
use klib.Exception.{runtime_error, Result, ok, throw, terminated}
use klib.Url.Query.{parse_query}
use klib.Url.CurlUrl.{
  CurlUrl, UrlPart, urle_ok, no_code, flag_decode, flag_encode, flag_append_encode,
}

pub record Url : Type 0 where
  pub schema : Bytes
  pub host : Bytes
  pub port : ℤ
  pub path : Bytes
  pub query : Dict
  pub fragment : Bytes
  pub user : Bytes
  pub password : Bytes

-- The members' initialisers: the default constructor.
unfoldable pub empty_url : Url
empty_url = record {
  schema = codes "https";
  host = [];
  port = pos 0;
  path = [];
  query = [];
  fragment = [];
  user = [];
  password = [];
}

infixl 5 ◌>>=◌
abbrev pub ◌>>=◌ : {A B : Type 0} → Result A → (A → Result B) → Result B
ok a >>= f = f a
throw e >>= f = throw e
terminated >>= f = terminated

unfoldable pub digits : Bytes → ℕ → Option ℕ → Option ℕ
digits [] n found = found
digits (c ∷ s) n found =
    let m = n * 10 + (c - b'0') in
    let rest = digits s m (some m) in if leb b'0' c && leb c b'9' then rest else found

-- `std::from_chars` on `std::int32_t`: a text with no number, or with one out of range, leaves the
-- variable.
unfoldable pub from_chars : Bytes → ℤ → ℤ
unfolding digits
from_chars [] old = old
from_chars (c ∷ s) old =
    if c == b'-'
    then elim (digits s 0 none) [
      | none ↦ old
      | some zero ↦ pos 0
      | some (suc n) ↦ if ltb n (2 ^ 31) then negsuc n else old
    ]
    else elim (digits (c ∷ s) 0 none) [
      | none ↦ old
      | some n ↦ if ltb n (2 ^ 31) then pos n else old
    ]

module _ (c : CurlUrl) where
  -- `CHECK_CURL_URL(rc)` in front of a value
  abbrev pub checked : {A : Type 0} → ℕ → A → Result A
  checked rc a = if rc == urle_ok then ok a else throw (runtime_error (c.url_strerror rc) [])

  -- A part that a URL may lack: the value, or the default if the status says that there is none.
  unfoldable pub get_part : {A : Type 0} → UrlPart → ℕ → (Bytes → A) → A → c.Handle → Result A
  get_part part flags f default h =
      let (rc, str) = c.url_get part flags h in
      if rc == no_code part then ok default else checked rc (f str)

  unfoldable pub read_parts : (Bytes → Bytes → List Bytes) → c.Handle → Result Url
  unfolding get_part from_chars parse_query empty_url
  read_parts split h = do
    schema ← get_part UrlPart.scheme 0 (λ s. s) (codes "https") h
    host' ← get_part UrlPart.host 0 (λ s. s) [] h
    port' ← get_part UrlPart.port 0 (λ s. from_chars s (pos 0)) (pos 0) h
    path' ←
        checked (c.url_get UrlPart.path flag_decode h).0 (c.url_get UrlPart.path flag_decode h).1
    query' ← get_part UrlPart.query flag_decode (λ s. parse_query split s []) [] h
    fragment' ← get_part UrlPart.fragment 0 (λ s. s) [] h
    user' ← get_part UrlPart.user 0 (λ s. s) [] h
    password' ← get_part UrlPart.password 0 (λ s. s) [] h
    ok (record {
      schema = schema;
      host = host';
      port = port';
      path = path';
      query = query';
      fragment = fragment';
      user = user';
      password = password';
    })

  abbrev pub with_handle : {A : Type 0} → Option c.Handle → (c.Handle → Result A) → Result A
  with_handle none f = throw (runtime_error (codes "curl_url() failed") [])
  with_handle (some h) f = f h

  abbrev pub set_part : UrlPart → Bytes → ℕ → c.Handle → Result c.Handle
  set_part part str flags h = let (rc, h') = c.url_set part (c_str str) flags h in checked rc h'

  -- `explicit URL(const std::string& url)`
  unfoldable pub parse_url : (Bytes → Bytes → List Bytes) → Bytes → Result Url
  unfolding read_parts
  parse_url split url =
      with_handle c.make (λ h. set_part UrlPart.whole url 0 h >>= read_parts split)

  abbrev pub set_some : UrlPart → Bytes → ℕ → c.Handle → Result c.Handle
  set_some part str flags h = if is_empty str then ok h else set_part part str flags h

  unfoldable pub set_query : Dict → c.Handle → Result c.Handle
  set_query [] h = ok h
  set_query ((key, value) ∷ d) h =
      let rest = λ (h' : c.Handle). set_query d h' in
      (set_part UrlPart.query (key ++ (codes "=" ++ value)) flag_append_encode h >>= rest)

  -- `to_string` with `std::to_string` on the port
  unfoldable pub to_string : (ℤ → Bytes) → Url → Result Bytes
  unfolding set_query ◌==ℤ◌
  to_string print u = with_handle c.make (λ start. do
    h ← set_some UrlPart.scheme u.schema 0 start
    h ← set_some UrlPart.host u.host 0 h
    h ← (if u.port ==ℤ pos 0 then ok h else set_part UrlPart.port (print u.port) 0 h)
    h ← set_some UrlPart.path u.path flag_encode h
    h ← set_query u.query h
    h ← set_some UrlPart.fragment u.fragment 0 h
    h ← set_some UrlPart.user u.user 0 h
    h ← set_some UrlPart.password u.password 0 h
    checked (c.url_get UrlPart.whole 0 h).0 (c.url_get UrlPart.whole 0 h).1)
