-- ===== src/Http/Request/Slist.antt =====
-- What libcurl promises a request of src/http.cpp, and the header lines and the body in its terms.
use klib.Base.{
  ℕ, ◌∙◌, sym, ◌≡◌, Bool, true, false, ◌||◌, Option, none, List, [], ◌∷◌, ◌++◌, append-nil,
  append_assoc, Bytes, Dict, ◌==◌, if◌then◌else◌, is_empty, codes, c_str, All,
}
use klib.Base.Int.{pos}
use klib.Http.Curl.{Curl, CurlOption, Arg}
use klib.Http.Request.{receive}
use klib.Http.Request.Options.{transient}

-- What libcurl promises of header lists: appending to a list, or to none, gives the list with the line
-- behind the others, and setting an option changes no list.
pub record IsSlist (c : Curl) (lines : c.World → Option ℕ → List Bytes) : Type 0 where
  pub none_lem : (w : c.World) → lines w none ≡ []
  pub append_lem :
      (l : Option ℕ) (s : Bytes) (w : c.World)
      → lines (c.slist_append l s w).1 (c.slist_append l s w).0 ≡ lines w l ++ (s ∷ [])
  pub setopt_lem :
      (h : ℕ) (o : CurlOption) (a : Arg) (w : c.World) (l : Option ℕ)
      → lines (c.setopt h o a w).1 l ≡ lines w l

-- The options that do not change the method of the next transfer.
abbrev pub keeps_method : CurlOption → Bool
keeps_method CurlOption.httpget = false
keeps_method CurlOption.httppost = false
keeps_method CurlOption.postfields = false
keeps_method CurlOption.mimepost = false
keeps_method o = true

-- What libcurl promises of the method of a handle's next transfer, where `IsGet` says that it is GET:
-- `CURLOPT_HTTPGET` makes it GET, and only an option that is about the method changes it.
pub record IsMethod (c : Curl) (IsGet : c.World → ℕ → Type 0) : Type 0 where
  pub httpget_lem :
      (h : ℕ) (w : c.World)
      → (c.setopt h CurlOption.httpget (Arg.long (pos 1)) w).0 ≡ 0
      → IsGet (c.setopt h CurlOption.httpget (Arg.long (pos 1)) w).1 h
  pub setopt_keeps :
      (h : ℕ) (o : CurlOption) (a : Arg) (w : c.World)
      → keeps_method o ≡ true
      → IsGet w h
      → IsGet (c.setopt h o a w).1 h
  pub append_keeps :
      (h : ℕ) (l : Option ℕ) (s : Bytes) (w : c.World)
      → IsGet w h
      → IsGet (c.slist_append l s w).1 h
  pub free_keeps : (h : ℕ) (l : Option ℕ) (w : c.World) → IsGet w h → IsGet (c.slist_free_all l w) h
  pub perform_keeps : (h : ℕ) (w : c.World) → IsGet w h → IsGet (c.perform h w).1 h
  pub response_keeps : (h : ℕ) (w : c.World) → IsGet w h → IsGet (c.response_code h w).1 h

-- libcurl reports no error of the options of a GET request, the transfer and the status.
pub record Succeeds (c : Curl) : Type 0 where
  pub httpget_ok :
      (h : ℕ) (w : c.World) → (c.setopt h CurlOption.httpget (Arg.long (pos 1)) w).0 ≡ 0
  pub setopt_ok :
      (h : ℕ) (o : CurlOption) (a : Arg) (w : c.World)
      → keeps_method o ≡ true
      → (c.setopt h o a w).0 ≡ 0
  pub perform_ok : (h : ℕ) (w : c.World) → (c.perform h w).0.0 ≡ 0
  pub response_ok : (h : ℕ) (w : c.World) → (c.response_code h w).0.0 ≡ 0

-- `key: value`, in the order of iteration.
unfoldable pub header_lines : Dict → List Bytes
header_lines [] = []
header_lines ((key, v) ∷ headers) = c_str (key ++ (codes ": " ++ v)) ∷ header_lines headers

-- No key and no value is empty.
abbrev pub Filled : Dict → Type 0
Filled headers = All (λ (e : Bytes × Bytes). (is_empty e.0 || is_empty e.1) ≡ false) headers

-- The blocks one behind the other.
unfoldable pub concat : List Bytes → Bytes
concat [] = []
concat (b ∷ blocks) = b ++ concat blocks

pub receive-concat : (blocks : List Bytes) (s : Bytes) → receive blocks s ≡ s ++ concat blocks
unfolding receive concat
receive-concat [] s = sym (append-nil s)
receive-concat (b ∷ blocks) s = receive-concat blocks (s ++ b) ∙ append_assoc s b (concat blocks)

-- The options `S` with one of them changed.
abbrev pub with_arg : CurlOption → Arg → (ℕ → Arg) → ℕ → Arg
with_arg o a S k = if transient o == k then a else S k
