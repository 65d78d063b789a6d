-- ===== src/Http/Request/Sent.antt =====
-- What a request of src/http.cpp sends, and what it makes of the answer, where libcurl reports no error.
use klib.Base.{
  ltb, true, false, ◌≢◌, ℕ, ◌∙◌, ap, sym, ==_iff, ◌≡◌, ◌≢◌, refl, Option, none, List, [], ◌∷◌, ◌++◌,
  append-nil, append_assoc, arith, Bytes, Dict, ◌==◌, Bool-cases, inl, inr, codes, c_str,
}
use klib.Base.Int.{pos}
use klib.Exception.{scope_exit}
use klib.Exception.Total.{Returned, Total, Total-bind, Total-scope_exit, Returned-weaken}
use klib.Http.Curl.{Curl, CurlOption, Arg}
use klib.Http.Request.{
  Do, set_option, try_option, add_lines, list_arg, add_header, get_status, do_easy_perform,
  with_headers, with_url, Response,
}
use klib.Http.Request.Options.{transient, IsCurl}
use klib.Http.Request.Slist.{
  IsMethod, keeps_method, IsSlist, Succeeds, header_lines, Filled, concat, receive-concat, with_arg,
}

module _ (c : Curl) (value : c.World → ℕ → ℕ → Arg) (L : IsCurl c value)
    (lines : c.World → Option ℕ → List Bytes) (N : IsSlist c lines) (IsGet : c.World → ℕ → Type 0)
    (I : IsMethod c IsGet) (G : Succeeds c) (narrow : ltb 4 c.long_size ≡ false) (h : ℕ) where
  -- The transient options are exactly `S`, and the next transfer is a GET request.
  abbrev pub Has : (ℕ → Arg) → c.World → Type 0
  Has S w = ((k : ℕ) → k ≢ 0 → value w h k ≡ S k) × IsGet w h

  abbrev pub At : (ℕ → Arg) → Option ℕ → List Bytes → c.World → Type 0
  At S chunk ls w = Has S w × (lines w chunk ≡ ls)

  -- The answer to a request that is performed in a state.
  abbrev pub answer : c.World → Response
  answer w = record {
    status = (c.response_code h (c.perform h w).1).0.1;
    text = concat (c.perform h w).0.1;
  }

  set-At :
      (S : ℕ → Arg) (chunk : Option ℕ) (ls : List Bytes) (o : CurlOption) (a : Arg)
      → keeps_method o ≡ true
      → Total (At S chunk ls) (set_option c h o a) (λ _. At (with_arg o a S) chunk ls)
  unfolding set_option
  set-At S chunk ls o a keeps w ((p, g), q) =
      let good = G.setopt_ok h o a w keeps in
      rw good (
        (
          λ k nz. ground (arith, L.setopt_value h o a w k nz, good, p k nz),
          I.setopt_keeps h o a w keeps g,
        ),
        N.setopt_lem h o a w chunk ∙ q,
      )

  add_lines-At :
      (S : ℕ → Arg) (headers : Dict) (chunk : Option ℕ) (ls : List Bytes)
      → Filled headers
      → Total
          (At S chunk ls)
          (add_lines c chunk headers)
          (λ chunk'. At S chunk' (ls ++ header_lines headers))
  unfolding add_lines header_lines
  add_lines-At S [] chunk ls f w (p, q) = (p, q ∙ sym (append-nil ls))
  add_lines-At S ((key, v) ∷ headers) chunk ls (good, f) w ((p, g), q) =
      let line = c_str (key ++ (codes ": " ++ v)) in
      rw good (
        Returned-weaken (λ chunk'. At S chunk' ((ls ++ line ∷ []) ++ header_lines headers))
          (λ chunk'. At S chunk' (ls ++ (line ∷ header_lines headers)))
          (add_lines c (c.slist_append chunk line w).0 headers (c.slist_append chunk line w).1)
          (λ chunk' w' r. (r.0, r.1 ∙ append_assoc ls (line ∷ []) (header_lines headers)))
          (add_lines-At S headers (c.slist_append chunk line w).0 (ls ++ line ∷ []) f
            (c.slist_append chunk line w).1
            (
              (λ k nz. L.append_value h chunk line w k ∙ p k nz, I.append_keeps h chunk line w g),
              N.append_lem chunk line w ∙ ap (λ t. t ++ line ∷ []) q,
            )))

  -- An option that is at `a` needs no call to be set to it.
  with_arg_self :
      (o : CurlOption) (a : Arg) (S : ℕ → Arg) (k : ℕ)
      → S (transient o) ≡ a
      → S k ≡ with_arg o a S k
  with_arg_self o a S k e = elim (Bool-cases (transient o == k)) [
    | inl y ↦ rw y (ap S (sym ((==_iff (transient o) k).0 y)) ∙ e)
    | inr n ↦ rw n refl
  ]

  -- Setting an option and putting it back leaves `S`.
  with_arg_back :
      (o : CurlOption) (a b : Arg) (S : ℕ → Arg) (k : ℕ)
      → S (transient o) ≡ b
      → with_arg o b (with_arg o a S) k ≡ S k
  with_arg_back o a b S k e = elim (Bool-cases (transient o == k)) [
    | inl y ↦ rw y (sym e ∙ ap S ((==_iff (transient o) k).0 y))
    | inr n ↦ rw n refl
  ]

  -- From a state with no list yet.
  add_header-At :
      (S : ℕ → Arg) (headers : Dict)
      → Filled headers
      → S 2 ≡ Arg.null
      → Total (Has S) (add_header c h headers) (λ chunk.
        At (with_arg CurlOption.httpheader (list_arg c chunk) S) chunk (header_lines headers))
  unfolding add_header header_lines
  add_header-At S [] f e w (p, g) =
      ((λ k nz. p k nz ∙ with_arg_self CurlOption.httpheader Arg.null S k e, g), N.none_lem w)
  add_header-At S (header ∷ headers) f e w p =
      Total-bind (At S none []) (λ chunk. At S chunk (header_lines (header ∷ headers)))
        (λ chunk.
          At (with_arg CurlOption.httpheader (list_arg c chunk) S) chunk
            (header_lines (header ∷ headers)))
        (add_lines c none (header ∷ headers)) _ (add_lines-At S (header ∷ headers) none [] f)
        (λ chunk.
          Total-bind (At S chunk (header_lines (header ∷ headers)))
            (λ _.
              At (with_arg CurlOption.httpheader (list_arg c chunk) S) chunk
                (header_lines (header ∷ headers)))
            (λ chunk'.
              At (with_arg CurlOption.httpheader (list_arg c chunk') S) chunk'
                (header_lines (header ∷ headers)))
            (set_option c h CurlOption.httpheader (list_arg c chunk)) _
            (set-At S chunk (header_lines (header ∷ headers)) CurlOption.httpheader
              (list_arg c chunk) refl)
            (λ _ w' r. r))
        w (p, N.none_lem w)

  -- The response is the answer to a GET request that is performed in a state where the options are `S` and
  -- the list has the lines.
  abbrev pub Answers : (ℕ → Arg) → Option ℕ → List Bytes → Response → Type 0
  Answers S chunk ls r =
      (w : c.World) × ((k : ℕ) → k ≢ 0 → value w h k ≡ with_arg CurlOption.writedata Arg.buffer S k)
      × IsGet w h
      × (lines w chunk ≡ ls)
      × (r ≡ answer w)

  -- Resetting an option behind the code that it was set for.
  back :
      (S : ℕ → Arg) (o : CurlOption) (a b : Arg)
      → S (transient o) ≡ b
      → keeps_method o ≡ true
      → Total (Has (with_arg o a S)) (set_option c h o b) (λ _. Has S)
  unfolding set_option
  back S o a b e keeps w (p, g) =
      let good = G.setopt_ok h o b w keeps in
      rw good (
        λ k nz.
            ground (arith, L.setopt_value h o b w k nz, good, p k nz, with_arg_back o a b S k e),
        I.setopt_keeps h o b w keeps g,
      )

  do_easy_perform-Answers :
      (S : ℕ → Arg) (chunk : Option ℕ) (ls : List Bytes)
      → S 6 ≡ Arg.stdout
      → Total (At S chunk ls) (do_easy_perform c h) (λ r w. Answers S chunk ls r × Has S w)
  unfolding do_easy_perform get_status
  do_easy_perform-Answers S chunk ls e =
      let T = with_arg CurlOption.writedata Arg.buffer S in
      Total-bind (At S chunk ls) (λ _. At T chunk ls) (λ r w. Answers S chunk ls r × Has S w)
        (set_option c h CurlOption.writedata Arg.buffer) _
        (set-At S chunk ls CurlOption.writedata Arg.buffer refl)
        (λ _.
          Total-scope_exit (At T chunk ls) (λ r w. Answers S chunk ls r × Has T w)
            (λ r w. Answers S chunk ls r × Has S w) (set_option c h CurlOption.writedata Arg.stdout)
            _
            (λ w ((p, g), q).
              rw (G.perform_ok h w, G.response_ok h (c.perform h w).1, narrow)
                (
                  (
                    w,
                    p,
                    g,
                    q,
                    ap
                        (λ t. record {
                          status = (c.response_code h (c.perform h w).1).0.1;
                          text = t;
                        })
                        (receive-concat (c.perform h w).0.1 []),
                  ),
                  (
                    λ k nz. L.response_value h (c.perform h w).1 k ∙ L.perform_value h w k ∙ p k nz,
                    I.response_keeps h (c.perform h w).1 (I.perform_keeps h w g),
                  ),
                ))
            (λ r w (a, p).
              Returned-weaken (λ _. Has S) (λ _ w'. Answers S chunk ls r × Has S w')
                (set_option c h CurlOption.writedata Arg.stdout w) (λ _ w' q. (a, q))
                (back S CurlOption.writedata Arg.buffer Arg.stdout e refl w p)))

  -- The first option of a GET request.
  pub set_get-Has :
      (S : ℕ → Arg) (w : c.World)
      → ((k : ℕ) → k ≢ 0 → value w h k ≡ S k)
      → Returned (λ _. Has S) (set_option c h CurlOption.httpget (Arg.long (pos 1)) w)
  unfolding set_option
  set_get-Has S w p =
      let a = Arg.long (pos 1) in
      let good = G.httpget_ok h w in
      rw good (
        λ k nz. ground (arith, L.setopt_value h CurlOption.httpget a w k nz, good, p k nz),
        I.httpget_lem h w good,
      )

  try-Has :
      (S : ℕ → Arg) (o : CurlOption) (a : Arg)
      → keeps_method o ≡ true
      → Total (Has S) (try_option c h o a) (λ _. Has (with_arg o a S))
  unfolding try_option
  try-Has S o a keeps w (p, g) =
      let good = G.setopt_ok h o a w keeps in
      (
        λ k nz. ground (arith, L.setopt_value h o a w k nz, good, p k nz),
        I.setopt_keeps h o a w keeps g,
      )

  -- A guard that puts an option back.
  guarded :
      (R : Response → Type 0) (S T : ℕ → Arg) (action : Do c (Unit {0})) (body : Do c Response)
      → Total (Has T) body (λ r w. R r × Has T w)
      → Total (Has T) action (λ _. Has S)
      → Total (Has T) (scope_exit action body) (λ r w. R r × Has S w)
  guarded R S T action body b a =
      Total-scope_exit (Has T) (λ r w. R r × Has T w) (λ r w. R r × Has S w) action body b
        (λ r w (q, p).
          Returned-weaken (λ _. Has S) (λ _ w'. R r × Has S w') (action w) (λ _ w' p'. (q, p'))
            (a w p))

  -- The response answers a request with the options `S` and these headers.
  abbrev pub Carried : (ℕ → Arg) → Dict → Response → Type 0
  Carried S headers r =
      (chunk : Option ℕ) × Answers (with_arg CurlOption.httpheader (list_arg c chunk) S) chunk
        (header_lines headers) r

  pub with_headers-Carried :
      (S : ℕ → Arg) (headers : Dict)
      → Filled headers
      → S 2 ≡ Arg.null
      → S 6 ≡ Arg.stdout
      → Total
          (Has S)
          (with_headers c h headers (do_easy_perform c h))
          (λ r w. Carried S headers r × Has S w)
  unfolding with_headers
  with_headers-Carried S headers f e e' =
      let T = λ (chunk : Option ℕ). with_arg CurlOption.httpheader (list_arg c chunk) S in
      Total-bind (Has S) (λ chunk. At (T chunk) chunk (header_lines headers))
        (λ r w. Carried S headers r × Has S w) (add_header c h headers) _
        (add_header-At S headers f e)
        (λ chunk.
          Total-scope_exit (At (T chunk) chunk (header_lines headers))
            (λ r w. Answers (T chunk) chunk (header_lines headers) r × Has (T chunk) w)
            (λ r w. Carried S headers r × Has S w) _ (do_easy_perform c h)
            (do_easy_perform-Answers (T chunk) chunk (header_lines headers) e')
            (λ r w (a, (p, g)).
              Returned-weaken (λ _. Has S) (λ _ w'. Carried S headers r × Has S w')
                (set_option c h CurlOption.httpheader Arg.null (c.slist_free_all chunk w))
                (λ _ w' q. ((chunk, a), q))
                (back S CurlOption.httpheader (list_arg c chunk) Arg.null e refl
                  (c.slist_free_all chunk w)
                  (λ k nz. L.free_value h chunk w k ∙ p k nz, I.free_keeps h chunk w g))))

  pub with_url-Has :
      (R : Response → Type 0) (S : ℕ → Arg) (url : Bytes) (body : Do c Response)
      → S 1 ≡ Arg.null
      → Total
          (Has (with_arg CurlOption.opt_url (Arg.chars (c_str url)) S))
          body
          (λ r w. R r × Has (with_arg CurlOption.opt_url (Arg.chars (c_str url)) S) w)
      → Total (Has S) (with_url c h url body) (λ r w. R r × Has S w)
  unfolding with_url
  with_url-Has R S url body e b =
      let a = Arg.chars (c_str url) in
      let T = with_arg CurlOption.opt_url a S in
      Total-bind (Has S) (λ _. Has T) (λ r w. R r × Has S w) (try_option c h CurlOption.opt_url a) _
        (try-Has S CurlOption.opt_url a refl)
        (λ _.
          guarded R S T (set_option c h CurlOption.opt_url Arg.null) body b
            (back S CurlOption.opt_url a Arg.null e refl))
