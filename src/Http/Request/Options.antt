-- ===== src/Http/Request/Options.antt =====
-- The options of a handle that a request of src/http.cpp sets for its own duration.
use klib.Base.{
  ℕ, zero, suc, ◌∙◌, ap, ==_iff, ◌≡◌, ◌≢◌, refl, Bool, false, ◌&&◌, ltb, ◌||◌, Option, none, [],
  ◌∷◌, ◌++◌, arith, Bytes, Dict, ◌==◌, if◌then◌else◌, Bool-cases, is_empty, inl, inr, codes, c_str,
  length,
}
use klib.Base.Int.{pos, negsuc}
use klib.Exception.{Result, ok, throw, terminated}
use klib.Exception.Triple.{Ends, Triple, Keeps, Triple-bind, Triple-scope_exit, Keeps-bind}
use klib.Http.Curl.{Curl, CurlOption, Arg, Part}
use klib.Http.Request.{
  Do, set_option, try_option, add_lines, list_arg, add_header, do_easy_perform, with_headers,
  with_url, with_fields, Response, get,
}

-- The transient options, numbered, and what they are outside a request.
abbrev pub transient : CurlOption → ℕ
transient CurlOption.opt_url = 1
transient CurlOption.httpheader = 2
transient CurlOption.postfields = 3
transient CurlOption.postfieldsize = 4
transient CurlOption.mimepost = 5
transient CurlOption.writedata = 6
transient _ = 0

abbrev pub default_arg : ℕ → Arg
default_arg (suc (suc (suc (suc zero)))) = Arg.long (negsuc 0)
default_arg (suc (suc (suc (suc (suc (suc zero)))))) = Arg.stdout
default_arg n = Arg.null

abbrev pub no_exception : ℕ → Bool
no_exception k = false

-- What libcurl promises of a handle's transient options: a successful `curl_easy_setopt` sets its
-- option and no other, a failed one sets nothing, resetting succeeds, and no other call sets one.
pub record IsCurl (c : Curl) (value : c.World → ℕ → ℕ → Arg) : Type 0 where
  pub setopt_value :
      (h : ℕ) (o : CurlOption) (a : Arg) (w : c.World) (k : ℕ)
      → k ≢ 0
      → value (c.setopt h o a w).1 h k
        ≡ (if (c.setopt h o a w).0 == 0 && transient o == k then a else value w h k)
  pub reset_ok :
      (h : ℕ) (o : CurlOption) (w : c.World)
      → transient o ≢ 0
      → (c.setopt h o (default_arg (transient o)) w).0 ≡ 0
  pub perform_value : (h : ℕ) (w : c.World) (k : ℕ) → value (c.perform h w).1 h k ≡ value w h k
  pub response_value :
      (h : ℕ) (w : c.World) (k : ℕ) → value (c.response_code h w).1 h k ≡ value w h k
  pub append_value :
      (h : ℕ) (l : Option ℕ) (s : Bytes) (w : c.World) (k : ℕ)
      → value (c.slist_append l s w).1 h k ≡ value w h k
  pub free_value :
      (h : ℕ) (l : Option ℕ) (w : c.World) (k : ℕ) → value (c.slist_free_all l w) h k ≡ value w h k
  pub mime_value : (h : ℕ) (w : c.World) (k : ℕ) → value (c.mime_init h w).1 h k ≡ value w h k
  pub part_value :
      (h f : ℕ) (p : Part) (w : c.World) (k : ℕ) → value (c.mime_addpart f p w) h k ≡ value w h k
  pub mime_free_value :
      (h : ℕ) (f : Option ℕ) (w : c.World) (k : ℕ) → value (c.mime_free f w) h k ≡ value w h k

module _ (c : Curl) (value : c.World → ℕ → ℕ → Arg) (L : IsCurl c value) (h : ℕ) where
  -- All transient options but those of `S` are at their defaults.
  abbrev pub Clean : (ℕ → Bool) → c.World → Type 0
  Clean S w = (k : ℕ) → k ≢ 0 → S k ≡ false → value w h k ≡ default_arg k

  abbrev pub but : CurlOption → (ℕ → Bool) → ℕ → Bool
  but o S k = transient o == k || S k

  pub set_option_lem :
      (S : ℕ → Bool) (o : CurlOption) (a : Arg)
      → Triple (Clean S) (set_option c h o a) (λ _. Clean (but o S)) (Clean S)
  unfolding set_option
  set_option_lem S o a w p = elim (Bool-cases ((c.setopt h o a w).0 == 0)) [
    | inl y ↦ rw y (λ k nz out. ground (arith, L.setopt_value h o a w k nz, p k nz))
    | inr n ↦ rw n (λ k nz out. ground (arith, L.setopt_value h o a w k nz, p k nz))
  ]

  pub set_option_plain :
      (S : ℕ → Bool) (o : CurlOption) (a : Arg)
      → transient o ≡ 0
      → Keeps (Clean S) (set_option c h o a)
  unfolding set_option
  set_option_plain S o a t w p = elim (Bool-cases ((c.setopt h o a w).0 == 0)) [
    | inl y ↦ rw y (λ k nz out. ground (arith, L.setopt_value h o a w k nz, p k nz))
    | inr n ↦ rw n (λ k nz out. ground (arith, L.setopt_value h o a w k nz, p k nz))
  ]

  try_option_lem :
      (S : ℕ → Bool) (o : CurlOption) (a : Arg)
      → Triple (Clean S) (try_option c h o a) (λ _. Clean (but o S)) (Clean S)
  unfolding try_option
  try_option_lem S o a w p k nz out = ground (arith, L.setopt_value h o a w k nz, p k nz)

  reset_value :
      (S : ℕ → Bool) (o : CurlOption) (w : c.World)
      → transient o ≢ 0
      → Clean (but o S) w
      → Clean S (c.setopt h o (default_arg (transient o)) w).1
  reset_value S o w t p k nz out = elim (Bool-cases (transient o == k)) [
    | inl y ↦ ground (
      arith,
      L.setopt_value h o (default_arg (transient o)) w k nz,
      L.reset_ok h o w t,
      ap default_arg ((==_iff (transient o) k).0 y),
    )
    | inr n ↦
        ground
          (arith, L.setopt_value h o (default_arg (transient o)) w k nz, L.reset_ok h o w t, p k nz)
  ]

  pub reset_lem :
      (S : ℕ → Bool) (o : CurlOption) (a : Arg)
      → transient o ≢ 0
      → a ≡ default_arg (transient o)
      → Triple (Clean (but o S)) (set_option c h o a) (λ _. Clean S) (Clean S)
  unfolding set_option
  reset_lem S o a t e w p =
      rw e (rw (L.reset_ok h o w t) (λ k nz out. reset_value S o w t p k nz out))

  pub Clean-frame :
      (S : ℕ → Bool) (w w' : c.World)
      → ((k : ℕ) → value w' h k ≡ value w h k)
      → Clean S w
      → Clean S w'
  Clean-frame S w w' same p k nz out = same k ∙ p k nz out

  add_lines-Keeps :
      (S : ℕ → Bool) (headers : Dict) (chunk : Option ℕ)
      → Keeps (Clean S) (add_lines c chunk headers)
  unfolding add_lines
  add_lines-Keeps S [] chunk w p = p
  add_lines-Keeps S ((key, v) ∷ headers) chunk w p =
      elim (Bool-cases (is_empty key || is_empty v)) [
        | inl bad ↦ rw bad p
        | inr good ↦
            let line = c_str (key ++ (codes ": " ++ v)) in
            rw good
              (add_lines-Keeps S headers _ _ (Clean-frame S w _ (L.append_value h chunk line w) p))
      ]

  add_header-Triple :
      (S : ℕ → Bool) (headers : Dict)
      → Triple
          (Clean S)
          (add_header c h headers)
          (λ _. Clean (but CurlOption.httpheader S))
          (Clean S)
  unfolding add_header
  add_header-Triple S [] w p = λ k nz out. ground (arith, p k nz)
  add_header-Triple S (header ∷ headers) w p =
      Triple-bind (Clean S) (λ _. Clean S) (Clean S) (λ _. Clean (but CurlOption.httpheader S))
        (add_lines c none (header ∷ headers)) _ (add_lines-Keeps S (header ∷ headers) none)
        (λ chunk.
          Triple-bind (Clean S) (λ _. Clean (but CurlOption.httpheader S)) (Clean S)
            (λ _. Clean (but CurlOption.httpheader S))
            (set_option c h CurlOption.httpheader (list_arg c chunk)) _
            (set_option_lem S CurlOption.httpheader (list_arg c chunk)) (λ _ w q. q))
        w p

  -- The transfer leaves the write target at the default.
  pub do_easy_perform-Keeps : (S : ℕ → Bool) → Keeps (Clean S) (do_easy_perform c h)
  unfolding do_easy_perform
  do_easy_perform-Keeps S =
      Triple-bind (Clean S) (λ _. Clean (but CurlOption.writedata S)) (Clean S) (λ _. Clean S)
        (set_option c h CurlOption.writedata Arg.buffer) _
        (set_option_lem S CurlOption.writedata Arg.buffer)
        (λ _.
          Triple-scope_exit (Clean (but CurlOption.writedata S))
            (Clean (but CurlOption.writedata S)) (Clean S) _ _
            (λ w p.
              let performed =
                Clean-frame (but CurlOption.writedata S) w _ (L.perform_value h w) p in
              let asked =
                Clean-frame (but CurlOption.writedata S) (c.perform h w).1 _
                  (L.response_value h (c.perform h w).1) performed in
              elim (Bool-cases ((c.perform h w).0.0 == 0)) [
                | inr n ↦ rw n performed
                | inl y ↦ elim (Bool-cases ((c.response_code h (c.perform h w).1).0.0 == 0)) [
                  | inr n ↦ rw (y, n) asked
                  | inl z ↦ elim (Bool-cases (ltb 4 c.long_size)) [
                    | inr fits ↦ rw (y, z, fits) asked
                    | inl wide ↦ rw (y, z, wide) tt
                  ]
                ]
              ])
            (reset_lem S CurlOption.writedata Arg.stdout (omega arith) refl))

  pub with_headers-Keeps :
      (S : ℕ → Bool) (headers : Dict) (body : Do c Response)
      → Keeps (Clean (but CurlOption.httpheader S)) body
      → Keeps (Clean S) (with_headers c h headers body)
  unfolding with_headers
  with_headers-Keeps S headers body keep =
      Triple-bind (Clean S) (λ _. Clean (but CurlOption.httpheader S)) (Clean S) (λ _. Clean S)
        (add_header c h headers) _ (add_header-Triple S headers)
        (λ chunk.
          Triple-scope_exit (Clean (but CurlOption.httpheader S))
            (Clean (but CurlOption.httpheader S)) (Clean S) _ body keep
            (λ w p.
              reset_lem S CurlOption.httpheader Arg.null (omega arith) refl
                (c.slist_free_all chunk w)
                (Clean-frame (but CurlOption.httpheader S) w _ (L.free_value h chunk w) p)))

  pub with_url-Keeps :
      (S : ℕ → Bool) (url : Bytes) (body : Do c Response)
      → Keeps (Clean (but CurlOption.opt_url S)) body
      → Keeps (Clean S) (with_url c h url body)
  unfolding with_url
  with_url-Keeps S url body keep =
      Triple-bind (Clean S) (λ _. Clean (but CurlOption.opt_url S)) (Clean S) (λ _. Clean S)
        (try_option c h CurlOption.opt_url (Arg.chars (c_str url))) _
        (try_option_lem S CurlOption.opt_url (Arg.chars (c_str url)))
        (λ _.
          Triple-scope_exit (Clean (but CurlOption.opt_url S)) (Clean (but CurlOption.opt_url S))
            (Clean S) _ body keep (reset_lem S CurlOption.opt_url Arg.null (omega arith) refl))

  pub with_fields-Keeps :
      (S : ℕ → Bool) (fields : Bytes) (body : Do c Response)
      → Keeps (Clean (but CurlOption.postfieldsize (but CurlOption.postfields S))) body
      → Keeps (Clean S) (with_fields c h fields body)
  unfolding with_fields
  with_fields-Keeps S fields body keep =
      let T = but CurlOption.postfields S in
      let V = but CurlOption.postfieldsize T in
      Triple-bind (Clean S) (λ _. Clean T) (Clean S) (λ _. Clean S)
        (set_option c h CurlOption.postfields (Arg.chars fields)) _
        (set_option_lem S CurlOption.postfields (Arg.chars fields))
        (λ _.
          Triple-scope_exit (Clean T) (Clean T) (Clean S) _ _
            (Triple-bind (Clean T) (λ _. Clean V) (Clean T) (λ _. Clean T)
              (set_option c h CurlOption.postfieldsize (Arg.long (pos (length fields)))) _
              (set_option_lem T CurlOption.postfieldsize (Arg.long (pos (length fields))))
              (λ _.
                Triple-scope_exit (Clean V) (Clean V) (Clean T) _ body keep
                  (reset_lem T CurlOption.postfieldsize (Arg.long (negsuc 0)) (omega arith) refl)))
            (reset_lem S CurlOption.postfields Arg.null (omega arith) refl))

  -- Every transient option of the handle is at its default.
  abbrev pub IsReset : c.World → Type 0
  IsReset w = (k : ℕ) → k ≢ 0 → value w h k ≡ default_arg k

  Ends-IsReset :
      {A : Type 0} (r : Result A × c.World)
      → Ends (λ _. Clean no_exception) (Clean no_exception) r
      → Ends (λ _. IsReset) IsReset r
  Ends-IsReset (ok a, w) e = λ k nz. e k nz refl
  Ends-IsReset (throw x, w) e = λ k nz. e k nz refl
  Ends-IsReset (terminated, w) e = tt

  pub Keeps-IsReset :
      {A : Type 0} (m : Do c A) (w : c.World)
      → Keeps (Clean no_exception) m
      → IsReset w
      → Ends (λ _. IsReset) IsReset (m w)
  Keeps-IsReset m w keep p = Ends-IsReset (m w) (keep w (λ k nz _. p k nz))

  get-Keeps : (url : Bytes) (headers : Dict) → Keeps (Clean no_exception) (get c h url headers)
  unfolding get
  get-Keeps url headers =
      Keeps-bind (Clean no_exception) (set_option c h CurlOption.httpget (Arg.long (pos 1))) _
        (set_option_plain no_exception CurlOption.httpget (Arg.long (pos 1)) refl)
        (λ _.
          with_url-Keeps no_exception url _
            (with_headers-Keeps _ headers _ (do_easy_perform-Keeps _)))

  -- With a libcurl that does what `IsCurl` says: however `get` ends, by a return or by an
  -- exception, the URL, the header list, the fields, the form and the write target of the handle
  -- are at their defaults if they were before.
  pub get-IsReset :
      (url : Bytes) (headers : Dict) (w : c.World)
      → IsReset w
      → Ends (λ _. IsReset) IsReset (get c h url headers w)
  get-IsReset url headers w = Keeps-IsReset (get c h url headers) w (get-Keeps url headers)
