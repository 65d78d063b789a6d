-- ===== src/Http/Setup/Verify.antt =====
-- What the constructor of a request of src/http.cpp leaves in the options that guard the connection.
use klib.Base.{
  ℕ, ◌≡◌, ◌≢◌, refl, sym, ap, ◌∙◌, ◌⊎◌, inl, inr, Option, none, some, List, [], ◌∷◌, arith, Bytes,
  All, ◌==◌, Bool-cases,
}
use klib.Base.Int.{pos}
use klib.Exception.{Result, ok, throw, terminated, and_then, fail_with, return}
use klib.Http.Curl.{Curl, CurlOption, Arg}
use klib.Http.Request.{set_option}
use klib.Http.Setup.{set_options, initial_options, clean_up, set_up, make_request}

-- The last setting of an option in a list has this argument.
abbrev LastSet : CurlOption → Arg → List (CurlOption × Arg) → Type 0
LastSet o a [] = ⊥
LastSet o a ((o', a') ∷ xs) =
    ((o' ≡ o) × (a' ≡ a) × All (λ (x : CurlOption × Arg). x.0 ≢ o) xs) ⊎ LastSet o a xs

-- `value w h o` is what the option `o` of the handle is. A successful `curl_easy_setopt` sets its option,
-- and no call sets another one.
pub record HasOptions (c : Curl) (value : c.World → ℕ → CurlOption → Arg) : Type 0 where
  pub setopt_self :
      (h : ℕ) (o : CurlOption) (a : Arg) (w : c.World)
      → (c.setopt h o a w).0 ≡ 0
      → value (c.setopt h o a w).1 h o ≡ a
  pub setopt_other :
      (h : ℕ) (o o' : CurlOption) (a : Arg) (w : c.World)
      → o ≢ o'
      → value (c.setopt h o a w).1 h o' ≡ value w h o'

module _ (c : Curl) (value : c.World → ℕ → CurlOption → Arg) (L : HasOptions c value) where
  set_option-ok :
      (h : ℕ) (o : CurlOption) (a : Arg) (rest : List (CurlOption × Arg)) (w w' : c.World)
      → set_options c h ((o, a) ∷ rest) w ≡ (ok tt, w')
      → ((c.setopt h o a w).0 ≡ 0) × (set_options c h rest (c.setopt h o a w).1 ≡ (ok tt, w'))
  unfolding set_options set_option
  set_option-ok h o a rest w w' e = elim (Bool-cases ((c.setopt h o a w).0 == 0)) [
    | inl y ↦ (ground arith, rw y at e)
    | inr n ↦ absurd (let e' = rw n at e in cc)
  ]

  set_options_keeps :
      (h : ℕ) (o : CurlOption) (xs : List (CurlOption × Arg)) (w w' : c.World)
      → All (λ (x : CurlOption × Arg). x.0 ≢ o) xs
      → set_options c h xs w ≡ (ok tt, w')
      → value w' h o ≡ value w h o
  unfolding set_options
  set_options_keeps h o [] w w' _ e = let same : w ≡ w' = cc in ap (λ v. value v h o) (cc)
  set_options_keeps h o ((o', a) ∷ xs) w w' (ne, nes) e =
      let (rc, e') = set_option-ok h o' a xs w w' e in
      set_options_keeps h o xs (c.setopt h o' a w).1 w' nes e' ∙ L.setopt_other h o' o a w ne

  set_options-LastSet :
      (h : ℕ) (o : CurlOption) (a : Arg) (xs : List (CurlOption × Arg)) (w w' : c.World)
      → LastSet o a xs
      → set_options c h xs w ≡ (ok tt, w')
      → value w' h o ≡ a
  set_options-LastSet h o a [] w w' l e = absurd l
  set_options-LastSet h o a ((o', a') ∷ xs) w w' (inl (same, arg, nes)) e =
      let (rc, e') = set_option-ok h o' a' xs w w' e in
      set_options_keeps h o xs (c.setopt h o' a' w).1 w' nes e'
      ∙ ap (λ p. value (c.setopt h o' a' w).1 h p) (sym same)
      ∙ L.setopt_self h o' a' w rc
      ∙ arg
  set_options-LastSet h o a ((o', a') ∷ xs) w w' (inr l) e =
      let (rc, e') = set_option-ok h o' a' xs w w' e in
      set_options-LastSet h o a xs (c.setopt h o' a' w).1 w' l e'

  set_up_ok :
      (made h : ℕ) (r : Result (Unit {0}) × c.World) (w' : c.World)
      → fail_with (and_then r (λ _. return made)) (clean_up c (some made)) ≡ (ok h, w')
      → (made ≡ h) × (r ≡ (ok tt, w'))
  set_up_ok made h (ok _, w) w' e = (cc, cc)
  set_up_ok made h (throw x, w) w' e = absurd (cc)
  set_up_ok made h (terminated, w) w' e = absurd (cc)

  make_request-set_options :
      (cookies altsvc : Bytes) (w w' : c.World) (h : ℕ)
      → make_request c cookies altsvc w ≡ (ok h, w')
      → set_options c h (initial_options c cookies altsvc) (c.easy_init w).1 ≡ (ok tt, w')
  unfolding make_request
  make_request-set_options cookies altsvc w w' h e = go (c.easy_init w).0 refl e
    where
      go :
          (o : Option ℕ)
          → (c.easy_init w).0 ≡ o
          → fail_with (set_up c cookies altsvc o (c.easy_init w).1) (clean_up c o) ≡ (ok h, w')
          → set_options c h (initial_options c cookies altsvc) (c.easy_init w).1 ≡ (ok tt, w')
      go none q f = absurd (cc)
      go (some made) q f =
          let (same, r) =
            set_up_ok made h
              (set_options c made (initial_options c cookies altsvc) (c.easy_init w).1) w' f in
          rw same at r

  -- With a libcurl that does what `HasOptions` says: if the constructor returns a handle, neither
  -- the certificate of the server nor its name is checked on it; both options are 0.
  pub make_request-unverified :
      (cookies altsvc : Bytes) (w w' : c.World) (h : ℕ)
      → make_request c cookies altsvc w ≡ (ok h, w')
      → (value w' h CurlOption.ssl_verifypeer ≡ Arg.long (pos 0))
        × (value w' h CurlOption.ssl_verifyhost ≡ Arg.long (pos 0))
  unfolding initial_options
  make_request-unverified cookies altsvc w w' h e =
      let made = make_request-set_options cookies altsvc w w' h e in
      let options = initial_options c cookies altsvc in
      (
        set_options-LastSet h CurlOption.ssl_verifypeer (Arg.long (pos 0)) options (c.easy_init w).1
            w'
            (inr (
              inr (
                inr (
                  inr (
                    inl (
                      refl,
                      refl,
                      (cc, (cc, (cc, (cc, (cc, (cc, (cc, (cc, (cc, (cc, tt)))))))))),
                    ))))))
            made,
        set_options-LastSet h CurlOption.ssl_verifyhost (Arg.long (pos 0)) options (c.easy_init w).1
            w'
            (inr (
              inr (
                inr (
                  inl (
                    refl,
                    refl,
                    (cc, (cc, (cc, (cc, (cc, (cc, (cc, (cc, (cc, (cc, (cc, tt))))))))))),
                  )))))
            made,
      )
