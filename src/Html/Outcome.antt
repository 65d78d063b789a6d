-- ===== src/Html/Outcome.antt =====
-- How src/html.cpp's `html_tidy` ends.
use klib.Base.{
  zero, suc, sym, ◌∙◌, List, [], ◌∷◌, codes, c_str, ℕ, ◌&&◌, ◌≡◌, refl, Bool, true, false, not,
  Bool-cases, inl, inr, Bytes, if◌then◌else◌,
}
use klib.Base.Int.{ℤ, pos, negsuc, is_negative}
use klib.Exception.{runtime_error, Result, ok, throw, terminated, exit_with}
use klib.Html.{
  TidyOption, Tidy, act, check_html_tidy, set_options, has_errors, then_step, tidied, force,
  xhtml_of, save, with_buffers, html_tidy,
}

-- Tidy accepts every option.
pub record Accepts (t : Tidy) : Type 0 where
  pub bool_lem :
      (doc : ℕ) (o : TidyOption) (b : Bool) (w : t.World) → (t.set_bool doc o b w).0 ≡ true
  pub int_lem : (doc : ℕ) (o : TidyOption) (n : ℕ) (w : t.World) → (t.set_int doc o n w).0 ≡ true

module _ (t : Tidy) (A : Accepts t) where
  -- The state with the five options set.
  abbrev pub options_set : ℕ → t.World → t.World
  options_set doc w0 =
      let w1 = (t.set_bool doc TidyOption.xhtml_out true w0).1 in
      let w2 = (t.set_bool doc TidyOption.show_warnings false w1).1 in
      let w3 = (t.set_int doc TidyOption.wrap_len 0 w2).1 in
      let w4 = (t.set_bool doc TidyOption.hide_comments true w3).1 in
      (t.set_bool doc TidyOption.mark false w4).1

  -- The state behind the four steps: the output is forced when they found errors.
  abbrev pub forced : ℕ → ℤ → t.World → t.World
  forced doc rc w = if has_errors t rc then (t.set_bool doc TidyOption.force_output true w).1 else w

  set_options-ok : (doc : ℕ) (w : t.World) → set_options t doc w ≡ (ok tt, options_set doc w)
  unfolding set_options check_html_tidy
  set_options-ok doc w = rw (A.bool_lem, A.bool_lem, A.int_lem, A.bool_lem, A.bool_lem) refl

  force-ok : (doc : ℕ) (rc : ℤ) (w : t.World) → force t doc rc w ≡ (ok tt, forced doc rc w)
  unfolding force check_html_tidy
  force-ok doc rc w = elim (Bool-cases (has_errors t rc)) [
    | inl y ↦ rw (y, A.bool_lem) refl
    | inr n ↦ rw n refl
  ]

  xhtml_of_alive :
      (ignore_error : Bool) (rc : ℤ) (e o : Bytes) → xhtml_of t ignore_error rc e o ≡ terminated → ⊥
  unfolding xhtml_of
  xhtml_of_alive ignore_error rc e o h = elim (Bool-cases (is_negative rc)) [
    | inl y ↦ absurd (cc)
    | inr n ↦ elim (Bool-cases (has_errors t rc && not ignore_error)) [
      | inl y ↦ absurd (cc)
      | inr m ↦ absurd (cc)
    ]
  ]

  -- The calls of a list, each with its status, up to the first that reports an error.
  abbrev pub steps : ℤ → List (t.World → ℤ × t.World) → t.World → ℤ × t.World
  steps (negsuc n) calls w = (negsuc n, w)
  steps (pos n) [] w = (pos n, w)
  steps (pos n) (call ∷ calls) w = let (rc, w') = call w in steps rc calls w'

  -- The option that forces the output is set for a document with errors, which have status 2.
  abbrev pub forced_by : ℕ → ℤ → t.World → t.World
  forced_by doc (pos (suc (suc n))) w = (t.set_bool doc TidyOption.force_output true w).1
  forced_by doc (pos (suc zero)) w = w
  forced_by doc (pos zero) w = w
  forced_by doc (negsuc n) w = w

  -- By the status of `tidySaveBuffer`: the output where there are at most warnings, the output
  -- or the messages where there are errors, and the status where saving failed.
  abbrev pub outcome : Bool → ℤ → Bytes → Bytes → Result Bytes
  outcome ignore_error (pos zero) errors output = ok output
  outcome ignore_error (pos (suc zero)) errors output = ok output
  outcome true (pos (suc (suc n))) errors output = ok output
  outcome false (pos (suc (suc n))) errors output =
      throw (runtime_error (codes "{}") (c_str errors ∷ []))
  outcome ignore_error (negsuc n) errors output =
      throw (runtime_error (codes "html_tidy error: {}") (t.print (negsuc n) ∷ []))

  abbrev pub calls : ℕ → Bytes → List (t.World → ℤ × t.World)
  calls doc html =
      t.parse_string doc (c_str html) ∷ t.clean_and_repair doc ∷ t.run_diagnostics doc ∷ []

  -- The last status of the set-up of the error buffer and the three calls, and the state.
  abbrev pub tidied_by : ℕ → ℕ → Bytes → t.World → ℤ × t.World
  tidied_by doc error_buffer html w0 =
      let (rc, w1) = t.set_error_buffer doc error_buffer w0 in steps rc (calls doc html) w1

  steps_next :
      (rc : ℤ) (call : t.World → ℤ × t.World) (rest : List (t.World → ℤ × t.World)) (w : t.World)
      → steps rc (call ∷ rest) w ≡ steps (then_step t rc call w).0 rest (then_step t rc call w).1
  unfolding is_negative
  steps_next (pos n) call rest w = refl
  steps_next (negsuc n) call rest w = refl

  steps_end : (rc : ℤ) (w : t.World) → steps rc [] w ≡ (rc, w)
  steps_end (pos n) w = refl
  steps_end (negsuc n) w = refl

  tidied-steps :
      (doc error_buffer : ℕ) (html : Bytes) (w : t.World)
      → tidied t doc error_buffer html w ≡ tidied_by doc error_buffer html w
  unfolding tidied
  tidied-steps doc error_buffer html w0 =
      let (rc, w1) = t.set_error_buffer doc error_buffer w0 in
      let (rc1, w2) = then_step t rc (t.parse_string doc (c_str html)) w1 in
      let (rc2, w3) = then_step t rc1 (t.clean_and_repair doc) w2 in
      let (rc3, w4) = then_step t rc2 (t.run_diagnostics doc) w3 in
      sym (
        steps_next rc (t.parse_string doc (c_str html))
          (t.clean_and_repair doc ∷ t.run_diagnostics doc ∷ []) w1
        ∙ steps_next rc1 (t.clean_and_repair doc) (t.run_diagnostics doc ∷ []) w2
        ∙ steps_next rc2 (t.run_diagnostics doc) [] w3
        ∙ steps_end rc3 w4)

  forced-by : (doc : ℕ) (rc : ℤ) (w : t.World) → forced doc rc w ≡ forced_by doc rc w
  unfolding has_errors
  forced-by doc (pos (suc (suc n))) w = refl
  forced-by doc (pos (suc zero)) w = refl
  forced-by doc (pos zero) w = refl
  forced-by doc (negsuc n) w = refl

  xhtml_of-outcome :
      (ignore_error : Bool) (rc : ℤ) (errors output : Bytes)
      → xhtml_of t ignore_error rc errors output ≡ outcome ignore_error rc errors output
  unfolding xhtml_of has_errors is_negative
  xhtml_of-outcome ignore_error (pos zero) errors output = refl
  xhtml_of-outcome ignore_error (pos (suc zero)) errors output = refl
  xhtml_of-outcome true (pos (suc (suc n))) errors output = refl
  xhtml_of-outcome false (pos (suc (suc n))) errors output = refl
  xhtml_of-outcome ignore_error (negsuc n) errors output = refl

  -- What the call does, in the words of the code.
  abbrev parts : Bytes → Bool → t.World → Result Bytes × t.World
  parts html ignore_error w0 =
      let (doc, w1) = t.create w0 in
      let (output_buffer, w2) = t.buffer_new (options_set doc w1) in
      let (error_buffer, w3) = t.buffer_new w2 in
      let (rc, w4) = tidied t doc error_buffer html w3 in
      let (rc', w5) = t.save_buffer doc output_buffer (forced doc rc w4) in
      (
        xhtml_of t ignore_error rc' (t.buffer_text error_buffer w5)
            (t.buffer_text output_buffer w5),
        t.release doc (t.buffer_free output_buffer (t.buffer_free error_buffer w5)),
      )

  html_tidy-parts :
      (html : Bytes) (ignore_error : Bool) (w : t.World)
      → html_tidy t html ignore_error w ≡ parts html ignore_error w
  unfolding html_tidy with_buffers save
  html_tidy-parts html ignore_error w0 =
      let doc = (t.create w0).0 in
      let (output_buffer, w2) = t.buffer_new (options_set doc (t.create w0).1) in
      let (error_buffer, w3) = t.buffer_new w2 in
      let (rc, w4) = tidied t doc error_buffer html w3 in
      let (rc', w5) = t.save_buffer doc output_buffer (forced doc rc w4) in
      let r =
        xhtml_of t ignore_error rc' (t.buffer_text error_buffer w5)
          (t.buffer_text output_buffer w5) in
      rw (set_options-ok doc (t.create w0).1, force-ok doc rc w4)
        (guarded (t.release doc) (t.buffer_free output_buffer) (t.buffer_free error_buffer) r w5 (
          xhtml_of_alive ignore_error rc' (t.buffer_text error_buffer w5)
            (t.buffer_text output_buffer w5)))
    where
      guarded :
          {B : Type 0} (f g h : t.World → t.World) (r : Result B) (w : t.World)
          → (r ≡ terminated → ⊥)
          → exit_with (exit_with (exit_with (r, w) (act t h)) (act t g)) (act t f)
            ≡ (r, f (g (h w)))
      guarded f g h (ok a) w alive = refl
      guarded f g h (throw e) w alive = refl
      guarded f g h terminated w alive = absurd (alive refl)

  -- What the call does: the document with its options and the two buffers, the calls up to the first that
  -- reports an error, the output, forced if there are errors, and then the error buffer, the output buffer
  -- and the document are freed, in that order.
  abbrev pub described : Bytes → Bool → t.World → Result Bytes × t.World
  described html ignore_error w0 =
      let (doc, w1) = t.create w0 in
      let (output_buffer, w2) = t.buffer_new (options_set doc w1) in
      let (error_buffer, w3) = t.buffer_new w2 in
      let (rc, w4) = tidied_by doc error_buffer html w3 in
      let (rc', w5) = t.save_buffer doc output_buffer (forced_by doc rc w4) in
      (
        outcome ignore_error rc' (t.buffer_text error_buffer w5) (t.buffer_text output_buffer w5),
        t.release doc (t.buffer_free output_buffer (t.buffer_free error_buffer w5)),
      )

  -- If Tidy accepts every option, then the call makes the calls in order up to the first that reports an
  -- error, forces the output if the last status tells of errors, and saves. It returns the output if saving
  -- has status 0 or 1, and also above 1 if errors are to be ignored; otherwise it throws the messages above 1,
  -- and the status below 0. In each case it ends by freeing the error buffer, the output buffer and
  -- the document, once each.
  pub html_tidy-described :
      (html : Bytes) (ignore_error : Bool) (w : t.World)
      → html_tidy t html ignore_error w ≡ described html ignore_error w
  html_tidy-described html ignore_error w0 =
      let doc = (t.create w0).0 in
      let (output_buffer, w2) = t.buffer_new (options_set doc (t.create w0).1) in
      let (error_buffer, w3) = t.buffer_new w2 in
      let (rc, w4) = tidied_by doc error_buffer html w3 in
      let (rc', w5) = t.save_buffer doc output_buffer (forced_by doc rc w4) in
      html_tidy-parts html ignore_error w0
      ∙ rw
          (
            tidied-steps doc error_buffer html w3,
            forced-by doc rc w4,
            xhtml_of-outcome ignore_error rc' (t.buffer_text error_buffer w5)
                (t.buffer_text output_buffer w5),
          )
          refl
