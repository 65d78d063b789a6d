-- ===== src/Html.antt =====
-- src/html.cpp: `html_tidy`, over HTML Tidy.
pub mod Outcome
use klib.Base.{
  ℕ, zero, suc, Bool, true, false, not, ◌&&◌, [], ◌∷◌, Bytes, codes, c_str, if◌then◌else◌,
}
use klib.Base.Int.{ℤ, pos, negsuc, is_negative}
use klib.Exception.{
  runtime_error, Result, ok, throw, M, ◌>>=◌, ◌>>◌, return, raise, throw_if, scope_exit,
}

pub data TidyOption : Type 0 where
  xhtml_out show_warnings wrap_len hide_comments mark force_output : TidyOption

-- HTML Tidy over an unknown state. A document and a buffer are numbers; `buffer_new` is a buffer that is set
-- to zero, and `buffer_text` its bytes.
pub record Tidy : Type 1 where
  pub World : Type 0
  pub create : World → ℕ × World
  pub release : ℕ → World → World
  pub set_bool : ℕ → TidyOption → Bool → World → Bool × World
  pub set_int : ℕ → TidyOption → ℕ → World → Bool × World
  pub buffer_new : World → ℕ × World
  pub buffer_free : ℕ → World → World
  pub buffer_text : ℕ → World → Bytes
  pub set_error_buffer : ℕ → ℕ → World → ℤ × World
  pub parse_string : ℕ → Bytes → World → ℤ × World
  pub clean_and_repair : ℕ → World → ℤ × World
  pub run_diagnostics : ℕ → World → ℤ × World
  pub save_buffer : ℕ → ℕ → World → ℤ × World
  pub print : ℤ → Bytes

module _ (t : Tidy) where
  abbrev pub Do : Type 0 → Type 0
  Do A = M t.World A

  abbrev pub lift : {A : Type 0} → (t.World → A × t.World) → Do A
  lift f w = (ok (f w).0, (f w).1)

  abbrev pub act : (t.World → t.World) → Do (Unit {0})
  act f w = (ok tt, f w)

  -- `ret = …; CHECK_HTML_TIDY(ret);`
  unfoldable pub check_html_tidy : (t.World → Bool × t.World) → Do (Unit {0})
  check_html_tidy set = do
    ret ← lift set
    throw_if (not ret) (runtime_error (codes "HTML Tidy option set fail") [])

  unfoldable pub set_options : ℕ → Do (Unit {0})
  set_options doc = do
    check_html_tidy (t.set_bool doc TidyOption.xhtml_out true)
    check_html_tidy (t.set_bool doc TidyOption.show_warnings false)
    check_html_tidy (t.set_int doc TidyOption.wrap_len 0)
    check_html_tidy (t.set_bool doc TidyOption.hide_comments true)
    check_html_tidy (t.set_bool doc TidyOption.mark false)

  -- `if (rc >= 0) { rc = step; }`
  abbrev pub then_step : ℤ → (t.World → ℤ × t.World) → t.World → ℤ × t.World
  then_step rc step w = if is_negative rc then (rc, w) else step w

  -- `rc > 1`
  unfoldable pub has_errors : ℤ → Bool
  has_errors (pos zero) = false
  has_errors (pos (suc zero)) = false
  has_errors (pos (suc (suc n))) = true
  has_errors (negsuc n) = false

  -- The four steps, with the last status.
  unfoldable pub tidied : ℕ → ℕ → Bytes → t.World → ℤ × t.World
  tidied doc error_buffer html w0 =
      let (rc, w1) = t.set_error_buffer doc error_buffer w0 in
      let (rc', w2) = then_step rc (t.parse_string doc (c_str html)) w1 in
      let (rc'', w3) = then_step rc' (t.clean_and_repair doc) w2 in
      then_step rc'' (t.run_diagnostics doc) w3

  unfoldable pub force : ℕ → ℤ → Do (Unit {0})
  force doc rc =
      if has_errors rc
      then check_html_tidy (t.set_bool doc TidyOption.force_output true)
      else return tt

  -- What is made of the status of `tidySaveBuffer` and of the two buffers.
  unfoldable pub xhtml_of : Bool → ℤ → Bytes → Bytes → Result Bytes
  xhtml_of ignore_error rc errors output =
      if is_negative rc
      then throw (runtime_error (codes "html_tidy error: {}") (t.print rc ∷ []))
      else (if has_errors rc && not ignore_error
          then throw (runtime_error (codes "{}") (c_str errors ∷ []))
          else ok output)

  unfoldable pub save : Bool → ℕ → ℕ → ℕ → Do Bytes
  save ignore_error doc output_buffer error_buffer = do
    rc ← lift (t.save_buffer doc output_buffer)
    λ w.
        (xhtml_of ignore_error rc (t.buffer_text error_buffer w) (t.buffer_text output_buffer w), w)

  unfoldable pub with_buffers : Bytes → Bool → ℕ → ℕ → ℕ → Do Bytes
  with_buffers html ignore_error doc output_buffer error_buffer = do
    rc ← lift (tidied doc error_buffer html)
    force doc rc
    save ignore_error doc output_buffer error_buffer

  unfoldable pub html_tidy : Bytes → Bool → Do Bytes
  html_tidy html ignore_error = do
    doc ← lift t.create
    scope_exit (act (t.release doc)) (do
      set_options doc
      output_buffer ← lift t.buffer_new
      scope_exit (act (t.buffer_free output_buffer)) (do
        error_buffer ← lift t.buffer_new
        scope_exit (act (t.buffer_free error_buffer))
            (with_buffers html ignore_error doc output_buffer error_buffer)))
