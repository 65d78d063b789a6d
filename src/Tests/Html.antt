-- ===== src/Tests/Html.antt =====
-- src/html.cpp with a Tidy that lists what is done, the last thing first, and finds one error.
use klib.Base.{ℕ, ◌≡◌, refl, true, false, List, [], ◌∷◌, length}
use klib.Base.Int.{pos, is_negative}
use klib.Html.{Tidy, html_tidy, has_errors, tidied}
use klib.Html.Outcome.{Accepts, described, html_tidy-described}

-- 1 creates and 2 releases the document, 3 makes and 4 frees a buffer.
abbrev one_error : Tidy
one_error = record {
  World = List ℕ;
  create = λ w. (0, 1 ∷ w);
  release = λ d w. 2 ∷ w;
  set_bool = λ d o b w. (true, w);
  set_int = λ d o n w. (true, w);
  buffer_new = λ w. (length w, 3 ∷ w);
  buffer_free = λ b w. 4 ∷ w;
  buffer_text = λ b w. b ∷ [];
  set_error_buffer = λ d b w. (pos 0, w);
  parse_string = λ d s w. (pos 2, w);
  clean_and_repair = λ d w. (pos 2, w);
  run_diagnostics = λ d w. (pos 2, w);
  save_buffer = λ d b w. (pos 2, w);
  print = λ n. [];
}

one_error-Accepts : Accepts one_error
one_error-Accepts = record { bool_lem = λ d o b w. refl; int_lem = λ d o n w. refl }

html_tidy-described_example :
    html_tidy one_error (0x61 ∷ []) false []
    ≡ described one_error one_error-Accepts (0x61 ∷ []) false []
html_tidy-described_example = html_tidy-described one_error one_error-Accepts (0x61 ∷ []) false []

all_freed :
    (described one_error one_error-Accepts (0x61 ∷ []) false []).1 ≡ 2 ∷ 4 ∷ 4 ∷ 3 ∷ 3 ∷ 1 ∷ []
unfolding has_errors tidied is_negative
all_freed = refl
