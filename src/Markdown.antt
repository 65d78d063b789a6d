-- ===== src/Markdown.antt =====
-- src/markdown.cpp: HTML by cmark, whose results are strings on the heap.
use klib.Base.{ℕ, Bytes}
use klib.Exception.{ok, M, ◌>>=◌, scope_exit}

-- cmark and the heap of C: a pointer is a number, `string_at` is the string that stands there.
pub record Cmark : Type 1 where
  pub World : Type 0
  pub markdown_to_html : Bytes → World → ℕ × World
  pub string_at : ℕ → World → Bytes
  pub free : ℕ → World → World

module _ (c : Cmark) where
  abbrev pub lift : {A : Type 0} → (c.World → A × c.World) → M c.World A
  lift f w = (ok (f w).0, (f w).1)

  abbrev pub copy_string : ℕ → M c.World Bytes
  copy_string ptr w = (ok (c.string_at ptr w), w)

  -- The result is copied before the guard frees it.
  unfoldable pub markdown_to_html : Bytes → M c.World Bytes
  markdown_to_html markdown = do
    ptr ← lift (c.markdown_to_html markdown)
    scope_exit (λ w. (ok tt, c.free ptr w)) (copy_string ptr)
