-- ===== src/Tests/Font.antt =====
-- src/font.cpp with fonts that are lists of code points.
use klib.Base.{ℕ, Bool, some, List, [], ◌∷◌, if◌then◌else◌}
use klib.Base.Int.{ℤ, pos}
use klib.Font.{Sfntly}

abbrev filtered : List ℕ → (ℤ → Bool) → List ℕ
filtered [] test = []
filtered (u ∷ font) test = if test (pos u) then u ∷ filtered font test else filtered font test

-- The bytes of a font are its code points.
abbrev plain : Sfntly
plain = record {
  Font = List ℕ;
  load_font = λ s. some s;
  num_tables = λ font. 1;
  subset = λ font test. some (filtered font test);
  serialize = λ font. font;
}
