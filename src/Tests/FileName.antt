-- ===== src/Tests/FileName.antt =====
-- src/util.cpp: `make_file_name_legal` with string algorithms.
use klib.Base.{
  ℕ, ◌≡◌, refl, ap, ◌∙◌, true, false, [], ◌∷◌, ◌++◌, map, Bytes, codes, All, ◌==◌, if◌then◌else◌,
  Bool-cases, inl, inr,
}
use klib.Util.FileName.{
  Boost, IsBoost, is_space, first_is_space, last_is_space, iscntrl, illegal, Lacks,
  make_file_name_legal, make_file_name_legal-Lacks,
}

abbrev trim_left : Bytes → Bytes
trim_left [] = []
trim_left (c ∷ s) = let rest = trim_left s in if is_space c then rest else c ∷ s

abbrev cons_trim : ℕ → Bytes → Bytes
cons_trim c [] = if is_space c then [] else c ∷ []
cons_trim c (d ∷ t) = c ∷ d ∷ t

abbrev trim_right : Bytes → Bytes
trim_right [] = []
trim_right (c ∷ s) = cons_trim c (trim_right s)

abbrev IsBlank : Bytes → Type 0
IsBlank = All (λ c. is_space c ≡ true)

trim_left_parts : (s : Bytes) → (front : Bytes) × (s ≡ front ++ trim_left s) × IsBlank front
trim_left_parts [] = ([], refl, tt)
trim_left_parts (c ∷ s) = elim (Bool-cases (is_space c)) [
  | inl y ↦ let (front, e, h) = trim_left_parts s in (c ∷ front, rw y (ap (λ t. c ∷ t) e), (y, h))
  | inr n ↦ ([], rw n refl, tt)
]

cons_trim_parts :
    (c : ℕ) (s t back : Bytes)
    → s ≡ t ++ back
    → IsBlank back
    → (back' : Bytes) × (c ∷ s ≡ cons_trim c t ++ back') × IsBlank back'
cons_trim_parts c s (d ∷ t) back e h = (back, ap (λ r. c ∷ r) e, h)
cons_trim_parts c s [] back e h = elim (Bool-cases (is_space c)) [
  | inl y ↦ (c ∷ back, rw y (ap (λ r. c ∷ r) e), (y, h))
  | inr n ↦ (back, rw n (ap (λ r. c ∷ r) e), h)
]

trim_right_parts : (s : Bytes) → (back : Bytes) × (s ≡ trim_right s ++ back) × IsBlank back
trim_right_parts [] = ([], refl, tt)
trim_right_parts (c ∷ s) =
    let (back, e, h) = trim_right_parts s in cons_trim_parts c s (trim_right s) back e h

trim_left_first : (s : Bytes) → first_is_space (trim_left s) ≡ false
trim_left_first [] = refl
trim_left_first (c ∷ s) = elim (Bool-cases (is_space c)) [
  | inl y ↦ rw y (trim_left_first s)
  | inr n ↦ rw n n
]

cons_trim_first : (c : ℕ) (t : Bytes) → is_space c ≡ false → first_is_space (cons_trim c t) ≡ false
cons_trim_first c [] h = rw h h
cons_trim_first c (d ∷ t) h = h

trim_right_first : (s : Bytes) → first_is_space s ≡ false → first_is_space (trim_right s) ≡ false
trim_right_first [] h = refl
trim_right_first (c ∷ s) h = cons_trim_first c (trim_right s) h

cons_trim_last :
    (c : ℕ) (t : Bytes) → last_is_space t ≡ false → last_is_space (cons_trim c t) ≡ false
cons_trim_last c (d ∷ t) h = h
cons_trim_last c [] h = elim (Bool-cases (is_space c)) [ inl y ↦ rw y refl | inr n ↦ rw n n ]

trim_right_last : (s : Bytes) → last_is_space (trim_right s) ≡ false
trim_right_last [] = refl
trim_right_last (c ∷ s) = cons_trim_last c (trim_right s) (trim_right_last s)

abbrev swap_bytes : Bytes → Bytes → Bytes → Bytes
swap_bytes s (x ∷ []) (y ∷ []) = map (λ c. if c == x then y else c) s
swap_bytes s old new = s

abbrev strings : Boost
strings = record {
  replace_all = swap_bytes;
  trim = λ s. trim_right (trim_left s);
  split = λ s separators. s ∷ [];
}

trim_parts :
    (s : Bytes)
    → (front : Bytes) × (back : Bytes) × (s ≡ front ++ (trim_right (trim_left s) ++ back))
      × IsBlank front
      × IsBlank back
trim_parts s =
    let (front, e, h) = trim_left_parts s in
    let (back, e', h') = trim_right_parts (trim_left s) in
    (front, back, e ∙ ap (λ t. front ++ t) e', h, h')

strings-IsBoost : IsBoost strings
strings-IsBoost = record {
  replace_byte = λ s x y. refl;
  trim_parts = trim_parts;
  trim_first = λ s. trim_right_first (trim_left s) (trim_left_first s);
  trim_last = λ s. trim_right_last (trim_left s);
}

make_file_name_legal-Lacks_example :
    All (λ x. Lacks x (make_file_name_legal strings (codes " a?b/c. "))) illegal
    × All (λ c. iscntrl c ≡ false) (make_file_name_legal strings (codes " a?b/c. "))
    × (first_is_space (make_file_name_legal strings (codes " a?b/c. ")) ≡ false)
    × (last_is_space (make_file_name_legal strings (codes " a?b/c. ")) ≡ false)
make_file_name_legal-Lacks_example =
    make_file_name_legal-Lacks strings strings-IsBoost (codes " a?b/c. ")
