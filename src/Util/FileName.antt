-- ===== src/Util/FileName.antt =====
-- src/util.cpp: `make_file_name_legal` and `split_str`. The string algorithms of Boost are
-- parameters.
use mathlib.Core.Path.{subst}
use klib.Base.{
  ℕ, ◌≡◌, ◌≢◌, refl, Bool, true, false, ◌&&◌, ◌||◌, List, [], ◌∷◌, ◌++◌, map, arith, Bytes, All,
  is_empty, ltb, leb, ◌==◌, if◌then◌else◌, Bool-cases, inl, inr, All-front, All-back,
}

pub record Boost : Type 0 where
  pub replace_all : Bytes → Bytes → Bytes → Bytes
  pub trim : Bytes → Bytes
  pub split : Bytes → Bytes → List Bytes

abbrev pub is_space : ℕ → Bool
is_space c = c == 0x20 || (leb 0x9 c && leb c 0xd)

abbrev pub first_is_space : Bytes → Bool
first_is_space [] = false
first_is_space (c ∷ s) = is_space c

abbrev pub last_is_space : Bytes → Bool
last_is_space [] = false
last_is_space (c ∷ []) = is_space c
last_is_space (c ∷ d ∷ s) = last_is_space (d ∷ s)

-- Replacing a text of one byte by one replaces each of these bytes. Trimming takes spaces away at the
-- two ends, all of them.
pub record IsBoost (b : Boost) : Type 0 where
  pub replace_byte :
      (s : Bytes) (x y : ℕ)
      → b.replace_all s (x ∷ []) (y ∷ []) ≡ map (λ c. if c == x then y else c) s
  pub trim_parts :
      (s : Bytes)
      → (front : Bytes) × (back : Bytes) × (s ≡ front ++ (b.trim s ++ back))
        × All (λ c. is_space c ≡ true) front
        × All (λ c. is_space c ≡ true) back
  pub trim_first : (s : Bytes) → first_is_space (b.trim s) ≡ false
  pub trim_last : (s : Bytes) → last_is_space (b.trim s) ≡ false

-- `std::iscntrl` in the C locale
unfoldable pub iscntrl : ℕ → Bool
iscntrl c = ltb c 0x20 || c == 0x7f

-- `std::erase_if`
unfoldable pub erase_if : {A : Type 0} → (A → Bool) → List A → List A
erase_if p [] = []
erase_if p (x ∷ xs) = let rest = erase_if p xs in if p x then rest else x ∷ rest

-- `if (copy.ends_with('.')) copy.pop_back();`
unfoldable pub pop_dot : Bytes → Bytes
pop_dot [] = []
pop_dot (c ∷ []) = if c == b'.' then [] else c ∷ []
pop_dot (c ∷ d ∷ s) = c ∷ pop_dot (d ∷ s)

-- The bytes that are replaced, in the order of the calls: `< > : " / \ | ? *`.
abbrev pub illegal : Bytes
illegal = 0x3c ∷ 0x3e ∷ 0x3a ∷ 0x22 ∷ 0x2f ∷ 0x5c ∷ 0x7c ∷ 0x3f ∷ 0x2a ∷ []

module _ (b : Boost) where
  unfoldable pub replace_each : Bytes → Bytes → Bytes
  replace_each [] copy = copy
  replace_each (x ∷ xs) copy = replace_each xs (b.replace_all copy (x ∷ []) (0x20 ∷ []))

  unfoldable pub make_file_name_legal : Bytes → Bytes
  unfolding replace_each erase_if iscntrl pop_dot
  make_file_name_legal file_name =
      b.trim (pop_dot (erase_if iscntrl (replace_each illegal file_name)))

  unfoldable pub split_str : Bytes → Bytes → Bool → List Bytes
  unfolding erase_if
  split_str str separate remove_space =
      let result = b.split str separate in
      if remove_space then erase_if is_empty (map b.trim result) else result

abbrev pub Lacks : ℕ → Bytes → Type 0
Lacks x = All (λ c. c ≢ x)

abbrev swap : ℕ → ℕ → ℕ
swap x c = if c == x then 0x20 else c

Lacks-swap_self : (x : ℕ) (s : Bytes) → 0x20 ≢ x → Lacks x (map (swap x) s)
Lacks-swap_self x [] ne = tt
Lacks-swap_self x (c ∷ s) ne = (ground arith, Lacks-swap_self x s ne)

Lacks-swap : (x y : ℕ) (s : Bytes) → 0x20 ≢ y → Lacks y s → Lacks y (map (swap x) s)
Lacks-swap x y [] ne h = tt
Lacks-swap x y (c ∷ s) ne (h, hs) = (ground arith, Lacks-swap x y s ne hs)

All-erase_if :
    {A : Type 0} (P : A → Type 0) (p : A → Bool) (xs : List A) → All P xs → All P (erase_if p xs)
unfolding erase_if
All-erase_if P p [] h = tt
All-erase_if P p (x ∷ xs) (h, hs) = elim (Bool-cases (p x)) [
  | inl y ↦ rw y (All-erase_if P p xs hs)
  | inr n ↦ rw n (h, All-erase_if P p xs hs)
]

erase_if-All : {A : Type 0} (p : A → Bool) (xs : List A) → All (λ x. p x ≡ false) (erase_if p xs)
unfolding erase_if
erase_if-All p [] = tt
erase_if-All p (x ∷ xs) = elim (Bool-cases (p x)) [
  | inl y ↦ rw y (erase_if-All p xs)
  | inr n ↦ rw n (n, erase_if-All p xs)
]

All-pop_dot : (P : ℕ → Type 0) (s : Bytes) → All P s → All P (pop_dot s)
unfolding pop_dot
All-pop_dot P [] h = tt
All-pop_dot P (c ∷ []) (h, _) = elim (Bool-cases (c == b'.')) [
  | inl y ↦ rw y tt
  | inr n ↦ rw n (h, tt)
]
All-pop_dot P (c ∷ d ∷ s) (h, hs) = (h, All-pop_dot P (d ∷ s) hs)

module _ (b : Boost) (B : IsBoost b) where
  All-trim : (P : ℕ → Type 0) (s : Bytes) → All P s → All P (b.trim s)
  All-trim P s h =
      let (front, back, e, _, _) = B.trim_parts s in
      All-front P (b.trim s) back (All-back P front (b.trim s ++ back) (subst (All P) e h))

  replace_each_keeps : (y : ℕ) (xs s : Bytes) → 0x20 ≢ y → Lacks y s → Lacks y (replace_each b xs s)
  unfolding replace_each
  replace_each_keeps y [] s ne h = h
  replace_each_keeps y (x ∷ xs) s ne h =
      rw (B.replace_byte s x 0x20)
        (replace_each_keeps y xs (map (swap x) s) ne (Lacks-swap x y s ne h))

  replace_each-Lacks :
      (xs s t : Bytes) → replace_each b xs s ≡ t → All (λ x. 0x20 ≢ x) xs → All (λ x. Lacks x t) xs
  unfolding replace_each
  replace_each-Lacks [] s t e _ = tt
  replace_each-Lacks (x ∷ xs) s t e (ne, nes) =
      let s' = map (swap x) s in
      let e' : replace_each b xs s' ≡ t = rw (B.replace_byte s x 0x20) at e in
      (
        subst (Lacks x) e' (replace_each_keeps x xs s' ne (Lacks-swap_self x s ne)),
        replace_each-Lacks xs s' t e' nes,
      )

  name_keeps :
      (P : ℕ → Type 0) (s : Bytes) → All P s → All P (b.trim (pop_dot (erase_if iscntrl s)))
  name_keeps P s h =
      All-trim P (pop_dot (erase_if iscntrl s))
        (All-pop_dot P (erase_if iscntrl s) (All-erase_if P iscntrl s h))

  All-Lacks :
      (xs s : Bytes)
      → All (λ x. Lacks x s) xs
      → All (λ x. Lacks x (b.trim (pop_dot (erase_if iscntrl s)))) xs
  All-Lacks [] s _ = tt
  All-Lacks (x ∷ xs) s (h, hs) = (name_keeps (λ c. c ≢ x) s h, All-Lacks xs s hs)

  -- With string algorithms that do what `IsBoost` says: whatever the file name, the result holds
  -- none of the nine reserved characters and no control character, and it neither begins nor ends
  -- with a space.
  pub make_file_name_legal-Lacks :
      (file_name : Bytes)
      → All (λ x. Lacks x (make_file_name_legal b file_name)) illegal
        × All (λ c. iscntrl c ≡ false) (make_file_name_legal b file_name)
        × (first_is_space (make_file_name_legal b file_name) ≡ false)
        × (last_is_space (make_file_name_legal b file_name) ≡ false)
  unfolding make_file_name_legal
  make_file_name_legal-Lacks file_name =
      let replaced = replace_each b illegal file_name in
      let erased = erase_if iscntrl replaced in
      (
        All-Lacks illegal replaced
            (replace_each-Lacks illegal file_name replaced refl (omega arith)),
        All-trim _ (pop_dot erased) (All-pop_dot _ erased (erase_if-All iscntrl replaced)),
        B.trim_first (pop_dot erased),
        B.trim_last (pop_dot erased),
      )
