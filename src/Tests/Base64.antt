-- ===== src/Tests/Base64.antt =====
-- src/base64.cpp with coders that put the number of its bytes in front of each group of three.
use klib.Base.{
  ℕ, ◌+◌, ◌*◌, ◌/◌, ◌≤◌, ◌≡◌, refl, ap, some, [], ◌∷◌, append-nil, sym, arith, Bytes, length, ◌==◌,
  if◌then◌else◌, ◌∙◌,
}
use klib.Exception.{ok}
use klib.Base64.{
  Coders, fast_base64_encode, fast_base64_decode, secure_base64_encode, secure_base64_decode,
}
use klib.Base64.RoundTrip.{Writes, IsBase64, secure_base64_decode-fast_base64_encode}

unfoldable groups : Bytes → Bytes
groups [] = []
groups (a ∷ []) = 1 ∷ a ∷ 0 ∷ 0 ∷ []
groups (a ∷ b ∷ []) = 2 ∷ a ∷ b ∷ 0 ∷ []
groups (a ∷ b ∷ c ∷ s) = 3 ∷ a ∷ b ∷ c ∷ groups s

unfoldable ungroup : Bytes → Bytes
ungroup [] = []
ungroup (n ∷ []) = []
ungroup (n ∷ a ∷ []) = []
ungroup (n ∷ a ∷ b ∷ []) = []
ungroup (n ∷ a ∷ b ∷ c ∷ s) =
    let rest = ungroup s in
    if n == 1 then a ∷ [] else (if n == 2 then a ∷ b ∷ [] else a ∷ b ∷ c ∷ rest)

ungroup-groups : (s : Bytes) → ungroup (groups s) ≡ s
unfolding ungroup groups
ungroup-groups [] = refl
ungroup-groups (a ∷ []) = refl
ungroup-groups (a ∷ b ∷ []) = refl
ungroup-groups (a ∷ b ∷ c ∷ s) = ap (λ t. a ∷ b ∷ c ∷ t) (ungroup-groups s)

length-groups : (s : Bytes) → length (groups s) ≡ (length s + 2) / 3 * 4
unfolding groups
length-groups [] = refl
length-groups (a ∷ []) = refl
length-groups (a ∷ b ∷ []) = refl
length-groups (a ∷ b ∷ c ∷ s) = omega (arith, length-groups s)

abbrev grouped : Coders
grouped = record {
  avx2_encode = λ s. (length (groups s), groups s);
  avx2_decode = λ s. (length (ungroup s), ungroup s);
  encoded_length = λ n. (n + 2) / 3 * 4 + 1;
  encode_block = λ s. (length (groups s), groups s);
  decoded_length = λ n. some (n / 4 * 3);
  decode_base64 = λ s n. ((1, length (ungroup s)), ungroup s);
  error_string = [];
}

whole :
    (room : ℕ) (text out : Bytes)
    → out ≡ text
    → length text ≤ room
    → Writes room text (length out) out
whole room text out e h = record {
  behind = [];
  len_lem = ap length e;
  out_lem = e ∙ sym (append-nil text);
  fits = omega (arith, ap length e);
}

grouped-IsBase64 : IsBase64 grouped groups
grouped-IsBase64 = record {
  length_lem = length-groups;
  encoded_length_lem = λ n. refl;
  decoded_length_lem = λ s. ap some (omega (arith, length-groups s));
  avx2_encode_lem = λ s. whole _ (groups s) (groups s) refl (omega (arith, length-groups s));
  avx2_decode_lem =
      λ s. whole _ s (ungroup (groups s)) (ungroup-groups s) (omega (arith, length-groups s));
  encode_block_lem = λ s. whole _ (groups s) (groups s) refl (omega (arith, length-groups s));
  decode_base64_lem = λ s. (refl, whole _ s (ungroup (groups s)) (ungroup-groups s) (omega arith));
}

secure_base64_decode-fast_base64_encode_example :
    (text : Bytes) × (fast_base64_encode grouped (7 ∷ 8 ∷ []) tt ≡ (ok text, tt))
    × (secure_base64_encode grouped (7 ∷ 8 ∷ []) tt ≡ (ok text, tt))
    × (fast_base64_decode grouped text tt ≡ (ok (7 ∷ 8 ∷ []), tt))
    × (secure_base64_decode grouped text tt ≡ (ok (7 ∷ 8 ∷ []), tt))
secure_base64_decode-fast_base64_encode_example =
    secure_base64_decode-fast_base64_encode grouped groups grouped-IsBase64 {W = Unit {0}}
      (7 ∷ 8 ∷ []) tt (omega arith)
