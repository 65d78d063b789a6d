-- ===== src/Unicode/Trim.antt =====
-- src/unicode.cpp: removing whitespace at the two ends of a UTF-8 text. The decoder (utfcpp) and
-- `erase_head`, `erase_tail` (Boost) are parameters.
use klib.Base.{
  ℕ, zero, suc, ◌+◌, ◌-◌, ◌≤◌, ◌<◌, ◌≡◌, true, false, [], ◌∷◌, Bytes, length, take, drop,
}
use klib.Base.Int.{ℤ, pos, int32}
use klib.Exception.{runtime_error, Result, ok, throw, terminated, M, ◌>>◌}
use klib.Unicode.Classes.{is_whitespace}

-- A decoded code point with the number of its bytes, or the text of a `utf8::exception`.
pub data Decoded : Type 0 where
  decoded : ℕ → ℕ → Decoded
  invalid : Bytes → Decoded

-- `utf8::next(iter, end)` and `utf8::prior(iter, begin)` of the bytes between the two pointers.
pub record Utf8 : Type 0 where
  pub next : Bytes → Decoded
  pub prior : Bytes → Decoded
  pub erase_head : Bytes → ℤ → Bytes
  pub erase_tail : Bytes → ℤ → Bytes

-- A decoded code point has at least one byte and lies in the text. Erasing counts bytes.
pub record IsUtf8 (u : Utf8) : Type 0 where
  pub next_pos : (s : Bytes) (c w : ℕ) → u.next s ≡ decoded c w → 0 < w
  pub next_fits : (s : Bytes) (c w : ℕ) → u.next s ≡ decoded c w → w ≤ length s
  pub prior_pos : (s : Bytes) (c w : ℕ) → u.prior s ≡ decoded c w → 0 < w
  pub prior_fits : (s : Bytes) (c w : ℕ) → u.prior s ≡ decoded c w → w ≤ length s
  pub erase_head_lem : (s : Bytes) (n : ℕ) → u.erase_head s (pos n) ≡ drop n s
  pub erase_tail_lem : (s : Bytes) (n : ℕ) → u.erase_tail s (pos n) ≡ take (length s - n) s

-- One end of a text: how a code point is decoded there, and what is left without some bytes of it.
pub record End : Type 0 where
  pub decode : Bytes → Decoded
  pub without : ℕ → Bytes → Bytes

abbrev pub left_end : Utf8 → End
left_end u = record { decode = u.next; without = drop }

abbrev pub drop_back : ℕ → Bytes → Bytes
drop_back w s = take (length s - w) s

abbrev pub right_end : Utf8 → End
right_end u = record { decode = u.prior; without = drop_back }

-- The loop of either function: `rest` lies between `iter` and the end that it runs to, and `n` bytes
-- are behind it. A round consumes a byte at least, so a fuel of `length rest` is used up only there.
module _ (e : End) where
  unfoldable pub skip : ℕ → Bytes → ℕ → Result ℕ
  skip fuel [] n = ok n
  skip zero (b ∷ rest) n = ok n
  skip (suc fuel) (b ∷ rest) n = elim (e.decode (b ∷ rest)) [
    | invalid what ↦ throw (runtime_error what [])
    | decoded c w ↦ elim (is_whitespace c) [
      | true ↦ skip fuel (e.without w (b ∷ rest)) (n + w)
      | false ↦ ok n
    ]
  ]

abbrev pub to_int32 : Result ℕ → Result ℤ
to_int32 (ok n) = ok (int32 n)
to_int32 (throw e) = throw e
to_int32 terminated = terminated

abbrev pub erase_by : (Bytes → ℤ → Bytes) → Result ℤ → Bytes → Result Bytes
erase_by erase (ok n) str = ok (erase str n)
erase_by erase (throw e) str = throw e
erase_by erase terminated str = terminated

abbrev pub bind : Result Bytes → (Bytes → Result Bytes) → Result Bytes
bind (ok s) f = f s
bind (throw e) f = throw e
bind terminated f = terminated

-- In place: a string that the call throws on is left as it stands.
abbrev pub store : Result Bytes → M Bytes (Unit {0})
store (ok t) str = (ok tt, t)
store (throw e) str = (throw e, str)
store terminated str = (terminated, str)

abbrev pub code_point : Decoded → Result ℕ
code_point (decoded c w) = ok c
code_point (invalid what) = throw (runtime_error what [])

module _ (u : Utf8) where
  open u use {next, prior, erase_head, erase_tail}

  unfoldable pub trim_left_erase_num : Bytes → Result ℤ
  unfolding skip
  trim_left_erase_num str = to_int32 (skip (left_end u) (length str) str 0)

  unfoldable pub trim_right_erase_num : Bytes → Result ℤ
  unfolding skip
  trim_right_erase_num str = to_int32 (skip (right_end u) (length str) str 0)

  unfoldable pub trim_left_copy : Bytes → Result Bytes
  unfolding trim_left_erase_num
  trim_left_copy str = erase_by erase_head (trim_left_erase_num str) str

  unfoldable pub trim_right_copy : Bytes → Result Bytes
  unfolding trim_right_erase_num
  trim_right_copy str = erase_by erase_tail (trim_right_erase_num str) str

  unfoldable pub trim_copy : Bytes → Result Bytes
  unfolding trim_left_copy trim_right_copy
  trim_copy str = bind (trim_left_copy str) trim_right_copy

  unfoldable pub trim_left : M Bytes (Unit {0})
  unfolding trim_left_erase_num
  trim_left str = store (erase_by erase_head (trim_left_erase_num str) str) str

  unfoldable pub trim_right : M Bytes (Unit {0})
  unfolding trim_right_erase_num
  trim_right str = store (erase_by erase_tail (trim_right_erase_num str) str) str

  unfoldable pub trim : M Bytes (Unit {0})
  unfolding trim_left trim_right
  trim = do trim_left; trim_right

  -- `utf8::peek_next` decodes as `utf8::next` does, and moves no pointer.
  unfoldable pub first_code_point : Bytes → Result ℕ
  first_code_point [] = terminated
  first_code_point (b ∷ s) = code_point (next (b ∷ s))

  unfoldable pub last_code_point : Bytes → Result ℕ
  last_code_point [] = terminated
  last_code_point (b ∷ s) = code_point (prior (b ∷ s))
