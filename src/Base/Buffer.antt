-- ===== src/Base/Buffer.antt =====
-- A `std::string` that is used as a buffer: `resize`, and a C function that writes at its start.
use klib.Base.Lists.{
  Bytes, length, take, drop, replicate, take-length-append, length-append, length-replicate,
  length-take,
}
use Prim.Native.Nat.{ℕ, zero, suc, ◌-◌, ◌≤◌}
use mathlib.Core.Path.{◌≡◌, refl, ap}
use mathlib.Core.List.{[], ◌∷◌, ◌++◌, append-nil}
use native.Mathlib.Omega.{arith}

unfoldable pub resize : ℕ → Bytes → Bytes
resize n s = take n s ++ replicate (n - length s) 0

-- The callee writes `out` at the front of `buffer`.
unfoldable pub overwrite : Bytes → Bytes → Bytes
overwrite out buffer = out ++ drop (length out) buffer

replicate_none : (n : ℕ) → n ≡ 0 → replicate {A = ℕ} n 0 ≡ []
replicate_none zero h = refl
replicate_none (suc n) h = absurd (omega arith)

take-append_le : (n : ℕ) (s t : Bytes) → n ≤ length s → take n (s ++ t) ≡ take n s
take-append_le zero s t h = refl
take-append_le (suc n) [] t h = absurd (omega arith)
take-append_le (suc n) (c ∷ s) t h = ap (λ r. c ∷ r) (take-append_le n s t (omega arith))

-- Cutting the buffer to the length of what was written leaves what was written.
pub resize-overwrite : (out buffer : Bytes) → resize (length out) (overwrite out buffer) ≡ out
unfolding resize overwrite
resize-overwrite out buffer =
    let short =
      replicate_none (length out - length (out ++ drop (length out) buffer))
        (omega (arith, length-append out (drop (length out) buffer))) in
    rw (take-length-append, short) (append-nil out)

drop_all : (n : ℕ) (s : Bytes) → length s ≤ n → drop n s ≡ []
drop_all zero [] h = refl
drop_all zero (c ∷ s) h = absurd (omega arith)
drop_all (suc n) [] h = refl
drop_all (suc n) (c ∷ s) h = drop_all n s (omega arith)

-- A callee that fills the whole buffer leaves nothing of it.
pub overwrite_whole : (out : Bytes) → overwrite out (resize (length out) []) ≡ out
unfolding resize overwrite
overwrite_whole out =
    rw
      (drop_all (length out) (take (length out) [] ++ replicate (length out - 0) 0) (
        omega (
          arith,
          length-append (take {A = ℕ} (length out) []) (replicate (length out - 0) 0),
          length-replicate {A = ℕ} (length out - 0) 0,
          length-take {A = ℕ} (length out) [],
        )))
      (append-nil out)

pub length-resize : (n : ℕ) (s : Bytes) → length (resize n s) ≡ n
unfolding resize
length-resize n s = omega (
  arith,
  length-append (take n s) (replicate (n - length s) 0),
  length-replicate {A = ℕ} (n - length s) 0,
  length-take n s,
)

-- Cutting a buffer.
pub resize_front : (n : ℕ) (s : Bytes) → n ≤ length s → resize n s ≡ take n s
unfolding resize
resize_front n s h = rw (replicate_none (n - length s) (omega arith)) (append-nil (take n s))
