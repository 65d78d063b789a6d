-- ===== src/Base/Int.antt =====
-- Signed machine integers: the values of `std::int32_t` and `std::int64_t`.
use Prim.Native.Nat.{ℕ, ◌-◌, ◌%◌, ◌^◌, ◌<◌}
use mathlib.Core.Path.{◌≡◌}
use mathlib.Core.Bool.{Bool, true, false}
use native.Mathlib.Omega.{arith}
use klib.Base.Tests.{ltb, ◌==◌, if◌then◌else◌}

-- `negsuc n` is -(n + 1).
pub data ℤ : Type 0 where
  pos : ℕ → ℤ
  negsuc : ℕ → ℤ

-- `static_cast<std::int32_t>(n)` of an unsigned value or a length.
unfoldable pub int32 : ℕ → ℤ
int32 n = let w = n % 2 ^ 32 in if ltb w (2 ^ 31) then pos w else negsuc (2 ^ 32 - w - 1)

pub int32-eq-pos : (n : ℕ) → n < 2 ^ 31 → int32 n ≡ pos n
unfolding int32
int32-eq-pos n h = ground arith

-- `static_cast<std::int32_t>(z)` of a wider signed value.
unfoldable pub narrow : ℤ → ℤ
unfolding int32
narrow (pos n) = int32 n
narrow (negsuc n) = int32 (2 ^ 32 - 1 - n % 2 ^ 32)

unfoldable pub is_negative : ℤ → Bool
is_negative (pos n) = false
is_negative (negsuc n) = true

infix 50 ◌==ℤ◌
unfoldable pub ◌==ℤ◌ : ℤ → ℤ → Bool
pos a ==ℤ pos b = a == b
pos a ==ℤ negsuc b = false
negsuc a ==ℤ pos b = false
negsuc a ==ℤ negsuc b = a == b
