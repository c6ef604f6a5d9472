-- ===== src/Base/Int.antt =====
-- Signed integers, and Go's `int32` among them.
use Prim.Native.Nat.{ℕ, ◌+◌, ◌-◌, ◌%◌, ◌^◌, ◌<◌}
use mathlib.Core.Path.{◌≡◌}
use mathlib.Core.Bool.{Bool, true, false}
use native.Mathlib.Omega.{arith}
use gordion_vpn.Base.Tests.{ltb, leb, if◌then◌else◌}

-- `negsuc n` is -(n + 1).
pub data ℤ : Type 0 where
  pos : ℕ → ℤ
  negsuc : ℕ → ℤ

abbrev pub is_le : ℤ → ℤ → Bool
is_le (pos a) (pos b) = leb a b
is_le (pos a) (negsuc b) = false
is_le (negsuc a) (pos b) = true
is_le (negsuc a) (negsuc b) = leb b a

abbrev pub is_pos : ℤ → Bool
is_pos (pos n) = ltb 0 n
is_pos (negsuc n) = false

-- The 32 low bits in two's complement, and the signed number that 32 bits stand for.
unfoldable pub bits32 : ℤ → ℕ
bits32 (pos n) = n % 2 ^ 32
bits32 (negsuc n) = 2 ^ 32 - 1 - n % 2 ^ 32

unfoldable pub signed32 : ℕ → ℤ
signed32 b = if ltb b (2 ^ 31) then pos b else negsuc (2 ^ 32 - 1 - b)

-- The conversion `int32(x)`.
unfoldable pub int32 : ℤ → ℤ
unfolding bits32 signed32
int32 z = signed32 (bits32 z)

-- `x++` on an `int32`.
unfoldable pub int32_inc : ℤ → ℤ
unfolding bits32 signed32
int32_inc z = signed32 ((bits32 z + 1) % 2 ^ 32)

pub int32_inc-pos : (n : ℕ) → n + 1 < 2 ^ 31 → int32_inc (pos n) ≡ pos (n + 1)
unfolding int32_inc
int32_inc-pos n h = ground arith

pub int32-pos : (n : ℕ) → n < 2 ^ 31 → int32 (pos n) ≡ pos n
unfolding int32
int32-pos n h = ground arith

pub int32-negsuc : (n : ℕ) → n < 2 ^ 31 → int32 (negsuc n) ≡ negsuc n
unfolding int32
int32-negsuc n h = ground arith
