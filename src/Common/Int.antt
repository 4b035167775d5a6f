-- ===== src/Common/Int.antt =====
-- Signed 64-bit values: bit patterns below 2^64 and the integers that they stand for.
use Prim.Native.Nat.{ℕ, ◌-◌, ◌^◌, ◌≤◌}
use mathlib.Core.Bool.{Bool, true, false}
use mathlib.Core.Path.{◌≡◌}
use native.Mathlib.Omega.{arith}
use kiro_gateway_go.Common.Tests.{leb, if◌then◌else◌}

-- `negsuc n` is -(n + 1).
pub data ℤ : Type 0 where
  pos : ℕ → ℤ
  negsuc : ℕ → ℤ

abbrev pub leb_ℤ : ℤ → ℤ → Bool
leb_ℤ (pos a) (pos b) = leb a b
leb_ℤ (pos a) (negsuc b) = false
leb_ℤ (negsuc a) (pos b) = true
leb_ℤ (negsuc a) (negsuc b) = leb b a

abbrev pub word : ℕ
word = 2 ^ 64

abbrev pub max_int64 : ℕ
max_int64 = 2 ^ 63 - 1

-- The integer of a bit pattern in two's complement.
unfoldable pub to_int64 : ℕ → ℤ
to_int64 bits = if leb bits max_int64 then pos bits else negsuc (word - 1 - bits)

pub to_int64-small : (n : ℕ) → n ≤ max_int64 → to_int64 n ≡ pos n
unfolding to_int64
to_int64-small n h = ground arith
