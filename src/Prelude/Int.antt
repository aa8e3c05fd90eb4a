-- ===== src/Prelude/Int.antt =====
-- Signed integers over the native numbers, under the library's names; `negsuc n` is -(n + 1).
use Prim.Native.Nat.{◌+◌, ◌%◌, ℕ, ◌-◌, ◌^◌, ◌<◌}
use mathlib.Core.Option.{Option, none, some}
use ahara_collector.Prelude.Tests.{ltb, leb, if◌then◌else◌}

pub data ℤ : Type 0 where
  pos : ℕ → ℤ
  negsuc : ℕ → ℤ

-- a - b, as an integer.
abbrev pub sub_ℕ : ℕ → ℕ → ℤ
sub_ℕ a b = if leb b a then pos (a - b) else negsuc (b - a - 1)

-- The values of an `i64`.
abbrev pub FitsI64 : ℤ → Type 0
FitsI64 (pos n) = n < 2 ^ 63
FitsI64 (negsuc n) = n < 2 ^ 63

-- `u16::try_from`, `u64::try_from` of an `i64`.
abbrev pub to_u16 : ℤ → Option ℕ
to_u16 (pos n) = if ltb n (2 ^ 16) then some n else none
to_u16 (negsuc n) = none

abbrev pub to_u64 : ℤ → Option ℕ
to_u64 (pos n) = some n
to_u64 (negsuc n) = none

-- The 64 bits of an integer in two's complement, and `as i64` of them.
unfoldable pub to_bits : ℤ → ℕ
to_bits (pos n) = n % 2 ^ 64
to_bits (negsuc n) = 2 ^ 64 - 1 - n % 2 ^ 64

unfoldable pub as_i64_cast : ℕ → ℤ
as_i64_cast n = if ltb (n % 2 ^ 64) (2 ^ 63) then pos (n % 2 ^ 64) else sub_ℕ (n % 2 ^ 64) (2 ^ 64)

-- The difference of two `i64`s, which wraps around.
unfoldable pub wrapping_sub : ℤ → ℤ → ℤ
unfolding to_bits as_i64_cast
wrapping_sub a b = as_i64_cast (to_bits a + 2 ^ 64 - to_bits b)
