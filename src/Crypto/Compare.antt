-- ===== src/Crypto/Compare.antt =====
-- `eq_constant_time` and `hex_encode` of service/src/crypto.rs.
use Prim.Native.Nat.{bit_or, bit_xor}
use ahara_collector.Prelude.{
  ℕ, ◌/◌, ◌%◌, Bool, false, [], ◌∷◌, Bytes, Text, ltb, ◌+◌, ◌==◌, if◌then◌else◌, length,
}

-- The loop over both, from the accumulator `diff`.
unfoldable pub differences : ℕ → Bytes → Bytes → ℕ
differences diff (x ∷ a) (y ∷ b) = differences (bit_or diff (bit_xor x y)) a b
differences diff _ _ = diff

unfoldable pub eq_constant_time : Bytes → Bytes → Bool
unfolding differences
eq_constant_time a b = if length a == length b then differences 0 a b == 0 else false

unfoldable pub hex_digit : ℕ → ℕ
hex_digit n = if ltb n 10 then 48 + n else 87 + n

unfoldable pub hex_encode : Bytes → Text
unfolding hex_digit
hex_encode [] = []
hex_encode (b ∷ bs) = hex_digit (b / 16) ∷ hex_digit (b % 16) ∷ hex_encode bs
