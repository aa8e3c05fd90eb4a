-- ===== src/Crypto/Words.antt =====
-- Machine words of service/src/crypto.rs: `u32` operations with their wrap-around, and big-endian
-- bytes.
use Prim.Native.Nat.{bit_xor}
use ahara_collector.Prelude.{ℕ, ◌+◌, ◌-◌, ◌*◌, ◌/◌, ◌%◌, ◌^◌, List, [], ◌∷◌, ◌++◌, Bytes}

unfoldable pub wrapping_add : ℕ → ℕ → ℕ
wrapping_add a b = (a + b) % 2 ^ 32

-- For `0 < n < 32`.
unfoldable pub rotate_left : ℕ → ℕ → ℕ
rotate_left a n = a * 2 ^ n % 2 ^ 32 + a / 2 ^ (32 - n)

unfoldable pub rotate_right : ℕ → ℕ → ℕ
rotate_right a n = a / 2 ^ n + a * 2 ^ (32 - n) % 2 ^ 32

-- `!a`
unfoldable pub complement : ℕ → ℕ
complement a = 2 ^ 32 - 1 - a

unfoldable pub from_be_bytes : ℕ → ℕ → ℕ → ℕ → ℕ
from_be_bytes a b c d = a * 2 ^ 24 + b * 2 ^ 16 + c * 2 ^ 8 + d

unfoldable pub word_bytes : ℕ → Bytes
word_bytes w = w / 2 ^ 24 % 256 ∷ w / 2 ^ 16 % 256 ∷ w / 2 ^ 8 % 256 ∷ w % 256 ∷ []

unfoldable pub words_bytes : List ℕ → Bytes
unfolding word_bytes
words_bytes [] = []
words_bytes (w ∷ ws) = word_bytes w ++ words_bytes ws

-- `chunks_exact(4)` read as words.
unfoldable pub block_words : Bytes → List ℕ
unfolding from_be_bytes
block_words (a ∷ b ∷ c ∷ d ∷ rest) = from_be_bytes a b c d ∷ block_words rest
block_words _ = []

-- Byte by byte, up to the shorter one.
unfoldable pub xor_bytes : Bytes → Bytes → Bytes
xor_bytes (a ∷ s) (b ∷ t) = bit_xor a b ∷ xor_bytes s t
xor_bytes _ _ = []
