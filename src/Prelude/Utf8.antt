-- ===== src/Prelude/Utf8.antt =====
-- UTF-8: `as_bytes`, `from_utf8` and `from_utf8_lossy` of the standard library, between texts as
-- scalar values and bytes.
use Prim.Native.Nat.{ℕ, zero, suc, ◌+◌, ◌-◌, ◌*◌, ◌/◌, ◌%◌}
use mathlib.Core.Bool.{Bool, ◌&&◌}
use mathlib.Core.List.{[], ◌∷◌, ◌++◌}
use mathlib.Core.Option.{Option, none, some}
use ahara_collector.Prelude.Tests.{ltb, leb, ◌==◌, if◌then◌else◌}
use ahara_collector.Prelude.Lists.{Text, Bytes, length}

unfoldable pub encode_char : ℕ → Bytes
encode_char c =
    if ltb c 0x80
    then c ∷ []
    else if ltb c 0x800
    then (0xc0 + c / 64) ∷ (0x80 + c % 64) ∷ []
    else if ltb c 0x10000
    then (0xe0 + c / 4096) ∷ (0x80 + c / 64 % 64) ∷ (0x80 + c % 64) ∷ []
    else (0xf0 + c / 262144) ∷ (0x80 + c / 4096 % 64) ∷ (0x80 + c / 64 % 64) ∷ (0x80 + c % 64) ∷ []

-- `as_bytes`, `into_bytes`
unfoldable pub as_bytes : Text → Bytes
unfolding encode_char
as_bytes [] = []
as_bytes (c ∷ s) = encode_char c ++ as_bytes s

-- A character and what follows it, or an ill-formed sequence and what follows it.
pub data Decoded : Type 0 where
  char : ℕ → Bytes → Decoded
  bad : Bytes → Decoded

unfoldable pub is_continuation : ℕ → Bool
is_continuation b = leb 0x80 b && ltb b 0xc0

-- The last byte, the last two and the last three of a sequence, after the bits of `n`.
unfoldable pub decode_last : ℕ → Bytes → Decoded
unfolding is_continuation
decode_last n [] = bad []
decode_last n (b ∷ s) = if is_continuation b then char (n * 64 + (b - 0x80)) s else bad (b ∷ s)

unfoldable pub decode_two : ℕ → ℕ → ℕ → Bytes → Decoded
unfolding decode_last
decode_two lo hi n [] = bad []
decode_two lo hi n (b ∷ s) =
    if leb lo b && leb b hi then decode_last (n * 64 + (b - 0x80)) s else bad (b ∷ s)

unfoldable pub decode_middle : ℕ → Bytes → Decoded
unfolding decode_last is_continuation
decode_middle n [] = bad []
decode_middle n (b ∷ s) =
    if is_continuation b then decode_last (n * 64 + (b - 0x80)) s else bad (b ∷ s)

unfoldable pub decode_three : ℕ → ℕ → ℕ → Bytes → Decoded
unfolding decode_middle
decode_three lo hi n [] = bad []
decode_three lo hi n (b ∷ s) =
    if leb lo b && leb b hi then decode_middle (n * 64 + (b - 0x80)) s else bad (b ∷ s)

-- The first byte fixes the length, and the range of the second byte.
unfoldable pub decode : ℕ → Bytes → Decoded
unfolding decode_last decode_two decode_three
decode b s =
    if ltb b 0x80
    then char b s
    else if leb 0xc2 b && ltb b 0xe0
    then decode_last (b - 0xc0) s
    else if b == 0xe0
    then decode_two 0xa0 0xbf 0 s
    else if b == 0xed
    then decode_two 0x80 0x9f 13 s
    else if leb 0xe1 b && ltb b 0xf0
    then decode_two 0x80 0xbf (b - 0xe0) s
    else if b == 0xf0
    then decode_three 0x90 0xbf 0 s
    else if leb 0xf1 b && ltb b 0xf4
    then decode_three 0x80 0xbf (b - 0xf0) s
    else if b == 0xf4
    then decode_three 0x80 0x8f 4 s
    else bad s

-- Each round takes a byte at least, so the length is enough fuel.
unfoldable pub lossy_loop : ℕ → Bytes → Text
unfolding decode
lossy_loop zero s = []
lossy_loop (suc f) [] = []
lossy_loop (suc f) (b ∷ s) = elim (decode b s) [
  | char c rest ↦ c ∷ lossy_loop f rest
  | bad rest ↦ 0xfffd ∷ lossy_loop f rest
]

unfoldable pub from_utf8_lossy : Bytes → Text
unfolding lossy_loop
from_utf8_lossy s = lossy_loop (length s) s

unfoldable pub strict_loop : ℕ → Bytes → Option Text
unfolding decode
strict_loop zero s = some []
strict_loop (suc f) [] = some []
strict_loop (suc f) (b ∷ s) = elim (decode b s) [
  | char c rest ↦ elim (strict_loop f rest) [ none ↦ none | some t ↦ some (c ∷ t) ]
  | bad rest ↦ none
]

unfoldable pub from_utf8 : Bytes → Option Text
unfolding strict_loop
from_utf8 s = strict_loop (length s) s
