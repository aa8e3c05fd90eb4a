-- ===== src/Json/Strings.antt =====
-- `parse_string` of service/src/json.rs, over the scalar values that are left of the input. The
-- input is a `&str`, so a step of the program's byte position over one scalar value is one step
-- here. An escape that meets a scalar value outside ASCII is an error in both.
use ahara_collector.Prelude.{
  ℕ, zero, suc, ◌+◌, ◌-◌, ◌*◌, ◌^◌, ◌&&◌, ◌||◌, Option, none, some, [], ◌∷◌, ◌++◌, Text, ltb, leb,
  ◌==◌, if◌then◌else◌, length,
}
use ahara_collector.Prelude.Results.{Result, ok, err}
use ahara_collector.Prelude.Options.{◌>>=◌}

-- One constructor for each message, without the position in it. `out_of_fuel` has no counterpart
-- in the program.
pub data Error : Type 0 where
  unexpected_end trailing_data invalid_literal invalid_number expected_string : Error
  unterminated_string invalid_escape bad_unicode_escape bad_surrogate : Error
  expected_colon expected_comma out_of_fuel : Error

-- What one round of the loop does.
pub data Step : Type 0 where
  push : ℕ → Text → Step
  close : Text → Step
  fail : Error → Step

unfoldable pub hex_value : ℕ → Option ℕ
hex_value c =
    if leb b'0' c && leb c b'9'
    then some (c - b'0')
    else if leb b'a' c && leb c b'f'
    then some (c - b'a' + 10)
    else if leb b'A' c && leb c b'F'
    then some (c - b'A' + 10)
    else none

-- `u32::from_str_radix(_, 16)` of four characters; it takes a leading `+`.
unfoldable pub from_hex : ℕ → ℕ → ℕ → ℕ → Option ℕ
unfolding hex_value
from_hex a b c d = do
  x ← if a == b'+' then some 0 else hex_value a
  y ← hex_value b
  z ← hex_value c
  w ← hex_value d
  some (((x * 16 + y) * 16 + z) * 16 + w)

abbrev pub replacement : ℕ
replacement = 0xfffd

-- `char::from_u32(_).unwrap_or('\u{fffd}')`
unfoldable pub char_or_replacement : ℕ → ℕ
char_or_replacement c = if (leb 0xd800 c && ltb c 0xe000) || leb 0x110000 c then replacement else c

-- The low half of a surrogate pair, behind `\u`; `whole` is the input from that `\u` on.
unfoldable pub low_half : ℕ → Text → Text → Step
low_half code whole (a ∷ b ∷ c ∷ d ∷ s) = elim (from_hex a b c d) [
  | none ↦ fail bad_surrogate
  | some low ↦
      if leb 0xdc00 low && ltb low 0xe000
      then push (char_or_replacement (0x10000 + (code - 0xd800) * 2 ^ 10 + (low - 0xdc00))) s
      else push replacement whole
]
low_half code whole _ = fail bad_surrogate

unfoldable pub surrogate : ℕ → Text → Step
surrogate code (a ∷ b ∷ s) =
    if a == b'\\' && b == b'u' then low_half code (a ∷ b ∷ s) s else push replacement (a ∷ b ∷ s)
surrogate code s = push replacement s

-- Behind `\u`.
unfoldable pub unicode_escape : Text → Step
unicode_escape (a ∷ b ∷ c ∷ d ∷ s) = elim (from_hex a b c d) [
  | none ↦ fail bad_unicode_escape
  | some code ↦
      if leb 0xd800 code && ltb code 0xdc00
      then surrogate code s
      else push (char_or_replacement code) s
]
unicode_escape _ = fail bad_unicode_escape

-- Behind a backslash.
unfoldable pub parse_escape : Text → Step
parse_escape [] = fail invalid_escape
parse_escape (c ∷ s) =
    if c == b'"' || (c == b'\\' || c == b'/')
    then push c s
    else if c == b'b'
    then push 8 s
    else if c == b'f'
    then push 12 s
    else if c == b'n'
    then push 10 s
    else if c == b'r'
    then push 13 s
    else if c == b't'
    then push 9 s
    else if c == b'u'
    then unicode_escape s
    else fail invalid_escape

unfoldable pub string_step : Text → Step
string_step [] = fail unterminated_string
string_step (c ∷ s) = if c == b'"' then close s else if c == b'\\' then parse_escape s else push c s

-- The loop, with the characters read so far. Each round consumes a character, so a fuel above
-- the length of the input is enough.
unfoldable pub string_loop : ℕ → Text → Text → Result Error (Text × Text)
string_loop zero out s = err out_of_fuel
string_loop (suc f) out s = elim (string_step s) [
  | push c rest ↦ string_loop f (out ++ c ∷ []) rest
  | close rest ↦ ok (out, rest)
  | fail e ↦ err e
]

unfoldable pub parse_string : Text → Result Error (Text × Text)
parse_string [] = err expected_string
parse_string (c ∷ s) = if c == b'"' then string_loop (suc (length s)) [] s else err expected_string
